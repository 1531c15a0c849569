-- ===== src/Forecast/Series/Buckets.antt =====
-- `bucket_records`, `expand_hourly_to_quarters` and `align_series`.
pub mod Hours
pub mod Records
use spot_price.Prelude.{
  ℕ, ◌*◌, Bool, true, false, Option, none, some, List, [], ◌∷◌, map, unwrap_or, if◌then◌else◌, ◌==◌,
}
use spot_price.Prelude.Int.{pos, rem_euclid}
use spot_price.Float.{Double}
use spot_price.Jiff.{Instant}
use spot_price.Forecast.Quarter.{
  QuarterStart, QuarterMap, quarter_floor, quarter_offset, insert_quarter, get_quarter, quarter_ms,
  hour_ms,
}
use spot_price.Forecast.Series.{tally, no_tally, mean}

-- One observation: the start instant and the value in MW.
pub record GridRecord (T F : Type 0) : Type 0 where
  pub start : T
  pub value : F

module _ {F : Type 0} where
  abbrev pub is_some : Option F → Bool
  is_some none = false
  is_some (some x) = true

  -- The quarters of an hour that the value at its top fills.
  abbrev pub fill_quarter : QuarterMap F → QuarterStart → F → ℕ → QuarterMap F → QuarterMap F
  fill_quarter quarters key value offset_quarters out =
      let fill = quarter_offset key (pos (offset_quarters * quarter_ms)) in
      if is_some (get_quarter fill quarters) then out else insert_quarter fill value out

  abbrev pub fill_hour : QuarterMap F → QuarterStart → F → QuarterMap F → QuarterMap F
  fill_hour quarters key value out =
      if rem_euclid key.start hour_ms == 0
      then fill_quarter quarters key value 3
          (fill_quarter quarters key value 2 (fill_quarter quarters key value 1 out))
      else out

  abbrev pub fill_hours : QuarterMap F → QuarterMap F → QuarterMap F → QuarterMap F
  fill_hours quarters [] out = out
  fill_hours quarters ((key, value) ∷ entries) out =
      fill_hours quarters entries (fill_hour quarters key value out)

  -- The pairs of `align_series`, before they are taken apart.
  abbrev pub aligned : QuarterMap F → QuarterMap F → List (F × F)
  aligned residuals [] = []
  aligned residuals ((key, y) ∷ prices) =
      with_residual (get_quarter key residuals) y (aligned residuals prices)
    where
      with_residual : Option F → F → List (F × F) → List (F × F)
      with_residual none y rest = rest
      with_residual (some x) y rest = (x, y) ∷ rest

  unfoldable pub align_series : QuarterMap F → QuarterMap F → List F × List F
  align_series prices residuals =
      (map (λ p. p.0) (aligned residuals prices), map (λ p. p.1) (aligned residuals prices))

module _ {F : Type 0} ⦃d : Double F⦄ where
  abbrev pub add_sample : QuarterStart → F → QuarterMap (F × ℕ) → QuarterMap (F × ℕ)
  add_sample quarter value sums =
      insert_quarter quarter (tally value (unwrap_or (get_quarter quarter sums) no_tally)) sums

module _ {T F : Type 0} ⦃i : Instant T⦄ ⦃d : Double F⦄ where
  open d use {is_finite}

  -- `sums` after the loop.
  abbrev pub bucket_sums : List (GridRecord T F) → QuarterMap (F × ℕ) → QuarterMap (F × ℕ)
  bucket_sums [] sums = sums
  bucket_sums (r ∷ records) sums =
      bucket_sums records
        (if is_finite r.value then add_sample (quarter_floor r.start) r.value sums else sums)

  unfoldable pub bucket_records : List (GridRecord T F) → QuarterMap F
  bucket_records records = map (λ (key, sample). (key, mean sample)) (bucket_sums records [])

  unfoldable pub expand_hourly_to_quarters : List (GridRecord T F) → QuarterMap F
  expand_hourly_to_quarters records =
      let quarters = bucket_records records in fill_hours quarters quarters quarters
