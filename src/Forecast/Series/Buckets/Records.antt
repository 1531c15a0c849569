-- ===== src/Forecast/Series/Buckets/Records.antt =====
-- The buckets of records, and the hours that their values fill.
use spot_price.Prelude.{
  ℕ, List, [], ◌∷◌, map, All, or_else, unwrap_or, ◌≡◌, arith, inl, inr, Bool-cases,
}
use spot_price.Prelude.Int.{ℤ, pos, negsuc, ◌≤ℤ◌, ltb_ℤ, eq_ℤ, +ℤ_parts}
use spot_price.Float.{Double}
use spot_price.Jiff.{Instant}
use spot_price.Forecast.Quarter.{
  QuarterStart, QuarterMap, quarter_from_millisecond, quarter_floor, insert_quarter, get_quarter,
  quarter_ms,
}
use spot_price.Forecast.Quarter.Bounds.{quarter_from_millisecond-bounds}
use spot_price.Forecast.Quarter.Points.{IsAscending, IsAfter, insert_quarter-IsAscending}
use spot_price.Forecast.Series.{tally, no_tally, mean}
use spot_price.Forecast.Series.Buckets.{
  GridRecord, add_sample, bucket_sums, bucket_records, expand_hourly_to_quarters,
}
use spot_price.Forecast.Series.Buckets.Hours.{IsKey, top_of_hour, get_quarter-filled}

-- The milliseconds of an instant: 10^18 of them are some 30 million years.
abbrev pub IsNear : ℤ → Type 0
IsNear ms = (negsuc 1_000_000_000_000_000_000 ≤ℤ ms) × (ms ≤ℤ pos 1_000_000_000_000_000_000)

quarter_from_millisecond-IsKey : (ms : ℤ) → IsNear ms → IsKey (quarter_from_millisecond ms).start
quarter_from_millisecond-IsKey ms (l, h) =
    let (aligned, below, above) =
      quarter_from_millisecond-bounds ms (omega (arith, l), omega (arith, h)) in
    let parts = +ℤ_parts (quarter_from_millisecond ms).start (pos quarter_ms) in
    (aligned, (omega (arith, l, above, parts), omega (arith, h, below)))

abbrev AreKeys : {A : Type 0} → QuarterMap A → Type 0
AreKeys es = All (λ e. IsKey e.0.start) es

module _ {A : Type 0} where
  insert_quarter-AreKeys :
      (key : QuarterStart) (v : A) (es : QuarterMap A)
      → IsKey key.start
      → AreKeys es
      → AreKeys (insert_quarter key v es)
  insert_quarter-AreKeys key v [] h hs = (h, tt)
  insert_quarter-AreKeys key v ((q, u) ∷ es) h (k, ks) =
      let rest = insert_quarter-AreKeys key v es h ks in
      elim (Bool-cases (ltb_ℤ key.start q.start)) [
        | inl e ↦ rw e (h, (k, ks))
        | inr e ↦ elim (Bool-cases (eq_ℤ key.start q.start)) [
          | inl p ↦ rw e (rw p (h, ks))
          | inr p ↦ rw e (rw p (k, rest))
        ]
      ]

  module _ {B : Type 0} (f : A → B) where
    abbrev values : QuarterMap A → QuarterMap B
    values es = map (λ (key, v). (key, f v)) es

    values-IsAfter : (q : QuarterStart) (es : QuarterMap A) → IsAfter q es → IsAfter q (values es)
    values-IsAfter q [] h = tt
    values-IsAfter q (e ∷ es) (l, h) = (l, values-IsAfter q es h)

    values-IsAscending : (es : QuarterMap A) → IsAscending es → IsAscending (values es)
    values-IsAscending [] h = tt
    values-IsAscending ((q, v) ∷ es) (after, h) =
        (values-IsAfter q es after, values-IsAscending es h)

    values-AreKeys : (es : QuarterMap A) → AreKeys es → AreKeys (values es)
    values-AreKeys [] h = tt
    values-AreKeys (e ∷ es) (k, h) = (k, values-AreKeys es h)

module _ {T F : Type 0} ⦃i : Instant T⦄ ⦃d : Double F⦄ where
  open d use {is_finite}

  abbrev pub AreNear : List (GridRecord T F) → Type 0
  AreNear records = All (λ r. IsNear (i.as_millisecond r.start)) records

  bucket_sums_lem :
      (records : List (GridRecord T F)) (sums : QuarterMap (F × ℕ))
      → AreNear records
      → IsAscending sums
      → AreKeys sums
      → IsAscending (bucket_sums records sums) × AreKeys (bucket_sums records sums)
  unfolding quarter_floor
  bucket_sums_lem [] sums near asc h = (asc, h)
  bucket_sums_lem (r ∷ records) sums (near, rest) asc h =
      let key = quarter_floor r.start in
      let sample = tally r.value (unwrap_or (get_quarter key sums) no_tally) in
      elim (Bool-cases (is_finite r.value)) [
        | inl e ↦ rw e (
            bucket_sums_lem records (add_sample key r.value sums) rest
              (insert_quarter-IsAscending key sample sums asc)
              (insert_quarter-AreKeys key sample sums
                (quarter_from_millisecond-IsKey (i.as_millisecond r.start) near) h))
        | inr e ↦ rw e (bucket_sums_lem records sums rest asc h)
      ]

  -- An expanded quarter has its own bucket's value, and without one that of the bucket at the top of
  -- its hour, if any. The records are of instants, and the quarter is a multiple of 15 minutes.
  pub get_quarter-expand :
      (records : List (GridRecord T F)) (q : QuarterStart)
      → AreNear records
      → IsKey q.start
      → get_quarter q (expand_hourly_to_quarters records)
        ≡ or_else
            (get_quarter q (bucket_records records))
            (get_quarter (top_of_hour q) (bucket_records records))
  unfolding expand_hourly_to_quarters bucket_records
  get_quarter-expand records q near hq =
      let sums = bucket_sums records [] in
      let (asc, h) = bucket_sums_lem records [] near tt tt in
      get_quarter-filled (values mean sums) q (values-AreKeys mean sums h)
        (values-IsAscending mean sums asc) hq
