-- ===== src/Forecast/Series/Predicted/Carried.antt =====
-- The points of a series against the predictions at and before them.
use spot_price.Prelude.{
  ℕ, zero, suc, Option, none, some, List, [], ◌∷◌, ◌++◌, length, if◌then◌else◌, or_else, ◌≡◌, refl,
  ap, ◌∙◌, arith, inl, inr, Option-cases,
}
use spot_price.Prelude.Int.{ℤ, pos, ◌+ℤ◌, saturate}
use spot_price.Float.{Double, number}
use spot_price.Js.{round3}
use spot_price.Forecast.Quarter.{QuarterStart, QuarterMap, get_quarter, quarter_ms}
use spot_price.Forecast.Series.Buckets.{is_some}
use spot_price.Forecast.Series.Predicted.{
  ForecastSpotPoint, series_keys, first_predicted, estimate, series_loop, build_predicted_series,
}

-- `slice::get`.
abbrev pub get_elem? {ℓ} : {A : Type ℓ} → List A → ℕ → Option A
get_elem? [] n = none
get_elem? (x ∷ xs) zero = some x
get_elem? (x ∷ xs) (suc n) = get_elem? xs n

module _ {F : Type 0} (predicted : QuarterMap F) where
  -- The prediction of the last of the quarters that has one.
  abbrev pub last_predicted : List QuarterStart → Option F
  last_predicted [] = none
  last_predicted (key ∷ keys) = or_else (last_predicted keys) (get_quarter key predicted)

or_else_assoc : {A : Type 0} (a b c : Option A) → or_else a (or_else b c) ≡ or_else (or_else a b) c
or_else_assoc none b c = refl
or_else_assoc (some x) b c = refl

length-series_keys : (n : ℕ) (ms : ℤ) → length (series_keys n ms) ≡ n
length-series_keys zero ms = refl
length-series_keys (suc n) ms =
    omega (arith, length-series_keys n (saturate (ms +ℤ pos quarter_ms)))

module _ {F : Type 0} ⦃d : Double F⦄ (predicted : QuarterMap F) where
  -- The rounded value, or zero.
  abbrev pub rounded : Option F → F
  rounded none = number 0
  rounded (some value) = round3 value

  abbrev pub plain_point : QuarterStart → Option F → ForecastSpotPoint F
  plain_point start value = record {
    start = start;
    estimated_spot_cents_kwh = rounded value;
    band = none;
  }

  estimate_lem : (own last : Option F) → estimate own last ≡ rounded (or_else own last)
  estimate_lem none none = refl
  estimate_lem none (some v) = refl
  estimate_lem (some v) last = refl

  length-series_loop :
      (keys : List QuarterStart) (last : Option F)
      → length (series_loop predicted keys last).series ≡ length keys
  length-series_loop [] last = refl
  length-series_loop (k ∷ keys) last =
      omega (arith, length-series_loop keys (or_else (get_quarter k predicted) last))

  series_loop-point :
      (before after : List QuarterStart) (k : QuarterStart) (last : Option F)
      → get_elem? (series_loop predicted (before ++ (k ∷ after)) last).series (length before)
        ≡ some (plain_point k (or_else (last_predicted predicted (before ++ (k ∷ []))) last))
  series_loop-point [] after k last =
      ap (λ e. some (record { start = k; estimated_spot_cents_kwh = e; band = none }))
        (estimate_lem (get_quarter k predicted) last)
  series_loop-point (b ∷ before) after k last =
      series_loop-point before after k (or_else (get_quarter b predicted) last)
      ∙ ap (λ v. some (plain_point k v))
          (or_else_assoc (last_predicted predicted (before ++ (k ∷ []))) (get_quarter b predicted)
            last)

  -- With a prediction to start from, no quarter is zero.
  zero_seeded-some :
      (keys : List QuarterStart) (v : F)
      → (series_loop predicted keys (some v)).zero_seeded_quarters ≡ 0
  zero_seeded-some [] v = refl
  zero_seeded-some (k ∷ keys) v = elim (Option-cases (get_quarter k predicted)) [
    | inl e ↦ rw e (ground (arith, zero_seeded-some keys v))
    | inr (u, e) ↦ rw e (ground (arith, zero_seeded-some keys u))
  ]

  -- With none, every quarter is.
  zero_seeded-none :
      (keys : List QuarterStart)
      → first_predicted predicted keys ≡ none
      → (series_loop predicted keys none).zero_seeded_quarters ≡ length keys
  zero_seeded-none [] h = refl
  zero_seeded-none (k ∷ keys) h = elim (Option-cases (get_quarter k predicted)) [
    | inl e ↦
        let later : first_predicted predicted keys ≡ none = ground (arith, e, h) in
        rw e (omega (arith, zero_seeded-none keys later))
    | inr (u, e) ↦ ground (arith, e, h)
  ]

  zero_seeded_lem :
      (keys : List QuarterStart) (first : Option F)
      → first_predicted predicted keys ≡ first
      → (series_loop predicted keys first).zero_seeded_quarters
        ≡ (if is_some first then 0 else length keys)
  zero_seeded_lem keys none h = zero_seeded-none keys h
  zero_seeded_lem keys (some v) h = zero_seeded-some keys v

  -- A series has the number of points that is asked for. The point of a quarter has the rounded
  -- value of the last quarter, up to it, that is predicted, and without one that of the first
  -- quarter that is; where no quarter is predicted, every point is zero and counted as seeded.
  pub build_predicted_series_lem :
      (series_start : QuarterStart) (n : ℕ)
      → (length (build_predicted_series predicted series_start n).series ≡ n)
        × ((before after : List QuarterStart) (k : QuarterStart)
            → series_keys n series_start.start ≡ before ++ (k ∷ after)
            → get_elem? (build_predicted_series predicted series_start n).series (length before)
              ≡ some (
                  plain_point k (
                    or_else
                      (last_predicted predicted (before ++ (k ∷ [])))
                      (first_predicted predicted (series_keys n series_start.start)))))
        × ((build_predicted_series predicted series_start n).zero_seeded_quarters ≡ (
            if is_some (first_predicted predicted (series_keys n series_start.start))
            then 0
            else n))
  unfolding build_predicted_series
  build_predicted_series_lem series_start n =
      let keys = series_keys n series_start.start in
      let first = first_predicted predicted keys in
      (
        length-series_loop keys first ∙ length-series_keys n series_start.start,
        λ before after k e.
            ap (λ l. get_elem? (series_loop predicted l first).series (length before)) e
            ∙ series_loop-point before after k first,
        zero_seeded_lem keys first refl
            ∙ ap (λ m. if is_some first then 0 else m) (length-series_keys n series_start.start),
      )
