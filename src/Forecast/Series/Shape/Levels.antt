-- ===== src/Forecast/Series/Shape/Levels.antt =====
-- The value of a shaped quarter.
use spot_price.Prelude.{
  ℕ, ◌+◌, Option, none, some, List, [], ◌∷◌, length, unwrap_or, if◌then◌else◌, ◌≡◌, refl, ap, ◌∙◌,
  arith, inl, inr, Bool-cases,
}
use spot_price.Prelude.Int.{eq_ℤ}
use spot_price.Float.{Double, number}
use spot_price.Forecast.Numbers.{count_f64}
use spot_price.Forecast.Quarter.{QuarterStart, QuarterMap, insert_quarter, get_quarter}
use spot_price.Forecast.Quarter.Points.{get_quarter-insert, same_quarter}
use spot_price.Forecast.Series.Buckets.{is_some}
use spot_price.Forecast.Series.Shape.{
  DayAggregate, ShapedPrediction, day_of, no_day, add_persistence, add_ridge, day_aggregates,
  with_ridge, ridge_daily_mean, persistence_daily_mean, shaped, shape_loop, shape_with, keys,
  apply_within_day_shape_with,
}
use spot_price.Jiff.{Instant, Calendar, Weekdays, Zoned, Ambiguity}
use spot_price.Forecast.Series.Profile.{ShapeProfile, profile_values}
use spot_price.Forecast.Series.Shape.Fallback.{
  without_price, shape_with-fallback, IsCounted, AreCounted, next_day, insert_day,
  day_aggregates-AreCounted,
}

module _ {F : Type 0} where
  -- The predicted values of a day.
  abbrev pub day_values : QuarterStart → QuarterMap F → List F
  day_values day [] = []
  day_values day ((key, value) ∷ predicted) =
      let rest = day_values day predicted in
      if eq_ℤ (day_of key).start day.start then value ∷ rest else rest

  abbrev pub cons_price : Option F → List F → List F
  cons_price none prices = prices
  cons_price (some price) prices = price ∷ prices

  -- The profile prices of the predicted quarters of a day.
  abbrev pub day_prices : QuarterMap F → QuarterStart → QuarterMap F → List F
  day_prices profile day [] = []
  day_prices profile day ((key, value) ∷ predicted) =
      let rest = day_prices profile day predicted in
      if eq_ℤ (day_of key).start day.start then cons_price (get_quarter key profile) rest else rest

  abbrev count_from : ℕ → List F → ℕ
  count_from n [] = n
  count_from n (x ∷ xs) = count_from (n + 1) xs

  count_from-length : (n : ℕ) (xs : List F) → count_from n xs ≡ n + length xs
  count_from-length n [] = omega arith
  count_from-length n (x ∷ xs) = omega (arith, count_from-length (n + 1) xs)

  count_from_zero : (xs : List F) → count_from 0 xs ≡ length xs
  count_from_zero xs = omega (arith, count_from-length 0 xs)

module _ {F : Type 0} ⦃d : Double F⦄ where
  open d use {add, sub, div}

  abbrev pub sum_from : F → List F → F
  sum_from acc [] = acc
  sum_from acc (x ∷ xs) = sum_from (add acc x) xs

  abbrev pub mean_value : List F → F
  mean_value xs = div (sum_from (number 0) xs) (count_f64 (length xs))

  -- Without a profile price, a quarter has the mean of its day; with one, that mean and what its
  -- price is above the mean of the prices.
  abbrev pub level : Option F → List F → List F → F
  level none values prices = mean_value values
  level (some price) values prices = add (mean_value values) (sub price (mean_value prices))

  abbrev extended : DayAggregate F → List F → List F → DayAggregate F
  extended day values prices = record {
    ridge_sum = sum_from day.ridge_sum values;
    ridge_count = count_from day.ridge_count values;
    persistence_sum = sum_from day.persistence_sum prices;
    persistence_count = count_from day.persistence_count prices;
  }

  extended-next :
      (price : Option F) (value : F) (day : DayAggregate F) (values prices : List F)
      → extended (add_persistence price (add_ridge value day)) values prices
        ≡ extended day (value ∷ values) (cons_price price prices)
  extended-next none value day values prices = refl
  extended-next (some x) value day values prices = refl

  abbrev day_level : Option F → DayAggregate F → F
  day_level none day = ridge_daily_mean day
  day_level (some price) day = add (ridge_daily_mean day) (sub price (persistence_daily_mean day))

  day_level-extended :
      (price : Option F) (values prices : List F)
      → day_level price (extended no_day values prices) ≡ level price values prices
  day_level-extended none values prices = rw (count_from_zero values) refl
  day_level-extended (some x) values prices =
      rw (count_from_zero values) (rw (count_from_zero prices) refl)

  module _ (profile : QuarterMap F) where
    shaped_level :
        (o : Option (DayAggregate F)) (price : Option F) (value : F)
        → IsCounted profile (is_some price) o
        → (shaped (with_ridge o) price value).0 ≡ day_level price (unwrap_or o no_day)
    shaped_level none price value h = elim h [ ]
    shaped_level (some day) none value (r, p) = ground arith
    shaped_level (some day) (some x) value (r, p) = ground (arith, p refl)

    extended-insert_day :
        (day key : QuarterStart) (value : F) (by_day : QuarterMap (DayAggregate F))
        (predicted : QuarterMap F)
        → extended
            (unwrap_or (get_quarter day (insert_day profile key value by_day)) no_day)
            (day_values day predicted)
            (day_prices profile day predicted)
          ≡ extended
              (unwrap_or (get_quarter day by_day) no_day)
              (day_values day ((key, value) ∷ predicted))
              (day_prices profile day ((key, value) ∷ predicted))
    extended-insert_day day key value by_day predicted =
        let after = next_day profile key value (get_quarter (day_of key) by_day) in
        let looked = get_quarter-insert day (day_of key) after by_day in
        let values = day_values day predicted in
        let prices = day_prices profile day predicted in
        elim (Bool-cases (eq_ℤ (day_of key).start day.start)) [
          | inl e ↦
              let same =
                ap (λ k. unwrap_or (get_quarter k by_day) no_day)
                  (same_quarter (day_of key) day e) in
              rw looked (
                rw e (
                  extended-next (get_quarter key profile) value
                    (unwrap_or (get_quarter (day_of key) by_day) no_day) values prices
                  ∙ ap
                      (λ u.
                        extended u (value ∷ values) (cons_price (get_quarter key profile) prices))
                      same))
          | inr e ↦ rw looked (rw e refl)
        ]

    day_aggregates-extended :
        (day : QuarterStart) (predicted : QuarterMap F) (by_day : QuarterMap (DayAggregate F))
        → unwrap_or (get_quarter day (day_aggregates profile predicted by_day)) no_day
          ≡ extended
              (unwrap_or (get_quarter day by_day) no_day)
              (day_values day predicted)
              (day_prices profile day predicted)
    day_aggregates-extended day [] by_day = refl
    day_aggregates-extended day ((key, value) ∷ predicted) by_day =
        day_aggregates-extended day predicted (insert_day profile key value by_day)
        ∙ extended-insert_day day key value by_day predicted

    abbrev day_shape : QuarterMap (DayAggregate F) → QuarterStart → F
    day_shape by_day q =
        day_level (get_quarter q profile) (unwrap_or (get_quarter (day_of q) by_day) no_day)

    shape_loop_value :
        (by_day : QuarterMap (DayAggregate F)) (predicted : QuarterMap F) (out : ShapedPrediction F)
        (q : QuarterStart)
        → AreCounted profile by_day predicted
        → get_quarter q (shape_loop by_day profile predicted out).result ≡ (
            if is_some (get_quarter q predicted)
            then some (day_shape by_day q)
            else get_quarter q out.result)
    shape_loop_value by_day [] out q h = refl
    shape_loop_value by_day ((key, value) ∷ predicted) out q (h, hs) =
        let day = get_quarter (day_of key) by_day in
        let (estimate, fallback) = shaped (with_ridge day) (get_quarter key profile) value in
        let next : ShapedPrediction F = record {
          result = insert_quarter key estimate out.result;
          shape_fallback_quarters = out.shape_fallback_quarters + fallback;
        } in
        let rest = shape_loop_value by_day predicted next q hs in
        let one = get_quarter-insert q key estimate out.result in
        let here = shaped_level day (get_quarter key profile) value h in
        elim (Bool-cases (eq_ℤ key.start q.start)) [
          | inl e ↦
              let same = ap (day_shape by_day) (same_quarter key q e) in
              ground (arith, e, rest, one, here, same)
          | inr e ↦ ground (arith, e, rest, one)
        ]

    -- The level of a quarter in its day.
    abbrev pub shape_level : QuarterMap F → QuarterStart → F
    shape_level predicted q =
        level (get_quarter q profile) (day_values (day_of q) predicted)
          (day_prices profile (day_of q) predicted)

    pub shape_with_value :
        (predicted : QuarterMap F) (q : QuarterStart)
        → get_quarter q (shape_with predicted profile).result
          ≡ (if is_some (get_quarter q predicted) then some (shape_level predicted q) else none)
    unfolding shape_with
    shape_with_value predicted q =
        let by_day = day_aggregates profile predicted [] in
        let price = get_quarter q profile in
        shape_loop_value by_day predicted (record { result = []; shape_fallback_quarters = 0 }) q
          (day_aggregates-AreCounted profile predicted [])
        ∙ ap (λ x. if is_some (get_quarter q predicted) then some x else none)
            (ap (day_level price) (day_aggregates-extended (day_of q) predicted [])
              ∙ day_level-extended price (day_values (day_of q) predicted)
                  (day_prices profile (day_of q) predicted))

module _ (T : Type 0) {Z F : Type 0} ⦃i : Instant T⦄ ⦃c : Calendar⦄ ⦃w : Weekdays⦄
    ⦃z : Zoned T Z⦄ where
  -- A shaped prediction has the quarters of the prediction. A quarter without a profile price has the
  -- mean of the predicted values of its UTC day. One with a profile price has that mean and what its
  -- price is above the mean of the profile prices of the predicted quarters of the day. The fallbacks
  -- are the quarters without a profile price.
  pub apply_within_day_shape_lem :
      ⦃a : Ambiguity T Z⦄ ⦃d : Double F⦄ (predicted spot_prices : QuarterMap F)
      (profile : ShapeProfile Z)
      → let out = apply_within_day_shape_with T predicted spot_prices profile in
        let prices = (profile_values T profile (keys predicted) spot_prices).values in
        ((q : QuarterStart)
          → get_quarter q out.result ≡ (
              if is_some (get_quarter q predicted)
              then some (shape_level prices predicted q)
              else none))
        × (out.shape_fallback_quarters ≡ length (without_price prices predicted))
  unfolding apply_within_day_shape_with
  apply_within_day_shape_lem predicted spot_prices profile =
      let prices = (profile_values T profile (keys predicted) spot_prices).values in
      (shape_with_value prices predicted, shape_with-fallback prices predicted)
