-- ===== src/Forecast/Series/Shape.antt =====
-- The within-day shape: `apply_within_day_shape_with`.
pub mod Fallback
pub mod Levels
use spot_price.Prelude.{
  ℕ, ◌+◌, Bool, true, false, Option, none, some, List, [], ◌∷◌, map, unwrap_or, if◌then◌else◌, ltb,
}
use spot_price.Prelude.Int.{ℤ}
use spot_price.Float.{Double, number}
use spot_price.Jiff.{Instant, Calendar, Weekdays, Zoned, Ambiguity}
use spot_price.Forecast.Quarter.{
  QuarterStart, QuarterMap, insert_quarter, get_quarter, utc_day_start_ms,
}
use spot_price.Forecast.Numbers.{count_f64}
use spot_price.Forecast.Series.Profile.{ShapeProfile, persistence, profile_values, ProfileValues}

pub record DayAggregate (F : Type 0) : Type 0 where
  pub ridge_sum : F
  pub ridge_count : ℕ
  pub persistence_sum : F
  pub persistence_count : ℕ

pub record ShapedPrediction (F : Type 0) : Type 0 where
  pub result : QuarterMap F
  pub shape_fallback_quarters : ℕ

-- The key of `by_day`, a `BTreeMap` from the milliseconds at which a day starts.
unfoldable pub day_of : QuarterStart → QuarterStart
day_of key = record { start = utc_day_start_ms key }

module _ {F : Type 0} ⦃d : Double F⦄ where
  open d use {add, sub, div}

  abbrev pub no_day : DayAggregate F
  no_day = record {
    ridge_sum = number 0;
    ridge_count = 0;
    persistence_sum = number 0;
    persistence_count = 0;
  }

  abbrev pub add_persistence : Option F → DayAggregate F → DayAggregate F
  add_persistence none day = day
  add_persistence (some price) day = record day {
    persistence_sum = add day.persistence_sum price;
    persistence_count = day.persistence_count + 1;
  }

  abbrev pub add_ridge : F → DayAggregate F → DayAggregate F
  add_ridge value day = record day {
    ridge_sum = add day.ridge_sum value;
    ridge_count = day.ridge_count + 1;
  }

  -- The first loop.
  abbrev pub day_aggregates :
      QuarterMap F → QuarterMap F → QuarterMap (DayAggregate F) → QuarterMap (DayAggregate F)
  day_aggregates profile [] by_day = by_day
  day_aggregates profile ((key, value) ∷ predicted) by_day =
      let day = unwrap_or (get_quarter (day_of key) by_day) no_day in
      day_aggregates profile predicted (
        insert_quarter (day_of key)
          (add_persistence (get_quarter key profile) (add_ridge value day)) by_day)

  abbrev pub with_ridge : Option (DayAggregate F) → Option (DayAggregate F)
  with_ridge none = none
  with_ridge (some day) = if ltb 0 day.ridge_count then some day else none

  abbrev pub ridge_daily_mean : DayAggregate F → F
  ridge_daily_mean day = div day.ridge_sum (count_f64 day.ridge_count)

  abbrev pub persistence_daily_mean : DayAggregate F → F
  persistence_daily_mean day = div day.persistence_sum (count_f64 day.persistence_count)

  -- The value of a quarter, and whether it is a fallback.
  abbrev pub shaped : Option (DayAggregate F) → Option F → F → F × ℕ
  shaped none price value = (value, 0)
  shaped (some day) none value = (ridge_daily_mean day, 1)
  shaped (some day) (some price) value =
      if ltb 0 day.persistence_count
      then (add (ridge_daily_mean day) (sub price (persistence_daily_mean day)), 0)
      else (ridge_daily_mean day, 1)

  -- The second loop.
  abbrev pub shape_loop :
      QuarterMap (DayAggregate F)
      → QuarterMap F
      → QuarterMap F
      → ShapedPrediction F
      → ShapedPrediction F
  shape_loop by_day profile [] out = out
  shape_loop by_day profile ((key, value) ∷ predicted) out =
      let (estimate, fallback) =
        shaped (with_ridge (get_quarter (day_of key) by_day)) (get_quarter key profile) value in
      shape_loop by_day profile predicted (record {
        result = insert_quarter key estimate out.result;
        shape_fallback_quarters = out.shape_fallback_quarters + fallback;
      })

  abbrev pub keys : QuarterMap F → List QuarterStart
  keys entries = map (λ e. e.0) entries

  -- The two loops, for a profile that is known.
  unfoldable pub shape_with : QuarterMap F → QuarterMap F → ShapedPrediction F
  shape_with predicted profile =
      shape_loop (day_aggregates profile predicted []) profile predicted
        (record { result = []; shape_fallback_quarters = 0 })

module _ (T : Type 0) {Z F : Type 0} ⦃i : Instant T⦄ ⦃c : Calendar⦄ ⦃w : Weekdays⦄
    ⦃z : Zoned T Z⦄ where
  module _ ⦃a : Ambiguity T Z⦄ ⦃d : Double F⦄ where
    unfoldable pub apply_within_day_shape_with :
        QuarterMap F → QuarterMap F → ShapeProfile Z → ShapedPrediction F
    unfolding shape_with
    apply_within_day_shape_with predicted spot_prices profile =
        shape_with predicted (profile_values T profile (keys predicted) spot_prices).values

module _ (T Z : Type 0) {F : Type 0} ⦃i : Instant T⦄ ⦃c : Calendar⦄ ⦃w : Weekdays⦄ where
  module _ ⦃z : Zoned T Z⦄ ⦃a : Ambiguity T Z⦄ ⦃d : Double F⦄ where
    unfoldable pub apply_within_day_shape : QuarterMap F → QuarterMap F → ShapedPrediction F
    unfolding apply_within_day_shape_with
    apply_within_day_shape predicted spot_prices =
        apply_within_day_shape_with T {Z = Z} predicted spot_prices persistence
