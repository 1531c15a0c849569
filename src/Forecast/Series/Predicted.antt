-- ===== src/Forecast/Series/Predicted.antt =====
-- `build_predicted_series`: the points of the series.
pub mod Carried
use spot_price.Prelude.{
  ℕ, zero, suc, ◌+◌, Bool, true, false, Option, none, some, List, [], ◌∷◌, if◌then◌else◌, or_else,
}
use spot_price.Prelude.Int.{ℤ, pos, ◌+ℤ◌, saturate}
use spot_price.Float.{Double, number}
use spot_price.Js.{round3}
use spot_price.Forecast.Quarter.{
  QuarterStart, QuarterMap, quarter_from_millisecond, get_quarter, quarter_ms,
}
use spot_price.Forecast.Series.Buckets.{is_some}
use spot_price.Forecast.Conformal.{SpotBand}

pub record ForecastSpotPoint (F : Type 0) : Type 0 where
  pub start : QuarterStart
  pub estimated_spot_cents_kwh : F
  pub band : Option (SpotBand F)

pub record BuiltSeries (F : Type 0) : Type 0 where
  pub series : List (ForecastSpotPoint F)
  pub filled_quarters : ℕ
  pub zero_seeded_quarters : ℕ

-- `scan` from the millisecond of the first quarter.
abbrev pub series_keys : ℕ → ℤ → List QuarterStart
series_keys zero ms = []
series_keys (suc n) ms =
    quarter_from_millisecond ms ∷ series_keys n (saturate (ms +ℤ pos quarter_ms))

module _ {F : Type 0} where
  -- `find_map` of the prediction.
  abbrev pub first_predicted : QuarterMap F → List QuarterStart → Option F
  first_predicted predicted [] = none
  first_predicted predicted (key ∷ keys) =
      or_else (get_quarter key predicted) (first_predicted predicted keys)

module _ {F : Type 0} ⦃d : Double F⦄ where
  -- The estimate of a quarter: its own, the last predicted, or zero.
  abbrev pub estimate : Option F → Option F → F
  estimate (some value) last_predicted = round3 value
  estimate none (some value) = round3 value
  estimate none none = number 0

  -- One quarter of the loop, in front of the rest of the series.
  abbrev pub point : QuarterStart → Option F → Option F → BuiltSeries F → BuiltSeries F
  point start own last_predicted rest = record {
    series =
        record {
          start = start;
          estimated_spot_cents_kwh = estimate own last_predicted;
          band = none;
        }
        ∷ rest.series;
    filled_quarters =
        (if is_some own then 0 else if is_some last_predicted then 1 else 0) + rest.filled_quarters;
    zero_seeded_quarters =
        (if is_some own then 0 else if is_some last_predicted then 0 else 1)
        + rest.zero_seeded_quarters;
  }

  abbrev pub series_loop : QuarterMap F → List QuarterStart → Option F → BuiltSeries F
  series_loop predicted [] last_predicted = record {
    series = [];
    filled_quarters = 0;
    zero_seeded_quarters = 0;
  }
  series_loop predicted (start ∷ keys) last_predicted =
      let own = get_quarter start predicted in
      point start own last_predicted (series_loop predicted keys (or_else own last_predicted))

  unfoldable pub build_predicted_series : QuarterMap F → QuarterStart → ℕ → BuiltSeries F
  build_predicted_series predicted series_start num_quarters =
      let keys = series_keys num_quarters series_start.start in
      series_loop predicted keys (first_predicted predicted keys)
