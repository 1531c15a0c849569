-- ===== src/Forecast/Series/Examples.antt =====
-- Runs of the series helpers.
use spot_price.Prelude.{
  none, ℕ, ◌*◌, true, some, List, [], ◌∷◌, ◌++◌, length, All, or_else, ok, if◌then◌else◌, ◌≡◌, refl,
  arith,
}
use spot_price.Prelude.Int.{
  ℤ, pos, negsuc, ◌+ℤ◌, ◌-ℤ◌, ◌*ℤ◌, div_euclid, rem_euclid, saturate, div_trunc,
}
use spot_price.Float.{◌≼◌}
use spot_price.Float.Halves.{Num, fin, inf, halves, halves-IsOrdered, halves-IsSigned}
use spot_price.Jiff.Nanos.{
  nanos, gregorian, FixedZone, fixed_zoned, fixed_weekdays, fixed_ambiguity,
}
use spot_price.Forecast.Quarter.{
  QuarterStart, QuarterMap, quarter_from_millisecond, quarter_offset, quarter_floor, get_quarter,
  utc_day_start_ms,
}
use spot_price.Forecast.Numbers.{js_min}
use spot_price.Forecast.Series.Buckets.{
  GridRecord, is_some, bucket_records, expand_hourly_to_quarters,
}
use spot_price.Forecast.Series.Buckets.Hours.{top_of_hour}
use spot_price.Forecast.Series.Buckets.Records.{get_quarter-expand}
use spot_price.Forecast.Series.Gaps.{extend_with_last_week, fill_gaps_from_earlier_weeks, cursors}
use spot_price.Forecast.Series.Gaps.Equal.{fill_gaps-extend}
use spot_price.Forecast.Series.Fit.{fit_linear}
use spot_price.Forecast.Series.Profile.{previous_published_day, weekday_mean, profile_values}
use spot_price.Forecast.Series.Profile.Memo.{plain_values, profile_values-plain}
use spot_price.Forecast.Series.Shape.{apply_within_day_shape_with, shape_with, keys, day_of}
use spot_price.Forecast.Series.Shape.Fallback.{without_price}
use spot_price.Forecast.Series.Shape.Levels.{shape_level, apply_within_day_shape_lem}
use spot_price.Forecast.Series.Sanity.{SanityBound, sanity_bound_from_history}
use spot_price.Forecast.Series.Sanity.Range.{sanity_bound_from_history-holds}
use spot_price.Forecast.Series.Predicted.{build_predicted_series, series_keys, first_predicted}
use spot_price.Forecast.Series.Predicted.Carried.{
  get_elem?, last_predicted, plain_point, build_predicted_series_lem,
}

abbrev at : ℕ → QuarterStart
at n = record { start = pos (n * 900_000) }

-- one hourly value, and a later one at a quarter past an hour
abbrev hourly : List (GridRecord ℤ Num)
hourly =
    record { start = pos 0; value = fin (pos 4) }
    ∷ record { start = pos 4_500_000_000_000; value = fin (pos 6) }
    ∷ record { start = pos 1; value = fin (pos 8) }
    ∷ record { start = pos 2; value = inf }
    ∷ []

test-expand :
    expand_hourly_to_quarters hourly
    ≡ (at 0, fin (pos 6))
      ∷ (at 1, fin (pos 6))
      ∷ (at 2, fin (pos 6))
      ∷ (at 3, fin (pos 6))
      ∷ (at 5, fin (pos 6))
      ∷ []
unfolding expand_hourly_to_quarters bucket_records quarter_floor quarter_offset
    quarter_from_millisecond saturate rem_euclid ◌-ℤ◌ ◌+ℤ◌ ◌*ℤ◌ div_euclid div_trunc
test-expand = refl

get_quarter-expand_example :
    get_quarter (at 2) (expand_hourly_to_quarters hourly)
    ≡ or_else
        (get_quarter (at 2) (bucket_records hourly))
        (get_quarter (top_of_hour (at 2)) (bucket_records hourly))
unfolding rem_euclid div_trunc
get_quarter-expand_example = get_quarter-expand hourly (at 2) (ground arith) (ground arith)

-- a price at the start of each of the first two weeks, and a forecast that ends before the third
abbrev past : QuarterMap Num
past = (at 0, fin (pos 2)) ∷ (at 672, fin (pos 6)) ∷ []

abbrev forecast : QuarterMap Num
forecast = (at 1343, fin (pos 9)) ∷ []

test-extend :
    extend_with_last_week forecast past (pos 1_210_500_000) 2
    ≡ (at 1343, fin (pos 9)) ∷ (at 1344, fin (pos 4)) ∷ []
unfolding extend_with_last_week cursors quarter_from_millisecond saturate rem_euclid ◌-ℤ◌ ◌+ℤ◌ ◌*ℤ◌
    div_euclid
test-extend = refl

fill_gaps-extend_example :
    get_quarter (at 1344) (fill_gaps_from_earlier_weeks [] past (pos 1_210_500_000) 2)
    ≡ get_quarter (at 1344) (extend_with_last_week forecast past (pos 1_210_500_000) 2)
unfolding rem_euclid ◌+ℤ◌ quarter_from_millisecond ◌-ℤ◌ saturate
fill_gaps-extend_example =
    fill_gaps-extend [] forecast past (at 0) (at 1343) (at 1344) (pos 1_210_500_000) 2
      (ground arith) (ground arith) refl refl refl refl (refl, (refl, tt))

-- the profile of the day before, in a zone two hours east of UTC
abbrev zone : FixedZone
zone = record { offset = pos 7200 }

profile_values-plain_example :
    profile_values ℤ (previous_published_day zone) (at 0 ∷ at 1 ∷ []) past
    ≡ plain_values ℤ past
        (previous_published_day zone)
        (at 0 ∷ at 1 ∷ [])
        (record { values = []; missing = 0; dst_gap = 0 })
profile_values-plain_example =
    profile_values-plain ℤ past (previous_published_day zone) (at 0 ∷ at 1 ∷ [])

test-shape :
    (shape_with ((at 0, fin (pos 4)) ∷ (at 1, fin (pos 8)) ∷ []) ((at 0, fin (pos 10)) ∷ [])).result
    ≡ (at 0, fin (pos 6)) ∷ (at 1, fin (pos 6)) ∷ []
unfolding shape_with day_of utc_day_start_ms ◌-ℤ◌ ◌+ℤ◌ ◌*ℤ◌ div_euclid
test-shape = refl

apply_within_day_shape_lem_example :
    ((q : QuarterStart)
      → get_quarter q (apply_within_day_shape_with ℤ forecast past (weekday_mean zone 1)).result ≡ (
          if is_some (get_quarter q forecast)
          then some (
              shape_level
                (profile_values ℤ (weekday_mean zone 1) (keys forecast) past).values
                forecast
                q)
          else none))
    × ((apply_within_day_shape_with ℤ forecast past (weekday_mean zone 1)).shape_fallback_quarters
        ≡ length (
            without_price
              (profile_values ℤ (weekday_mean zone 1) (keys forecast) past).values
              forecast))
apply_within_day_shape_lem_example =
    apply_within_day_shape_lem ℤ forecast past (weekday_mean zone 1)

test-fit_linear :
    fit_linear (fin (pos 0) ∷ fin (pos 4) ∷ []) (fin (pos 4) ∷ fin (pos 12) ∷ [])
    ≡ ok (record { slope = fin (pos 4); intercept = fin (pos 4) })
unfolding fit_linear ◌-ℤ◌ ◌+ℤ◌ ◌*ℤ◌ div_euclid
test-fit_linear = refl

-- the range of 1 to 3, widened by three times its width
abbrev clamp : SanityBound Num
clamp = record { min = fin (negsuc 99); max = fin (pos 18) }

test-sanity_bound_from_history : sanity_bound_from_history past ≡ some clamp
unfolding sanity_bound_from_history js_min ◌-ℤ◌ ◌+ℤ◌ ◌*ℤ◌ div_euclid
test-sanity_bound_from_history = refl

sanity_bound_from_history-holds_example :
    All (λ e. halves.is_finite e.1 ≡ true → (clamp.min ≼ e.1) × (e.1 ≼ clamp.max)) past
sanity_bound_from_history-holds_example =
    sanity_bound_from_history-holds halves-IsOrdered halves-IsSigned past clamp
      test-sanity_bound_from_history

build_predicted_series_lem_example :
    (length (build_predicted_series past (at 670) 4).series ≡ 4)
    × ((before after : List QuarterStart) (k : QuarterStart)
        → series_keys 4 (pos 603_000_000) ≡ before ++ (k ∷ after)
        → get_elem? (build_predicted_series past (at 670) 4).series (length before)
          ≡ some (
              plain_point past k (
                or_else
                  (last_predicted past (before ++ (k ∷ [])))
                  (first_predicted past (series_keys 4 (pos 603_000_000))))))
    × ((build_predicted_series past (at 670) 4).zero_seeded_quarters
        ≡ (if is_some (first_predicted past (series_keys 4 (pos 603_000_000))) then 0 else 4))
build_predicted_series_lem_example = build_predicted_series_lem past (at 670) 4
