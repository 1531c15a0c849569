-- ===== src/Forecast/Examples.antt =====
-- Runs of the forecast's keys, window and calendar.
use spot_price.Prelude.{true, false, ℕ, some, List, [], ◌∷◌, map, ◌≡◌, refl}
use spot_price.Prelude.Int.{
  ℤ, pos, negsuc, ◌+ℤ◌, ◌-ℤ◌, ◌*ℤ◌, div_euclid, rem_euclid, div_trunc, rem_trunc, saturate,
}
use spot_price.Jiff.Nanos.{nanos, gregorian}
use spot_price.Forecast.Quarter.{
  QuarterStart, quarter_from_millisecond, quarter_map, get_quarter, utc_hour, utc_weekday,
}
use spot_price.Forecast.Quarter.Points.{IsAscending, last_value, quarter_map_lem}
use spot_price.Forecast.Route.{ForecastWindow, forecast_window}
use spot_price.Forecast.Cache.{Snapshot, data_as_of, is_stale, first_stale_serve, serve_all}
use spot_price.Forecast.Holiday.{easter_month_day}
use spot_price.Forecast.Holiday.Easter.{IsEasterDate, easter_month_day-IsEasterDate}

-- A millisecond before 1970 belongs to the last quarter of a Wednesday.
test_before_epoch : quarter_from_millisecond (negsuc 0) ≡ record { start = negsuc 899_999 }
unfolding quarter_from_millisecond saturate ◌-ℤ◌ rem_euclid
test_before_epoch = refl

test-utc_weekday : utc_weekday (record { start = negsuc 899_999 }) ≡ 3
unfolding utc_weekday ◌+ℤ◌ div_euclid rem_euclid
test-utc_weekday = refl

test-utc_hour : utc_hour (record { start = negsuc 899_999 }) ≡ 23
unfolding utc_hour rem_euclid
test-utc_hour = refl

-- two points of the first quarter behind one of the second
abbrev some_points : List (ℤ × ℕ)
some_points = (pos 900_000_000_000, 1) ∷ (pos 5_000_000, 2) ∷ (pos 7_000_000, 3) ∷ []

quarter_map_lem_example :
    IsAscending (quarter_map some_points)
    × ((quarter : QuarterStart)
        → get_quarter quarter (quarter_map some_points) ≡ last_value quarter some_points)
quarter_map_lem_example = quarter_map_lem some_points

abbrev window : ForecastWindow ℤ
window = record {
  series_start = pos 900_000_000_000;
  series_end = pos 260_100_000_000_000;
  history_start = negsuc 2_591_099_999_999_999;
}

test-forecast_window : forecast_window (some (pos 0)) (pos 7) ≡ some window
unfolding forecast_window ◌+ℤ◌ ◌-ℤ◌
test-forecast_window = refl

test-easter :
    map easter_month_day (pos 2000 ∷ pos 2024 ∷ pos 2026 ∷ pos 2038 ∷ [])
    ≡ (pos 4, pos 23) ∷ (pos 3, pos 31) ∷ (pos 4, pos 5) ∷ (pos 4, pos 25) ∷ []
unfolding easter_month_day ◌+ℤ◌ ◌-ℤ◌ ◌*ℤ◌ div_euclid rem_euclid div_trunc rem_trunc
test-easter = refl

easter_month_day-IsEasterDate_example : IsEasterDate (easter_month_day (pos 2026))
easter_month_day-IsEasterDate_example = easter_month_day-IsEasterDate (pos 2026)

-- issued at the epoch
abbrev snapshot : Snapshot ℤ Unit
snapshot = record {
  forecast = tt;
  generated_at = pos 0;
  grid_issued_at = some (pos 0);
  built_at = pos 0;
  stale_logged = false;
}

-- one serve after two hours exactly, and two later ones
abbrev serves : List ℤ
serves = pos 7_200_000_000_000 ∷ pos 7_200_000_000_001 ∷ pos 7_200_000_000_002 ∷ []

test-serve_all : serve_all snapshot serves ≡ false ∷ true ∷ false ∷ []
unfolding first_stale_serve is_stale ◌-ℤ◌
test-serve_all = refl

test-data_as_of : data_as_of (some (pos 3)) (some (pos 2)) (pos 9) ≡ pos 3
unfolding data_as_of
test-data_as_of = refl
