-- ===== src/Forecast/Route.antt =====
-- `crates/domain/src/forecast/route.rs`: the window of the forecast and its degraded state.
use spot_price.Prelude.{
  ℕ, ◌*◌, Bool, true, false, not, ◌&&◌, String, Option, none, some, List, ltb, if◌then◌else◌,
}
use spot_price.Prelude.Int.{pos, ◌-ℤ◌}
use spot_price.Js.Numerals.{is_empty}
use spot_price.Jiff.{Instant}

infixl 5 ◌>>=◌
abbrev ◌>>=◌ {ℓ κ} : {A : Type ℓ} {B : Type κ} → Option A → (A → Option B) → Option B
none >>= f = none
some a >>= f = f a

abbrev pub reason_fit_default : String
reason_fit_default = "Insufficient price history to fit the model; using a default estimate"

abbrev pub reason_zero_seeded : String
reason_zero_seeded = "Some quarters had no input data and were zero-seeded"

-- Days, hours and minutes in nanoseconds.
abbrev pub minute_ns : ℕ
minute_ns = 60_000_000_000

abbrev pub forecast_days : ℕ
forecast_days = 3

abbrev pub floor_history_days : ℕ
floor_history_days = 30

abbrev pub hours_ns : ℕ → ℕ
hours_ns hours = hours * (60 * minute_ns)

-- The instants that bound the reads and the predicted series.
pub record ForecastWindow (T : Type 0) : Type 0 where
  pub series_start : T
  pub series_end : T
  pub history_start : T

module _ {T : Type 0} ⦃i : Instant T⦄ where
  open i use {checked_add}

  abbrev series_start_of : Option T → T → Option T
  series_start_of none now = some now
  series_start_of (some last) now = checked_add last (pos (15 * minute_ns))

  -- `ForecastWindow::new`; `none` is `OutOfRange`.
  unfoldable pub forecast_window : Option T → T → Option (ForecastWindow T)
  forecast_window last_published now = do
    start ← series_start_of last_published now
    end ← checked_add start (pos (hours_ns (forecast_days * 24)))
    history ← checked_add start (pos 0 -ℤ pos (hours_ns (floor_history_days * 24)))
    some (record { series_start = start; series_end = end; history_start = history })

pub data Confidence : Type 0 where
  normal : Confidence
  low : Confidence

-- `Confidence::as_str`.
abbrev pub confidence_text : Confidence → String
confidence_text normal = "normal"
confidence_text low = "low"

-- The degraded state of a forecast.
pub record Assessment : Type 0 where
  pub degraded : Bool
  pub confidence : Confidence
  pub reason : Option String

-- `assess`, by the two fields of the diagnostics that it reads.
unfoldable pub assess : Bool → ℕ → Assessment
assess fit_used_default zero_seeded_quarters =
    if fit_used_default
    then record { degraded = true; confidence = low; reason = some reason_fit_default }
    else if ltb 0 zero_seeded_quarters
    then record { degraded = true; confidence = low; reason = some reason_zero_seeded }
    else record { degraded = false; confidence = normal; reason = none }

-- `has_grid_data`, by the four inputs that it reads.
unfoldable pub has_grid_data {ℓ} : {A : Type ℓ} → List A → List A → List A → List A → Bool
has_grid_data wind_forecast wind_actual consumption_forecast consumption_actual = not (
    is_empty wind_forecast
    && is_empty wind_actual
    && is_empty consumption_forecast
    && is_empty consumption_actual)
