-- ===== src/Query.antt =====
-- `crates/domain/src/query.rs`: the checked inputs of the API, and what is wrong with an input.
pub mod Messages
pub mod Numbers
pub mod Dates
pub mod Validators
mod Bounds
mod Reports
mod Accepted
mod Ranges
mod Order
mod Ordered
mod Examples
use spot_price.Prelude.{ℕ, zero, suc, String, Option, List, [], ◌∷◌}
use spot_price.Prelude.Text.{Text}
use spot_price.Jiff.{Date}

-- The bounds of the duration of a cheapest window, in minutes, and of a range of days.
abbrev pub min_window_minutes : ℕ
min_window_minutes = 1

abbrev pub max_window_minutes : ℕ
max_window_minutes = 1440

abbrev pub max_history_span_days : ℕ
max_history_span_days = 31

abbrev pub max_safe_integer : ℕ
max_safe_integer = 9_007_199_254_740_991

-- The input field that an issue is about.
pub data Field : Type 0 where
  duration : Field
  start_time : Field
  end_time : Field
  max_price : Field
  from : Field
  to : Field
  margin_cents_kwh : Field
  transfer_day_cents_kwh : Field
  transfer_night_cents_kwh : Field
  tax_cents_kwh : Field
  vat_percent : Field
  night_start_hour : Field
  night_end_hour : Field
  timezone : Field
  area : Field

pub data IssueKind : Type 0 where
  missing : IssueKind
  not_a_number : IssueKind
  not_finite : IssueKind
  not_an_integer : IssueKind
  above_safe_integer : IssueKind
  below_safe_integer : IssueKind
  too_small : ℕ → IssueKind
  too_big : ℕ → IssueKind
  invalid_date_time : IssueKind
  invalid_date : IssueKind
  max_price_empty : IssueKind
  max_price_not_finite : IssueKind
  from_after_to : IssueKind
  span_too_long : IssueKind
  unknown_timezone : IssueKind
  unknown_area : IssueKind

pub record Issue : Type 0 where
  pub field : Field
  pub kind : IssueKind

abbrev pub issue : Field → IssueKind → Issue
issue field kind = record { field = field; kind = kind }

-- Every issue of one input.
pub record ValidationError : Type 0 where
  pub issues : List Issue

-- The raw query values of `GET /api/v1/price/cheapest`.
pub record CheapestQueryInput : Type 0 where
  pub duration : Option Text
  pub start_time : Option Text
  pub end_time : Option Text
  pub max_price : Option Text

-- A valid cheapest-window query.
pub record CheapestQuery (T F : Type 0) : Type 0 where
  pub duration_minutes : ℕ
  pub start_time : Option T
  pub end_time : Option T
  pub max_price : Option F

-- A valid inclusive range of local calendar days.
pub record HistoryQuery : Type 0 where
  pub from : Date
  pub to : Date

-- The values of a settings update body.
pub record SettingsUpdateInput (F : Type 0) : Type 0 where
  pub margin_cents_kwh : Option F
  pub transfer_day_cents_kwh : Option F
  pub transfer_night_cents_kwh : Option F
  pub tax_cents_kwh : Option F
  pub vat_percent : Option F
  pub night_start_hour : Option F
  pub night_end_hour : Option F
  pub timezone : Option String
  pub area : Option String
