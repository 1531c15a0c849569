-- ===== src/Query/Examples.antt =====
-- Requests against the validators.
use spot_price.Prelude.{arith, ◌*◌, none, some, [], ◌∷◌, ◌≡◌, refl, ok, err}
use spot_price.Prelude.Int.{ℤ, pos, ◌+ℤ◌, ◌-ℤ◌, ◌*ℤ◌, div_euclid, rem_euclid, div_trunc}
use spot_price.Prelude.Text.{codes, decimal, decimal_digits}
use spot_price.Float.Halves.{
  Num, fin, halves, halves_conversions, halves-IsOrdered, halves-IsConverted,
}
use spot_price.Jiff.Nanos.{gregorian, fixed_offsets, fixed_zones, FixedZone}
use spot_price.Js.Numerals.{
  is_js_whitespace, js_trim, is_decimal_literal, string_to_number, compare_utf16, days_from_civil,
  number_of_utf16_slice, date_utc,
}
use spot_price.Query.{
  Field, IssueKind, issue, CheapestQueryInput, SettingsUpdateInput, ValidationError,
}
use spot_price.Areas.{from_str, code}
use spot_price.Query.Messages.{error_text, kind_text}
use spot_price.Query.Numbers.{number_issues, integer_issues, small_integer}
use spot_price.Query.Dates.{two_digits, parse_iso_date, parse_query_instant}
use spot_price.Query.Validators.{
  parse_cheapest_query, parse_history_query, inclusive_day_span, validate_settings_update,
}
use spot_price.Query.Reports.{IsReported}
use spot_price.Query.Accepted.{
  IsCheapestQuery, IsSettingsUpdate, parse_cheapest_query-IsReported,
  validate_settings_update-IsReported,
}
use spot_price.Query.Order.{InFieldOrder, parse_cheapest_query-InFieldOrder}
use spot_price.Query.Ordered.{IsCalendar}
use spot_price.Query.Ranges.{IsHistoryQuery, parse_history_query-IsReported}

test-parse_query_instant :
    parse_query_instant {T = ℤ} (codes "1970-01-02T00:00:01.5 01:00")
    ≡ some (pos (82_801_500 * 1_000_000))
unfolding parse_query_instant parse_iso_date two_digits ◌+ℤ◌ ◌-ℤ◌ ◌*ℤ◌ days_from_civil div_euclid
    div_trunc
test-parse_query_instant = refl

abbrev one_hour : CheapestQueryInput
one_hour = record {
  duration = some (codes " 60 ");
  start_time = none;
  end_time = none;
  max_price = some (codes "5");
}

test-parse_cheapest_query :
    parse_cheapest_query {T = ℤ} {F = Num} one_hour
    ≡ ok (record {
      duration_minutes = 60;
      start_time = none;
      end_time = none;
      max_price = some (fin (pos 10));
    })
unfolding parse_cheapest_query string_to_number js_trim is_js_whitespace is_decimal_literal
    integer_issues number_issues small_integer ◌+ℤ◌ ◌-ℤ◌ ◌*ℤ◌ div_euclid div_trunc rem_euclid
test-parse_cheapest_query = refl

parse_cheapest_query-IsReported_example :
    IsReported (IsCheapestQuery {T = ℤ} {F = Num}) (parse_cheapest_query one_hour)
parse_cheapest_query-IsReported_example =
    parse_cheapest_query-IsReported ℤ halves-IsOrdered halves-IsConverted one_hour

abbrev faulty : CheapestQueryInput
faulty = record {
  duration = none;
  start_time = some (codes "soon");
  end_time = none;
  max_price = some (codes " ");
}

abbrev faults : ValidationError
faults = record {
  issues =
      issue Field.duration IssueKind.not_a_number
      ∷ issue Field.start_time IssueKind.invalid_date_time
      ∷ issue Field.max_price IssueKind.max_price_empty
      ∷ [];
}

test-faulty : parse_cheapest_query {T = ℤ} {F = Num} faulty ≡ err faults
unfolding parse_cheapest_query string_to_number js_trim is_js_whitespace is_decimal_literal
    integer_issues number_issues small_integer parse_query_instant parse_iso_date ◌*ℤ◌
test-faulty = refl

parse_cheapest_query-InFieldOrder_example : InFieldOrder 0 faults.issues
unfolding parse_cheapest_query string_to_number js_trim is_js_whitespace is_decimal_literal
    integer_issues number_issues small_integer parse_query_instant parse_iso_date ◌*ℤ◌
parse_cheapest_query-InFieldOrder_example =
    parse_cheapest_query-InFieldOrder ℤ {F = Num} faulty faults refl

test-error_text :
    error_text (record {
      issues =
          issue Field.duration (IssueKind.too_big 1440)
          ∷ issue Field.to IssueKind.invalid_date
          ∷ [];
    })
    ≡ codes "duration: Too big: expected number to be <=1440; to: Invalid ISO date"
unfolding kind_text decimal decimal_digits
test-error_text = refl

abbrev no_update : SettingsUpdateInput Num
no_update = record {
  margin_cents_kwh = none;
  transfer_day_cents_kwh = none;
  transfer_night_cents_kwh = none;
  tax_cents_kwh = none;
  vat_percent = none;
  night_start_hour = none;
  night_end_hour = none;
  timezone = none;
  area = none;
}

abbrev valid_update : SettingsUpdateInput Num
valid_update = record no_update {
  vat_percent = some (fin (pos 51));
  night_start_hour = some (fin (pos 44));
  timezone = some "Europe/Helsinki";
}

validate_settings_update-IsReported_example :
    IsReported (IsSettingsUpdate {F = Num} {Z = FixedZone}) (validate_settings_update valid_update)
validate_settings_update-IsReported_example =
    validate_settings_update-IsReported FixedZone halves-IsOrdered halves-IsConverted valid_update

abbrev faulty_update : SettingsUpdateInput Num
faulty_update = record no_update {
  vat_percent = some (fin (pos 202));
  night_end_hour = some (fin (pos 47));
  area = some "XX";
}

abbrev update_faults : ValidationError
update_faults = record {
  issues =
      issue Field.vat_percent (IssueKind.too_big 100)
      ∷ issue Field.night_end_hour IssueKind.not_an_integer
      ∷ issue Field.area IssueKind.unknown_area
      ∷ [];
}

test-faulty_update :
    validate_settings_update {F = Num} {Z = FixedZone} faulty_update ≡ err update_faults
unfolding validate_settings_update integer_issues number_issues small_integer from_str code ◌*ℤ◌
    rem_euclid
test-faulty_update = refl

gregorian-IsCalendar : IsCalendar ⦃c = gregorian⦄
gregorian-IsCalendar = record { date-eq = λ year month day found e. ground (arith, e) }

parse_history_query-IsReported_example :
    IsReported
      (IsHistoryQuery Num (some (codes "2026-01-01")) (some (codes "2026-01-31")))
      (parse_history_query Num (some (codes "2026-01-01")) (some (codes "2026-01-31")))
parse_history_query-IsReported_example =
    parse_history_query-IsReported Num gregorian-IsCalendar (some (codes "2026-01-01"))
      (some (codes "2026-01-31"))

-- The day count puts the year 0 in 1900: a range of 101 years is accepted.
test-history_of_years :
    parse_history_query Num (some (codes "0000-01-01")) (some (codes "0100-12-31"))
    ≡ ok (record {
      from = record { year = pos 0; month = 1; day = 1 };
      to = record { year = pos 100; month = 12; day = 31 };
    })
unfolding parse_history_query parse_iso_date two_digits compare_utf16 inclusive_day_span
    number_of_utf16_slice date_utc days_from_civil string_to_number js_trim is_js_whitespace
    is_decimal_literal ◌+ℤ◌ ◌-ℤ◌ ◌*ℤ◌ div_euclid div_trunc rem_euclid
test-history_of_years = refl

-- The order check can name `from` behind an issue of `to`.
test-parse_history_query :
    parse_history_query Num (some (codes "2026-01-02")) (some (codes "2026-01-00"))
    ≡ err (record {
      issues =
          issue Field.to IssueKind.invalid_date ∷ issue Field.from IssueKind.from_after_to ∷ [];
    })
unfolding parse_history_query parse_iso_date two_digits compare_utf16 inclusive_day_span
    number_of_utf16_slice date_utc days_from_civil string_to_number js_trim is_js_whitespace
    is_decimal_literal ◌+ℤ◌ ◌-ℤ◌ ◌*ℤ◌ div_euclid div_trunc rem_euclid
test-parse_history_query = refl
