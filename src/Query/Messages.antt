-- ===== src/Query/Messages.antt =====
-- The texts of `crates/domain/src/query.rs`: the wire names of the fields, and the `Display` of the
-- issues and of the error.
use spot_price.Prelude.{String, List, [], ◌∷◌, ◌++◌, map}
use spot_price.Prelude.Text.{Text, codes, decimal}
use spot_price.Areas.{all_areas, code, supported_timezones}
use spot_price.Query.{Field, IssueKind, Issue, ValidationError}

abbrev pub field_name : Field → String
field_name Field.duration = "duration"
field_name Field.start_time = "startTime"
field_name Field.end_time = "endTime"
field_name Field.max_price = "maxPrice"
field_name Field.from = "from"
field_name Field.to = "to"
field_name Field.margin_cents_kwh = "marginCentsKwh"
field_name Field.transfer_day_cents_kwh = "transferDayCentsKwh"
field_name Field.transfer_night_cents_kwh = "transferNightCentsKwh"
field_name Field.tax_cents_kwh = "taxCentsKwh"
field_name Field.vat_percent = "vatPercent"
field_name Field.night_start_hour = "nightStartHour"
field_name Field.night_end_hour = "nightEndHour"
field_name Field.timezone = "timezone"
field_name Field.area = "area"

-- The options in quotes, with a bar between two.
abbrev quoted : List String → Text
quoted [] = []
quoted (option ∷ []) = b'"' ∷ (codes option ++ (b'"' ∷ []))
quoted (option ∷ next ∷ options) = b'"' ∷ (codes option ++ (b'"' ∷ b'|' ∷ quoted (next ∷ options)))

abbrev write_options : List String → Text
write_options options = codes "Invalid option: expected one of " ++ quoted options

unfoldable pub kind_text : IssueKind → Text
unfolding decimal
kind_text IssueKind.missing = codes "Invalid input: expected string, received undefined"
kind_text IssueKind.not_a_number = codes "Invalid input: expected number, received NaN"
kind_text IssueKind.not_finite = codes "Invalid input: expected number, received number"
kind_text IssueKind.not_an_integer = codes "Invalid input: expected int, received number"
kind_text IssueKind.above_safe_integer = codes "Too big: expected int to be <=9007199254740991"
kind_text IssueKind.below_safe_integer = codes "Too small: expected int to be >=-9007199254740991"
kind_text (IssueKind.too_small n) = codes "Too small: expected number to be >=" ++ decimal n
kind_text (IssueKind.too_big n) = codes "Too big: expected number to be <=" ++ decimal n
kind_text IssueKind.invalid_date_time = codes "Invalid ISO datetime"
kind_text IssueKind.invalid_date = codes "Invalid ISO date"
kind_text IssueKind.max_price_empty = codes "maxPrice is required when provided"
kind_text IssueKind.max_price_not_finite = codes "maxPrice must be a valid number"
kind_text IssueKind.from_after_to = codes "from must be on or before to"
kind_text IssueKind.span_too_long = codes "date range must not exceed 31 days"
kind_text IssueKind.unknown_timezone = write_options supported_timezones
kind_text IssueKind.unknown_area = write_options (map code all_areas)

abbrev pub issue_text : Issue → Text
issue_text i = codes (field_name i.field) ++ (codes ": " ++ kind_text i.kind)

abbrev joined : List Issue → Text
joined [] = []
joined (i ∷ []) = issue_text i
joined (i ∷ next ∷ issues) = issue_text i ++ (codes "; " ++ joined (next ∷ issues))

-- The text of the 400 response.
abbrev pub error_text : ValidationError → Text
error_text error = joined error.issues
