-- ===== src/Query/Validators.antt =====
-- The validators of `crates/domain/src/query.rs`.
use Prim.Native.Nat.{Ordering}
use spot_price.Prelude.{
  ℕ, String, Bool, Option, none, some, List, [], ◌∷◌, ◌++◌, if◌then◌else◌, leb, Result, ok, err,
  ok_or,
}
use spot_price.Prelude.Text.{Text}
use spot_price.Float.{Double, Conversions, number}
use spot_price.Jiff.{Date, Calendar, Offsets, ZoneDatabase}
use spot_price.Areas.{Area, from_str}
use spot_price.Time.{UserTimeZone, parse_zone}
use spot_price.Settings.{Hour, SettingsUpdate, new_hour}
use spot_price.Js.Numerals.{
  js_trim, is_empty, string_to_number, compare_utf16, number_of_utf16_slice, date_utc,
}
use spot_price.Query.{
  Field, IssueKind, Issue, issue, ValidationError, CheapestQueryInput, CheapestQuery, HistoryQuery,
  SettingsUpdateInput, min_window_minutes, max_window_minutes, max_history_span_days,
}
use spot_price.Query.Numbers.{number_issues, integer_issues, small_integer}
use spot_price.Query.Dates.{parse_iso_date, parse_query_instant}

infixl 5 ◌>>=◌
abbrev pub ◌>>=◌ {ℓ κ} : {A : Type ℓ} {B : Type κ} → Option A → (A → Option B) → Option B
none >>= f = none
some a >>= f = f a

abbrev pub finish : {A : Type 0} → List Issue → Option A → Result A ValidationError
finish [] value = ok_or (record { issues = [] }) value
finish (i ∷ issues) value = err (record { issues = i ∷ issues })

-- `Option<Result<_, _>>::transpose().ok()`.
abbrev pub transposed : {A E : Type 0} → Option (Result A E) → Option (Option A)
transposed none = some none
transposed (some (ok a)) = some (some a)
transposed (some (err e)) = none

-- The issue of a value that was given and refused.
abbrev pub refused : {A E : Type 0} → Field → (E → IssueKind) → Option (Result A E) → List Issue
refused field kind none = []
refused field kind (some (ok a)) = []
refused field kind (some (err e)) = issue field (kind e) ∷ []

module _ {T : Type 0} ⦃c : Calendar⦄ ⦃o : Offsets T⦄ where
  -- The closure `instant`: the value of a parameter, and its issue.
  abbrev pub instant : Field → Option Text → Option T × List Issue
  instant field none = (none, [])
  instant field (some text) = elim (parse_query_instant text) [
    | none ↦ (none, issue field IssueKind.invalid_date_time ∷ [])
    | some t ↦ (some t, [])
  ]

module _ {F : Type 0} ⦃d : Double F⦄ ⦃v : Conversions F⦄ where
  abbrev pub checked_max_price : Option Text → Option (Result F IssueKind)
  checked_max_price none = none
  checked_max_price (some given) =
      let text = js_trim given in
      let value = string_to_number text in
      some (
        if is_empty text
        then err IssueKind.max_price_empty
        else if d.is_finite value
        then ok value
        else err IssueKind.max_price_not_finite)

  abbrev pub duration_value : Option Text → F
  duration_value none = d.nan
  duration_value (some text) = string_to_number text

module _ {T F : Type 0} ⦃d : Double F⦄ ⦃v : Conversions F⦄ ⦃c : Calendar⦄ ⦃o : Offsets T⦄ where
  unfoldable pub parse_cheapest_query :
      CheapestQueryInput → Result (CheapestQuery T F) ValidationError
  unfolding parse_query_instant string_to_number js_trim integer_issues small_integer
  parse_cheapest_query input =
      let duration : F = duration_value input.duration in
      let start : Option T × List Issue = instant Field.start_time input.start_time in
      let end : Option T × List Issue = instant Field.end_time input.end_time in
      let max_price : Option (Result F IssueKind) = checked_max_price input.max_price in
      let issues =
        integer_issues Field.duration duration min_window_minutes max_window_minutes
        ++ (start.1 ++ (end.1 ++ refused Field.max_price (λ kind. kind) max_price)) in
      finish issues (do
        minutes ← small_integer duration
        price ← transposed max_price
        some (record {
          duration_minutes = minutes;
          start_time = start.0;
          end_time = end.0;
          max_price = price;
        }))

abbrev pub dated : Field → Option Date → Option Date × List Issue
dated field none = (none, issue field IssueKind.invalid_date ∷ [])
dated field (some found) = (some found, [])

module _ ⦃c : Calendar⦄ where
  -- The closure `date`: the value of a parameter, and its issue.
  abbrev pub date : Field → Option Text → Option Date × List Issue
  date field none = (none, issue field IssueKind.missing ∷ [])
  date field (some text) = dated field (parse_iso_date text)

abbrev pub order_issues : Ordering → List Issue
order_issues Ordering.gt = issue Field.from IssueKind.from_after_to ∷ []
order_issues Ordering.lt = []
order_issues Ordering.eq = []

abbrev pub span_issues : Bool → List Issue
span_issues within = if within then [] else issue Field.to IssueKind.span_too_long ∷ []

module _ (F : Type 0) ⦃d : Double F⦄ ⦃v : Conversions F⦄ where
  -- The day of a text by the positions of its parts.
  abbrev pub day : Text → F
  day text =
      date_utc (number_of_utf16_slice text 0 4) (d.sub (number_of_utf16_slice text 5 7) (number 1))
        (number_of_utf16_slice text 8 10)

  unfoldable pub inclusive_day_span : Text → Text → F
  unfolding number_of_utf16_slice date_utc
  inclusive_day_span from to =
      d.add (d.div (d.sub (day to) (day from)) (number 86_400_000)) (number 1)

  -- The checks of the order and of the span, when both values are present.
  abbrev pub range_issues : Option Text → Option Text → List Issue
  range_issues none to = []
  range_issues (some from) none = []
  range_issues (some from) (some to) =
      let within = d.le (inclusive_day_span from to) (number max_history_span_days) in
      order_issues (compare_utf16 from to) ++ span_issues within

  unfoldable pub parse_history_query :
      ⦃c : Calendar⦄ → Option Text → Option Text → Result HistoryQuery ValidationError
  unfolding parse_iso_date compare_utf16 inclusive_day_span
  parse_history_query from to =
      let from_date = date Field.from from in
      let to_date = date Field.to to in
      finish (from_date.1 ++ (to_date.1 ++ range_issues from to))
        (do start ← from_date.0; end ← to_date.0; some (record { from = start; to = end }))

module _ {F : Type 0} ⦃d : Double F⦄ where
  -- The closure `money`.
  abbrev pub money : Field → Option ℕ → Option F → List Issue
  money field max none = []
  money field max (some value) = number_issues field value 0 max

-- The hour of an integer without issues.
abbrev pub judged : Option Hour → List Issue → Option (Result Hour Unit) × List Issue
judged found [] = (some (ok_or tt found), [])
judged found (i ∷ issues) = (some (err tt), i ∷ issues)

-- `u8::try_from`, then `Hour::new`.
abbrev pub byte_hour : ℕ → Option Hour
byte_hour n = if leb n 255 then new_hour n else none

module _ {F : Type 0} ⦃d : Double F⦄ ⦃v : Conversions F⦄ where
  -- The closure `hour`.
  abbrev pub hour : Field → Option F → Option (Result Hour Unit) × List Issue
  hour field none = (none, [])
  hour field (some value) =
      judged (small_integer value >>= byte_hour) (integer_issues field value 0 23)

abbrev pub checked_area : Option String → Option (Result Area Unit)
checked_area none = none
checked_area (some code) = some (ok_or tt (from_str code))

module _ {Z : Type 0} ⦃z : ZoneDatabase Z⦄ where
  abbrev pub checked_timezone : Option String → Option (Result (UserTimeZone Z) Unit)
  checked_timezone none = none
  checked_timezone (some name) = some (ok_or tt (parse_zone name))

module _ {F Z : Type 0} ⦃d : Double F⦄ ⦃v : Conversions F⦄ ⦃z : ZoneDatabase Z⦄ where
  unfoldable pub validate_settings_update :
      SettingsUpdateInput F → Result (SettingsUpdate F Z) ValidationError
  unfolding number_issues integer_issues small_integer new_hour parse_zone from_str
  validate_settings_update input =
      let night_start = hour Field.night_start_hour input.night_start_hour in
      let night_end = hour Field.night_end_hour input.night_end_hour in
      let zone = checked_timezone input.timezone in
      let area = checked_area input.area in
      let issues =
        money Field.margin_cents_kwh none input.margin_cents_kwh
        ++ (money Field.transfer_day_cents_kwh none input.transfer_day_cents_kwh
            ++ (money Field.transfer_night_cents_kwh none input.transfer_night_cents_kwh
                ++ (money Field.tax_cents_kwh none input.tax_cents_kwh
                    ++ (money Field.vat_percent (some 100) input.vat_percent
                        ++ (night_start.1
                            ++ (night_end.1
                                ++ (refused Field.timezone (λ e. IssueKind.unknown_timezone) zone
                                    ++ refused Field.area (λ e. IssueKind.unknown_area)
                                        area))))))) in
      finish issues (do
        start ← transposed night_start.0
        end ← transposed night_end.0
        zone' ← transposed zone
        area' ← transposed area
        some (record {
          margin_cents_kwh = input.margin_cents_kwh;
          transfer_day_cents_kwh = input.transfer_day_cents_kwh;
          transfer_night_cents_kwh = input.transfer_night_cents_kwh;
          tax_cents_kwh = input.tax_cents_kwh;
          vat_percent = input.vat_percent;
          night_start_hour = start;
          night_end_hour = end;
          timezone = zone';
          area = area';
        }))
