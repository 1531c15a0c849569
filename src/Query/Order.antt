-- ===== src/Query/Order.antt =====
-- The order of the issues in an error.
use spot_price.Prelude.{
  ℕ, ◌≤◌, Option, none, some, List, [], ◌∷◌, ◌++◌, ◌≡◌, refl, arith, All, Result, ok, err, subst,
  sym, ap,
}
use spot_price.Prelude.Text.{Text}
use spot_price.Float.{Double, Conversions}
use spot_price.Jiff.{Calendar, Offsets, ZoneDatabase}
use spot_price.Query.{
  min_window_minutes, max_window_minutes, Field, IssueKind, Issue, ValidationError,
  CheapestQueryInput, SettingsUpdateInput,
}
use spot_price.Settings.{Hour}
use spot_price.Query.Numbers.{number_issues, integer_issues, above}
use spot_price.Query.Validators.{
  finish, refused, instant, money, hour, judged, parse_cheapest_query, validate_settings_update,
  checked_max_price, checked_area, checked_timezone, duration_value,
}

-- The position of a field in its declaration.
abbrev rank : Field → ℕ
rank Field.duration = 0
rank Field.start_time = 1
rank Field.end_time = 2
rank Field.max_price = 3
rank Field.from = 4
rank Field.to = 5
rank Field.margin_cents_kwh = 6
rank Field.transfer_day_cents_kwh = 7
rank Field.transfer_night_cents_kwh = 8
rank Field.tax_cents_kwh = 9
rank Field.vat_percent = 10
rank Field.night_start_hour = 11
rank Field.night_end_hour = 12
rank Field.timezone = 13
rank Field.area = 14

-- The fields of the issues follow their declaration, from a position on.
abbrev pub InFieldOrder : ℕ → List Issue → Type 0
InFieldOrder least [] = Unit
InFieldOrder least (i ∷ issues) = (least ≤ rank i.field) × InFieldOrder (rank i.field) issues

abbrev IsAbout : Field → List Issue → Type 0
IsAbout field issues = All (λ i. i.field ≡ field) issues

InFieldOrder-weaken :
    (a b : ℕ) (issues : List Issue) → a ≤ b → InFieldOrder b issues → InFieldOrder a issues
InFieldOrder-weaken a b [] h k = tt
InFieldOrder-weaken a b (i ∷ issues) h (low, k) = (omega arith, k)

-- The issues of one field come before those of later fields.
InFieldOrder-append :
    (field : Field) (issues rest : List Issue) (least : ℕ)
    → IsAbout field issues
    → least ≤ rank field
    → InFieldOrder (rank field) rest
    → InFieldOrder least (issues ++ rest)
InFieldOrder-append field [] rest least h low k = InFieldOrder-weaken least (rank field) rest low k
InFieldOrder-append field (i ∷ issues) rest least (e, h) low k =
    let same : rank field ≡ rank i.field = ap rank (sym e) in
    (
      omega (arith, same, low),
      InFieldOrder-append field issues rest (rank i.field) h (omega (arith, same)) k,
    )

append-IsAbout :
    (field : Field) (xs ys : List Issue)
    → IsAbout field xs
    → IsAbout field ys
    → IsAbout field (xs ++ ys)
append-IsAbout field [] ys h k = k
append-IsAbout field (x ∷ xs) ys (e, h) k = (e, append-IsAbout field xs ys h k)

refused-IsAbout :
    {A E : Type 0} (field : Field) (kind : E → IssueKind) (r : Option (Result A E))
    → IsAbout field (refused field kind r)
refused-IsAbout field kind none = tt
refused-IsAbout field kind (some (ok a)) = tt
refused-IsAbout field kind (some (err e)) = (refl, tt)

refused-InFieldOrder :
    {A E : Type 0} (field : Field) (kind : E → IssueKind) (r : Option (Result A E)) (least : ℕ)
    → least ≤ rank field
    → InFieldOrder least (refused field kind r)
refused-InFieldOrder field kind none least h = tt
refused-InFieldOrder field kind (some (ok a)) least h = tt
refused-InFieldOrder field kind (some (err e)) least h = (h, tt)

module _ {F : Type 0} ⦃d : Double F⦄ where
  above-IsAbout :
      (field : Field) (value : F) (max : Option ℕ) → IsAbout field (above field value max)
  above-IsAbout field value none = tt
  above-IsAbout field value (some max) = ground arith

  number_issues-IsAbout :
      (field : Field) (value : F) (min : ℕ) (max : Option ℕ)
      → IsAbout field (number_issues field value min max)
  unfolding number_issues
  number_issues-IsAbout field value min max =
      let rest = above-IsAbout field value max in ground (arith, rest)

  integer_issues-IsAbout :
      (field : Field) (value : F) (min max : ℕ) → IsAbout field (integer_issues field value min max)
  unfolding integer_issues
  integer_issues-IsAbout field value min max =
      let numbers = number_issues-IsAbout field value min (some max) in ground (arith, numbers)

finish-err :
    {A : Type 0} (least : ℕ) (issues : List Issue) (value : Option A) (e : ValidationError)
    → InFieldOrder least issues
    → finish issues value ≡ err e
    → InFieldOrder least e.issues
finish-err least [] none e h k = ground (arith, k)
finish-err least [] (some a) e h k = ground (arith, k)
finish-err {A} least (i ∷ issues) value e h k =
    let same : record { issues = i ∷ issues } ≡ e = ground (arith, k) in
    subst (λ x. InFieldOrder least x.issues) same h

money-IsAbout :
    {F : Type 0} ⦃d : Double F⦄ (field : Field) (max : Option ℕ) (value : Option F)
    → IsAbout field (money field max value)
money-IsAbout field max none = tt
money-IsAbout field max (some value) = number_issues-IsAbout field value 0 max

hour-IsAbout :
    {F : Type 0} ⦃d : Double F⦄ ⦃v : Conversions F⦄ (field : Field) (value : Option F)
    → IsAbout field (hour field value).1
hour-IsAbout field none = tt
hour-IsAbout field (some value) =
    go _ (integer_issues field value 0 23) (integer_issues-IsAbout field value 0 23)
  where
    go :
        (h : Option Hour) (issues : List Issue)
        → IsAbout field issues
        → IsAbout field (judged h issues).1
    go h [] k = tt
    go h (i ∷ issues) k = k

instant-IsAbout :
    (T : Type 0) ⦃c : Calendar⦄ ⦃o : Offsets T⦄ (field : Field) (text : Option Text)
    → IsAbout field (instant {T = T} field text).1
instant-IsAbout T field none = tt
instant-IsAbout T field (some text) = ground arith

module _ (T : Type 0) {F : Type 0} ⦃d : Double F⦄ ⦃v : Conversions F⦄ ⦃c : Calendar⦄
    ⦃o : Offsets T⦄ where
  -- The issues of a refused cheapest-window query stand in the order of the fields.
  pub parse_cheapest_query-InFieldOrder :
      (input : CheapestQueryInput) (e : ValidationError)
      → parse_cheapest_query {T = T} {F = F} input ≡ err e
      → InFieldOrder 0 e.issues
  unfolding parse_cheapest_query
  parse_cheapest_query-InFieldOrder input e =
      let start = instant-IsAbout T Field.start_time input.start_time in
      let end = instant-IsAbout T Field.end_time input.end_time in
      let value : F = duration_value input.duration in
      let whole =
        integer_issues-IsAbout Field.duration value min_window_minutes max_window_minutes in
      finish-err 0 _ _ e (
        InFieldOrder-append Field.duration _ _ 0 whole (omega arith) (
          InFieldOrder-append Field.start_time _ _ 0 start (omega arith) (
            InFieldOrder-append Field.end_time _ _ 1 end (omega arith) (
              refused-InFieldOrder Field.max_price (λ kind. kind)
                (checked_max_price {F = F} input.max_price) 2 (omega arith)))))

module _ (Z : Type 0) {F : Type 0} ⦃d : Double F⦄ ⦃v : Conversions F⦄ ⦃z : ZoneDatabase Z⦄ where
  -- The issues of a refused settings update stand in the order of the fields.
  pub validate_settings_update-InFieldOrder :
      (input : SettingsUpdateInput F) (e : ValidationError)
      → validate_settings_update {F = F} {Z = Z} input ≡ err e
      → InFieldOrder 0 e.issues
  unfolding validate_settings_update
  validate_settings_update-InFieldOrder input e = finish-err 0 _ _ e (
      step Field.margin_cents_kwh none input.margin_cents_kwh 0 _ (omega arith) (
        step Field.transfer_day_cents_kwh none input.transfer_day_cents_kwh 6 _ (omega arith) (
          step Field.transfer_night_cents_kwh none input.transfer_night_cents_kwh 7 _ (omega arith)
            (step Field.tax_cents_kwh none input.tax_cents_kwh 8 _ (omega arith) (
              step Field.vat_percent (some 100) input.vat_percent 9 _ (omega arith) (
                InFieldOrder-append Field.night_start_hour _ _ 10
                  (hour-IsAbout Field.night_start_hour input.night_start_hour) (omega arith)
                  (InFieldOrder-append Field.night_end_hour _ _ 11
                    (hour-IsAbout Field.night_end_hour input.night_end_hour) (omega arith)
                    (InFieldOrder-append Field.timezone _ _ 12
                      (refused-IsAbout Field.timezone (λ x. IssueKind.unknown_timezone)
                        (checked_timezone {Z = Z} input.timezone))
                      (omega arith)
                      (refused-InFieldOrder Field.area (λ x. IssueKind.unknown_area)
                        (checked_area input.area) 13 (omega arith))))))))))
    where
      step :
          (field : Field) (max : Option ℕ) (value : Option F) (least : ℕ) (rest : List Issue)
          → least ≤ rank field
          → InFieldOrder (rank field) rest
          → InFieldOrder least (money field max value ++ rest)
      step field max value least rest low h =
          InFieldOrder-append field (money field max value) rest least
            (money-IsAbout field max value) low h
