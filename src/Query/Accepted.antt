-- ===== src/Query/Accepted.antt =====
-- What the three validators accept, and that a refusal has an issue.
use spot_price.Prelude.{
  ℕ, ◌≤◌, true, Option, none, some, List, [], ◌≡◌, refl, arith, inl, inr, Bool-cases, List-cases,
  ap, Result, ok, err, subst, sym,
}
use spot_price.Prelude.Text.{Text}
use spot_price.Float.{Double, Conversions, IsOrdered, IsConverted, number, ◌≼◌}
use spot_price.Jiff.{Calendar, Offsets, ZoneDatabase}
use spot_price.Settings.{Hour, SettingsUpdate, new_hour}
use spot_price.Query.{
  Field, IssueKind, Issue, CheapestQueryInput, CheapestQuery, SettingsUpdateInput,
  min_window_minutes, max_window_minutes,
}
use spot_price.Query.Numbers.{integer_issues, small_integer}
use spot_price.Query.Bounds.{
  append-nil, integer_issues-nil, small_integer-some, number_issues-nil, above-nil,
}
use spot_price.Js.Numerals.{is_empty, js_trim, string_to_number}
use spot_price.Query.Reports.{IsReported, IfSome, IsSome-bind, finish-IsReported}
use spot_price.Query.Validators.{
  ◌>>=◌, judged, byte_hour, money, hour, checked_timezone, checked_area, transposed, refused,
  checked_max_price, parse_cheapest_query, validate_settings_update,
}

module _ {F : Type 0} ⦃d : Double F⦄ where
  abbrev IsFinite : F → Type 0
  IsFinite p = d.is_finite p ≡ true

module _ {F : Type 0} ⦃d : Double F⦄ ⦃v : Conversions F⦄ where
  checked_max_price-nil :
      (text : Option Text)
      → refused {A = F} Field.max_price (λ kind. kind) (checked_max_price text) ≡ []
      → (p : Option F) × (transposed (checked_max_price text) ≡ some p) × IfSome IsFinite p
  checked_max_price-nil none h = (none, refl, tt)
  checked_max_price-nil (some given) h = elim (Bool-cases (is_empty (js_trim given))) [
    | inl e ↦ ground (arith, e, h)
    | inr e ↦
        let value : F = string_to_number (js_trim given) in
        elim (Bool-cases (d.is_finite value)) [
          | inl q ↦ (some value, rw e (rw q refl), q)
          | inr q ↦ ground (arith, e, q, h)
        ]
  ]

  -- A number without issues is read in its bounds.
  read_integer :
      IsOrdered F
      → IsConverted F
      → (field : Field) (value : F) (min max : ℕ) → min ≤ max
      → max ≤ 4_294_967_295
      → integer_issues field value min max ≡ []
      → (n : ℕ) × (small_integer value ≡ some n) × (min ≤ n) × (n ≤ max)
  read_integer o c field value min max ordered small h =
      let (finite, whole, low, high) = integer_issues-nil o field value min max h in
      small_integer-some o c value min max ordered small finite whole low high

-- The duration is in its bounds, and the highest price is finite.
abbrev pub IsCheapestQuery : {T F : Type 0} ⦃d : Double F⦄ → CheapestQuery T F → Type 0
IsCheapestQuery q =
    (min_window_minutes ≤ q.duration_minutes)
    × (q.duration_minutes ≤ max_window_minutes)
    × IfSome IsFinite q.max_price

module _ (T : Type 0) {F : Type 0} ⦃d : Double F⦄ ⦃v : Conversions F⦄ ⦃c : Calendar⦄
    ⦃o : Offsets T⦄ where
  -- A cheapest-window query is accepted with a duration of 1 to 1440 minutes and a finite highest
  -- price, if any; otherwise the error names at least one issue. The order and the casts of `f64` are
  -- those of IEEE 754 and of Rust.
  pub parse_cheapest_query-IsReported :
      IsOrdered F
      → IsConverted F
      → (input : CheapestQueryInput)
      → IsReported (IsCheapestQuery {F = F}) (parse_cheapest_query {T = T} input)
  unfolding parse_cheapest_query
  parse_cheapest_query-IsReported ordered converted input =
      let good : CheapestQuery T F → Type 0 = IsCheapestQuery in
      finish-IsReported good _ _ (λ h.
        let (no_duration, rest) = append-nil _ _ h in
        let (no_start, rest') = append-nil _ _ rest in
        let no_price = (append-nil _ _ rest').1 in
        let (n, e, low, high) =
          read_integer ordered converted Field.duration _ min_window_minutes max_window_minutes
            (omega arith) (omega arith) no_duration in
        let (p, q, finite) = checked_max_price-nil input.max_price no_price in
        IsSome-bind good _ n _ e (IsSome-bind good _ p _ q (low, high, finite)))

-- A given value that is not refused is there.
refused-nil :
    {A E : Type 0} (field : Field) (kind : E → IssueKind) (r : Option (Result A E))
    → refused field kind r ≡ []
    → (a : Option A) × (transposed r ≡ some a)
refused-nil field kind none h = (none, refl)
refused-nil field kind (some (ok a)) h = (some a, refl)
refused-nil field kind (some (err e)) h = ground (arith, h)

abbrev IsHour : Hour → Type 0
IsHour h = h.get ≤ 23

module _ {F : Type 0} ⦃d : Double F⦄ where
  abbrev IsMoney : F → Type 0
  IsMoney p = IsFinite p × (number 0 ≼ p)

  abbrev IsPercent : F → Type 0
  IsPercent p = IsFinite p × (number 0 ≼ p) × (p ≼ number 100)

  money-nil :
      IsOrdered F
      → (field : Field) (value : Option F) → money field none value ≡ []
      → IfSome IsMoney value
  money-nil o field none h = tt
  money-nil o field (some value) h =
      let (finite, low, rest) = number_issues-nil o field value 0 none h in (finite, low)

  vat_money-nil :
      IsOrdered F
      → (field : Field) (value : Option F) → money field (some 100) value ≡ []
      → IfSome IsPercent value
  vat_money-nil o field none h = tt
  vat_money-nil o field (some value) h =
      let (finite, low, rest) = number_issues-nil o field value 0 (some 100) h in
      (finite, low, above-nil o field value 100 (o.finite_num value finite) rest)

  hour-nil :
      ⦃v : Conversions F⦄
      → IsOrdered F
      → IsConverted F
      → (field : Field) (value : Option F) → (hour field value).1 ≡ []
      → (h : Option Hour) × (transposed (hour field value).0 ≡ some h) × IfSome IsHour h
  unfolding new_hour
  hour-nil ordered converted field none h = (none, refl, tt)
  hour-nil ordered converted field (some value) h =
      elim (List-cases (integer_issues field value 0 23)) [
        | inr (i, issues, e) ↦ ground (arith, e, h)
        | inl e ↦
            let (n, q, low, high) =
              read_integer ordered converted field value 0 23 (omega arith) (omega arith) e in
            let found : byte_hour n ≡ some (record { get = n }) = ground arith in
            let some_hour : Option (Result Hour Unit) × List Issue =
              (some (ok (record { get = n })), []) in
            let read : small_integer value >>= byte_hour ≡ some (record { get = n }) =
              subst (λ x. x >>= byte_hour ≡ some (record { get = n })) (sym q) found in
            let good : hour field (some value) ≡ some_hour =
              subst (λ x. judged x (integer_issues field value 0 23) ≡ some_hour) (sym read)
                (subst (λ l. judged (some (record { get = n })) l ≡ some_hour) (sym e) refl) in
            (some (record { get = n }), ap (λ x. transposed x.0) good, high)
      ]

  -- Money is finite and at least 0, the tax rate is at most 100, and an hour is at most 23.
  abbrev pub IsSettingsUpdate : {Z : Type 0} → SettingsUpdate F Z → Type 0
  IsSettingsUpdate u =
      IfSome IsMoney u.margin_cents_kwh
      × IfSome IsMoney u.transfer_day_cents_kwh
      × IfSome IsMoney u.transfer_night_cents_kwh
      × IfSome IsMoney u.tax_cents_kwh
      × IfSome IsPercent u.vat_percent
      × IfSome IsHour u.night_start_hour
      × IfSome IsHour u.night_end_hour

module _ (Z : Type 0) {F : Type 0} ⦃d : Double F⦄ ⦃v : Conversions F⦄ ⦃z : ZoneDatabase Z⦄ where
  -- A settings update is accepted with finite money of at least 0, a tax rate of 0 to 100 and hours of
  -- 0 to 23; otherwise the error names at least one issue. The order and the casts of `f64` are those
  -- of IEEE 754 and of Rust.
  pub validate_settings_update-IsReported :
      IsOrdered F
      → IsConverted F
      → (input : SettingsUpdateInput F)
      → IsReported (IsSettingsUpdate {F = F} {Z = Z}) (validate_settings_update input)
  unfolding validate_settings_update
  validate_settings_update-IsReported o c input =
      let good : SettingsUpdate F Z → Type 0 = IsSettingsUpdate in
      finish-IsReported good _ _ (λ h.
        let (margin, h1) = append-nil _ _ h in
        let (day, h2) = append-nil _ _ h1 in
        let (night, h3) = append-nil _ _ h2 in
        let (tax, h4) = append-nil _ _ h3 in
        let (vat, h5) = append-nil _ _ h4 in
        let (start, h6) = append-nil _ _ h5 in
        let (end, h7) = append-nil _ _ h6 in
        let (no_zone, no_area) = append-nil _ _ h7 in
        let (s, s_eq, s_hour) = hour-nil o c Field.night_start_hour input.night_start_hour start in
        let (e, e_eq, e_hour) = hour-nil o c Field.night_end_hour input.night_end_hour end in
        let (zone, z_eq) =
          refused-nil Field.timezone _ (checked_timezone {Z = Z} input.timezone) no_zone in
        let (area, a_eq) = refused-nil Field.area _ (checked_area input.area) no_area in
        IsSome-bind good _ s _ s_eq (
          IsSome-bind good _ e _ e_eq (
            IsSome-bind good _ zone _ z_eq (
              IsSome-bind good _ area _ a_eq (
                money-nil o _ input.margin_cents_kwh margin,
                money-nil o _ input.transfer_day_cents_kwh day,
                money-nil o _ input.transfer_night_cents_kwh night,
                money-nil o _ input.tax_cents_kwh tax,
                vat_money-nil o _ input.vat_percent vat,
                s_hour,
                e_hour,
              )))))
