-- ===== src/Settings/Updates.antt =====
-- Hours are read exactly, and updates compose.
use spot_price.Prelude.{◌≤◌, Option, none, some, ◌≡◌, ◌↔◌, arith, refl, unwrap_or}
use spot_price.Prelude.Int.{ℤ, pos}
use spot_price.Settings.{Hour, hour_of_integer, UserSettings, SettingsUpdate, with_update}

-- An integer is read as an hour exactly when it is that hour and lies in 0..=23.
pub hour_of_integer_iff :
    (n : ℤ) (h : Hour) → (hour_of_integer n ≡ some h) ↔ ((n ≡ pos h.get) × (h.get ≤ 23))
unfolding hour_of_integer
hour_of_integer_iff n h = ground arith

-- The first value that is given.
abbrev pub or_else : {A : Type 0} → Option A → Option A → Option A
or_else none b = b
or_else (some a) b = some a

unwrap_or-or_else :
    {A : Type 0} (a b : Option A) (c : A) → unwrap_or a (unwrap_or b c) ≡ unwrap_or (or_else a b) c
unwrap_or-or_else none b c = refl
unwrap_or-or_else (some a) b c = refl

module _ {F Z : Type 0} where
  -- The update that gives what either gives, the later one first.
  abbrev pub merge : SettingsUpdate F Z → SettingsUpdate F Z → SettingsUpdate F Z
  merge first later = record {
    margin_cents_kwh = or_else later.margin_cents_kwh first.margin_cents_kwh;
    transfer_day_cents_kwh = or_else later.transfer_day_cents_kwh first.transfer_day_cents_kwh;
    transfer_night_cents_kwh =
        or_else later.transfer_night_cents_kwh first.transfer_night_cents_kwh;
    tax_cents_kwh = or_else later.tax_cents_kwh first.tax_cents_kwh;
    vat_percent = or_else later.vat_percent first.vat_percent;
    night_start_hour = or_else later.night_start_hour first.night_start_hour;
    night_end_hour = or_else later.night_end_hour first.night_end_hour;
    timezone = or_else later.timezone first.timezone;
    area = or_else later.area first.area;
  }

  -- Two updates one after the other are one update in which the later values win, field by field;
  -- the user is never changed.
  pub with_update_compose :
      (s : UserSettings F Z) (first later : SettingsUpdate F Z)
      → (with_update (with_update s first) later ≡ with_update s (merge first later))
        × ((with_update s later).user_id ≡ s.user_id)
  unfolding with_update
  with_update_compose s first later = (simp unwrap_or-or_else, refl)
