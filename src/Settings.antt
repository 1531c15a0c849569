-- ===== src/Settings.antt =====
-- `crates/domain/src/settings.rs`: the contract terms of a user and their partial update.
mod Updates
mod Examples
use spot_price.Prelude.{ℕ, String, Option, none, some, leb, if◌then◌else◌, unwrap_or}
use spot_price.Prelude.Int.{ℤ, pos, negsuc}
use spot_price.Areas.{Area}
use spot_price.Time.{UserTimeZone}

-- An hour of the day.
pub record Hour : Type 0 where
  pub get : ℕ

-- `Hour::new` on a `u8`; `none` is `InvalidHour`.
unfoldable pub new_hour : ℕ → Option Hour
new_hour hour = if leb hour 23 then some (record { get = hour }) else none

-- `TryFrom<i64> for Hour`, by the conversion to `u8`.
unfoldable pub hour_of_integer : ℤ → Option Hour
unfolding new_hour
hour_of_integer (pos n) = if leb n 255 then new_hour n else none
hour_of_integer (negsuc n) = none

pub record UserSettings (F Z : Type 0) : Type 0 where
  pub user_id : String
  pub margin_cents_kwh : F
  pub transfer_day_cents_kwh : F
  pub transfer_night_cents_kwh : F
  pub tax_cents_kwh : F
  pub vat_percent : F
  pub night_start_hour : Hour
  pub night_end_hour : Hour
  pub timezone : UserTimeZone Z
  pub area : Area

-- A checked partial update; `none` keeps the current value.
pub record SettingsUpdate (F Z : Type 0) : Type 0 where
  pub margin_cents_kwh : Option F
  pub transfer_day_cents_kwh : Option F
  pub transfer_night_cents_kwh : Option F
  pub tax_cents_kwh : Option F
  pub vat_percent : Option F
  pub night_start_hour : Option Hour
  pub night_end_hour : Option Hour
  pub timezone : Option (UserTimeZone Z)
  pub area : Option Area

module _ {F Z : Type 0} where
  unfoldable pub with_update : UserSettings F Z → SettingsUpdate F Z → UserSettings F Z
  with_update s update = record {
    user_id = s.user_id;
    margin_cents_kwh = unwrap_or update.margin_cents_kwh s.margin_cents_kwh;
    transfer_day_cents_kwh = unwrap_or update.transfer_day_cents_kwh s.transfer_day_cents_kwh;
    transfer_night_cents_kwh = unwrap_or update.transfer_night_cents_kwh s.transfer_night_cents_kwh;
    tax_cents_kwh = unwrap_or update.tax_cents_kwh s.tax_cents_kwh;
    vat_percent = unwrap_or update.vat_percent s.vat_percent;
    night_start_hour = unwrap_or update.night_start_hour s.night_start_hour;
    night_end_hour = unwrap_or update.night_end_hour s.night_end_hour;
    timezone = unwrap_or update.timezone s.timezone;
    area = unwrap_or update.area s.area;
  }
