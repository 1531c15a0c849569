-- ===== src/Settings/Examples.antt =====
-- Runs of the settings rules.
use spot_price.Prelude.{◌≡◌, refl, none, some}
use spot_price.Prelude.Int.{pos}
use spot_price.Areas.{Area}
use spot_price.Float.Halves.{Num, fin}
use spot_price.Jiff.Nanos.{FixedZone}
use spot_price.Fixtures.{terms}
use spot_price.Settings.{SettingsUpdate, with_update}

abbrev no_change : SettingsUpdate Num FixedZone
no_change = record {
  margin_cents_kwh = none;
  transfer_day_cents_kwh = none;
  transfer_night_cents_kwh = none;
  tax_cents_kwh = none;
  vat_percent = none;
  night_start_hour = none;
  night_end_hour = none;
  timezone = none;
  area = none;
}

abbrev to_stockholm : SettingsUpdate Num FixedZone
to_stockholm = record no_change { area = some Area.se3; margin_cents_kwh = some (fin (pos 2)) }

abbrev cheaper : SettingsUpdate Num FixedZone
cheaper = record no_change { margin_cents_kwh = some (fin (pos 0)) }

test-with_update : (with_update (with_update terms to_stockholm) cheaper).area ≡ Area.se3
unfolding with_update
test-with_update = refl
