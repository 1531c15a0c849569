-- ===== src/Fixtures.antt =====
-- Test data that several components share: a zone, a contract, and hours of the epoch day.
use spot_price.Prelude.{ℕ, ◌+◌, ◌*◌}
use spot_price.Prelude.Int.{ℤ, pos}
use spot_price.Areas.{Area}
use spot_price.Float.Halves.{Num, fin}
use spot_price.Jiff.Nanos.{FixedZone}
use spot_price.Settings.{UserSettings}
use spot_price.Price.{DeliveryPeriod}

abbrev pub helsinki : FixedZone
helsinki = record { offset = pos 7200 }

-- whole cents: every amount is a multiple of one half
abbrev pub terms : UserSettings Num FixedZone
terms = record {
  user_id = "u";
  margin_cents_kwh = fin (pos 1);
  transfer_day_cents_kwh = fin (pos 6);
  transfer_night_cents_kwh = fin (pos 3);
  tax_cents_kwh = fin (pos 4);
  vat_percent = fin (pos 100);
  night_start_hour = record { get = 22 };
  night_end_hour = record { get = 7 };
  timezone = record { name = "Europe/Helsinki"; zone = helsinki };
  area = Area.fi;
}

-- the bounds of an hour of the epoch day
abbrev pub hour_period : ℕ → DeliveryPeriod ℤ
hour_period k = record {
  start = pos (k * 3_600_000_000_000);
  end = pos ((k + 1) * 3_600_000_000_000);
}
