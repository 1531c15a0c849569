-- ===== src/Forecast/Entries/Examples.antt =====
-- Runs of the response entries.
use spot_price.Prelude.{none, some, List, [], ◌∷◌, refl, arith}
use spot_price.Prelude.Int.{ℤ, pos, negsuc, ◌+ℤ◌, ◌-ℤ◌, ◌*ℤ◌, div_euclid, rem_euclid}
use spot_price.Prelude.Text.{Text}
use spot_price.Float.Halves.{
  Num, fin, halves, halves-IsOrdered, halves-IsMonotone, halves-IsFloored,
}
use spot_price.Jiff.Nanos.{nanos, FixedZone, fixed_zoned}
use spot_price.Fixtures.{terms}
use spot_price.Price.{apply_contract_terms}
use spot_price.Forecast.Quarter.{quarter_timestamp}
use spot_price.Forecast.Series.Predicted.{ForecastSpotPoint}
use spot_price.Forecast.Entries.{ForecastEntry, respond_entries}
use spot_price.Forecast.Entries.Totals.{AreTotalBanded, respond_entries-AreTotalBanded}

abbrev blank : ℤ → FixedZone → Text
blank t zone = []

abbrev points : List (ForecastSpotPoint Num)
points =
    record {
      start = record { start = pos 0 };
      estimated_spot_cents_kwh = fin (pos 8);
      band = some (record { low = fin (pos 6); high = fin (pos 12) });
    }
    ∷ record {
      start = record { start = pos 900_000 };
      estimated_spot_cents_kwh = fin (negsuc 3);
      band = none;
    }
    ∷ []

abbrev entries : List (ForecastEntry ℤ Num)
entries =
    record {
      start = pos 0;
      end = pos 900_000_000_000;
      local_start = [];
      local_end = [];
      estimated_spot_cents_kwh = fin (pos 8);
      estimated_total_cents_kwh = fin (pos 24);
      band = some (record {
        spot_low_cents_kwh = fin (pos 6);
        spot_high_cents_kwh = fin (pos 12);
        total_low_cents_kwh = fin (pos 21);
        total_high_cents_kwh = fin (pos 30);
      });
    }
    ∷ record {
      start = pos 900_000_000_000;
      end = pos 1_800_000_000_000;
      local_start = [];
      local_end = [];
      estimated_spot_cents_kwh = fin (negsuc 3);
      estimated_total_cents_kwh = fin (pos 12);
      band = none;
    }
    ∷ []

respond_entries-AreTotalBanded_example : AreTotalBanded entries
unfolding respond_entries quarter_timestamp apply_contract_terms div_euclid rem_euclid ◌+ℤ◌ ◌-ℤ◌
    ◌*ℤ◌
respond_entries-AreTotalBanded_example =
    respond_entries-AreTotalBanded halves-IsOrdered halves-IsMonotone halves-IsFloored blank points
      terms entries (ground arith) ((refl, refl), (tt, tt)) refl
