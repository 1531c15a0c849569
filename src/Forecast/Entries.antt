-- ===== src/Forecast/Entries.antt =====
-- `crates/domain/src/forecast/entries.rs`, and the contract terms that
-- `crates/server/src/http/forecast.rs` applies to each entry.
pub mod Totals
mod Examples
use spot_price.Prelude.{ℕ, Option, none, some, List, [], ◌∷◌}
use spot_price.Prelude.Int.{pos}
use spot_price.Prelude.Text.{Text}
use spot_price.Float.{Double}
use spot_price.Jiff.{Instant, Zoned}
use spot_price.Settings.{UserSettings}
use spot_price.Price.{apply_contract_terms}
use spot_price.Forecast.Quarter.{quarter_timestamp}
use spot_price.Forecast.Conformal.{SpotBand}
use spot_price.Forecast.Series.Predicted.{ForecastSpotPoint}

pub record EntryBand (F : Type 0) : Type 0 where
  pub spot_low_cents_kwh : F
  pub spot_high_cents_kwh : F
  pub total_low_cents_kwh : F
  pub total_high_cents_kwh : F

pub record ForecastEntry (T F : Type 0) : Type 0 where
  pub start : T
  pub end : T
  pub local_start : Text
  pub local_end : Text
  pub estimated_spot_cents_kwh : F
  pub estimated_total_cents_kwh : F
  pub band : Option (EntryBand F)

module _ {F : Type 0} where
  abbrev pub entry_band : (F → F) → Option (SpotBand F) → Option (EntryBand F)
  entry_band total none = none
  entry_band total (some band) = some (record {
    spot_low_cents_kwh = band.low;
    spot_high_cents_kwh = band.high;
    total_low_cents_kwh = total band.low;
    total_high_cents_kwh = total band.high;
  })

module _ {T : Type 0} ⦃i : Instant T⦄ where
  abbrev pub entry_end : Option T → Option T
  entry_end none = none
  entry_end (some start) = i.checked_add start (pos 900_000_000_000)

module _ {T Z F : Type 0} ⦃i : Instant T⦄ ⦃z : Zoned T Z⦄ (local : T → Z → Text) where
  -- The entry of a point from its start and its end; `none` is `OutOfRange`. `local` is the text of an
  -- instant in a zone, by the `strftime` of jiff.
  abbrev pub entry_between :
      Option T → Option T → Z → (F → ℕ → F) → ForecastSpotPoint F → Option (ForecastEntry T F)
  entry_between (some start) (some end) zone total_cents_kwh point =
      let hour = (z.to_datetime zone start).hour in
      some (record {
        start = start;
        end = end;
        local_start = local start zone;
        local_end = local end zone;
        estimated_spot_cents_kwh = point.estimated_spot_cents_kwh;
        estimated_total_cents_kwh = total_cents_kwh point.estimated_spot_cents_kwh hour;
        band = entry_band (λ spot. total_cents_kwh spot hour) point.band;
      })
  entry_between _ _ zone total_cents_kwh point = none

  unfoldable pub entry_of : Z → (F → ℕ → F) → ForecastSpotPoint F → Option (ForecastEntry T F)
  entry_of zone total_cents_kwh point =
      entry_between (quarter_timestamp point.start) (entry_end (quarter_timestamp point.start)) zone
        total_cents_kwh point

  -- `collect` into a result: the first error is the result.
  abbrev pub collected :
      Option (ForecastEntry T F)
      → Option (List (ForecastEntry T F))
      → Option (List (ForecastEntry T F))
  collected (some entry) (some entries) = some (entry ∷ entries)
  collected _ _ = none

  unfoldable pub to_forecast_entries :
      List (ForecastSpotPoint F) → Z → (F → ℕ → F) → Option (List (ForecastEntry T F))
  unfolding entry_of
  to_forecast_entries [] zone total_cents_kwh = some []
  to_forecast_entries (point ∷ points) zone total_cents_kwh =
      collected (entry_of zone total_cents_kwh point)
        (to_forecast_entries points zone total_cents_kwh)

  -- The entries of `respond`: the totals are those of the user's contract, in the user's zone.
  unfoldable pub respond_entries :
      ⦃d : Double F⦄
      → List (ForecastSpotPoint F)
      → UserSettings F Z
      → Option (List (ForecastEntry T F))
  unfolding to_forecast_entries
  respond_entries points settings =
      to_forecast_entries points settings.timezone.zone
        (λ spot hour. (apply_contract_terms spot settings hour).total_cents_kwh)
