-- ===== src/Forecast/Entries/Totals.antt =====
-- The totals of an entry.
use spot_price.Prelude.{
  ℕ, Option, none, some, some-injective, List, [], ◌∷◌, All, ◌≡◌, refl, subst, arith,
}
use spot_price.Prelude.Text.{Text}
use spot_price.Float.{Double, ◌≼◌, IsOrdered, IsMonotone, IsFloored}
use spot_price.Jiff.{Instant, Zoned}
use spot_price.Settings.{UserSettings}
use spot_price.Price.{apply_contract_terms}
use spot_price.Price.Contract.{IsUsable, apply_contract_terms_mono}
use spot_price.Forecast.Quarter.{quarter_timestamp}
use spot_price.Forecast.Conformal.{SpotBand}
use spot_price.Forecast.Series.Predicted.{ForecastSpotPoint}
use spot_price.Forecast.Entries.{
  EntryBand, ForecastEntry, entry_band, entry_between, entry_end, entry_of, collected,
  to_forecast_entries, respond_entries,
}

module _ {F : Type 0} ⦃d : Double F⦄ where
  -- A point lies in its band.
  abbrev pub IsBanded : F → Option (SpotBand F) → Type 0
  IsBanded spot none = Unit
  IsBanded spot (some band) = (band.low ≼ spot) × (spot ≼ band.high)

  -- A total lies between the totals of its band.
  abbrev pub IsTotalBanded : F → Option (EntryBand F) → Type 0
  IsTotalBanded total none = Unit
  IsTotalBanded total (some band) =
      (band.total_low_cents_kwh ≼ total) × (total ≼ band.total_high_cents_kwh)

  entry_band-IsTotalBanded :
      (total : F → F) (spot : F) (band : Option (SpotBand F))
      → ((x z : F) → x ≼ z → total x ≼ total z)
      → IsBanded spot band
      → IsTotalBanded (total spot) (entry_band total band)
  entry_band-IsTotalBanded total spot none mono h = tt
  entry_band-IsTotalBanded total spot (some band) mono (low, high) = (mono _ _ low, mono _ _ high)

module _ {T F : Type 0} ⦃d : Double F⦄ where
  abbrev pub AreTotalBanded : List (ForecastEntry T F) → Type 0
  AreTotalBanded entries = All (λ e. IsTotalBanded e.estimated_total_cents_kwh e.band) entries

module _ {T Z F : Type 0} ⦃i : Instant T⦄ ⦃z : Zoned T Z⦄ ⦃d : Double F⦄ where
  module _ (local : T → Z → Text) (total : F → ℕ → F) where
    entry_between-IsTotalBanded :
        (mono : (x y : F) (hour : ℕ) → x ≼ y → total x hour ≼ total y hour) (start end : Option T)
        (zone : Z) (point : ForecastSpotPoint F) (entry : ForecastEntry T F)
        → IsBanded point.estimated_spot_cents_kwh point.band
        → entry_between local start end zone total point ≡ some entry
        → IsTotalBanded entry.estimated_total_cents_kwh entry.band
    entry_between-IsTotalBanded mono (some start) (some end) zone point entry h e =
        let hour = (z.to_datetime zone start).hour in
        subst (λ x. IsTotalBanded x.estimated_total_cents_kwh x.band) (some-injective _ _ e)
          (entry_band-IsTotalBanded (λ spot. total spot hour) point.estimated_spot_cents_kwh
            point.band (λ x y k. mono x y hour k) h)
    entry_between-IsTotalBanded mono none end zone point entry h e = ground (arith, e)
    entry_between-IsTotalBanded mono (some start) none zone point entry h e = ground (arith, e)

    collected-AreTotalBanded :
        (o : Option (ForecastEntry T F)) (rest : Option (List (ForecastEntry T F)))
        (entries : List (ForecastEntry T F))
        → collected local o rest ≡ some entries
        → ((e : ForecastEntry T F) → o ≡ some e → IsTotalBanded e.estimated_total_cents_kwh e.band)
        → ((es : List (ForecastEntry T F)) → rest ≡ some es → AreTotalBanded es)
        → AreTotalBanded entries
    collected-AreTotalBanded none rest entries k h hs = ground (arith, k)
    collected-AreTotalBanded (some e) none entries k h hs = ground (arith, k)
    collected-AreTotalBanded (some e) (some es) entries k h hs =
        subst AreTotalBanded (some-injective _ _ k) (h e refl, hs es refl)

    to_forecast_entries-AreTotalBanded :
        (mono : (x y : F) (hour : ℕ) → x ≼ y → total x hour ≼ total y hour)
        (points : List (ForecastSpotPoint F)) (zone : Z) (entries : List (ForecastEntry T F))
        → All (λ p. IsBanded p.estimated_spot_cents_kwh p.band) points
        → to_forecast_entries local points zone total ≡ some entries
        → AreTotalBanded entries
    unfolding to_forecast_entries entry_of
    to_forecast_entries-AreTotalBanded mono [] zone entries h e =
        subst AreTotalBanded (some-injective _ _ e) tt
    to_forecast_entries-AreTotalBanded mono (p ∷ ps) zone entries (h, hs) e =
        let start = quarter_timestamp p.start in
        collected-AreTotalBanded _ _ entries e
          (λ x k. entry_between-IsTotalBanded mono start (entry_end start) zone p x h k)
          (λ es k. to_forecast_entries-AreTotalBanded mono ps zone es hs k)

  module _ (o : IsOrdered F) (m : IsMonotone F) (w : IsFloored F) where
    -- When every predicted price lies in its band, the total of every entry of the response lies
    -- between the totals of its band, whatever the hour of the entry is. The settings are finite with
    -- a positive tax factor, and `f64` has the laws of IEEE 754.
    pub respond_entries-AreTotalBanded :
        (local : T → Z → Text) (points : List (ForecastSpotPoint F)) (settings : UserSettings F Z)
        (entries : List (ForecastEntry T F))
        → IsUsable settings
        → All (λ p. IsBanded p.estimated_spot_cents_kwh p.band) points
        → respond_entries local points settings ≡ some entries
        → AreTotalBanded entries
    unfolding respond_entries
    respond_entries-AreTotalBanded local points settings entries u h e =
        to_forecast_entries-AreTotalBanded local
          (λ spot hour. (apply_contract_terms spot settings hour).total_cents_kwh)
          (λ x y hour k. (apply_contract_terms_mono o m w x y settings hour u k).0) points
          settings.timezone.zone entries h e
