-- ===== src/Price/Contract.antt =====
-- The contract terms: the night window, and totals that keep the order of the spot prices.
use spot_price.Prelude.{ℕ, ◌+◌, ◌-◌, ◌%◌, ◌<◌, true, ◌≡◌, arith, ltb, if◌then◌else◌}
use spot_price.Float.{Double, number, ◌≼◌, IsOrdered, IsMonotone, IsFloored}
use spot_price.Js.{max_zero}
use spot_price.Js.Rounding.{round3_mono, max_zero_mono}
use spot_price.Settings.{UserSettings}
use spot_price.Price.{is_night_hour, apply_contract_terms, before_vat}

-- On the clock of 24 hours an hour is in the night window exactly when it is fewer hours after the
-- start than the end is; the window is empty when both bounds are the same hour.
pub is_night_hour_circle :
    (hour start end : ℕ)
    → hour < 24
    → start < 24
    → end < 24
    → is_night_hour hour start end ≡ ltb ((hour + 24 - start) % 24) ((end + 24 - start) % 24)
unfolding is_night_hour
is_night_hour_circle hour start end h s e = ground arith

module _ {F : Type 0} ⦃d : Double F⦄ where
  open d use {add, div, is_finite, lt}

  before_vat_mono :
      (m : IsMonotone F) (x y margin transfer tax : F)
      → max_zero x ≼ max_zero y
      → is_finite margin ≡ true
      → is_finite transfer ≡ true
      → is_finite tax ≡ true
      → before_vat x margin transfer tax ≼ before_vat y margin transfer tax
  before_vat_mono m x y margin transfer tax h p q r =
      m.add_mono _ _ tax (m.add_mono _ _ transfer (m.add_mono _ _ margin h p) q) r

module _ {F Z : Type 0} ⦃d : Double F⦄ where
  open d use {add, div, is_finite, lt}

  abbrev vat_factor : UserSettings F Z → F
  vat_factor s = add (number 1) (div s.vat_percent (number 100))

  -- The terms of a contract are finite, and the factor of the tax is positive.
  pub record IsUsable (s : UserSettings F Z) : Type 0 where
    pub margin : is_finite s.margin_cents_kwh ≡ true
    pub transfer_day : is_finite s.transfer_day_cents_kwh ≡ true
    pub transfer_night : is_finite s.transfer_night_cents_kwh ≡ true
    pub tax : is_finite s.tax_cents_kwh ≡ true
    pub factor_finite : is_finite (vat_factor s) ≡ true
    pub factor_pos : lt (number 0) (vat_factor s) ≡ true

  abbrev pub total : F → UserSettings F Z → ℕ → F
  total spot s hour = (apply_contract_terms spot s hour).total_cents_kwh

  module _ (o : IsOrdered F) (m : IsMonotone F) (w : IsFloored F) where
    total_mono :
        (x y : F) (s : UserSettings F Z) (hour : ℕ)
        → IsUsable s
        → max_zero x ≼ max_zero y
        → total x s hour ≼ total y s hour
    unfolding apply_contract_terms
    total_mono x y s hour u h =
        let night = is_night_hour hour s.night_start_hour.get s.night_end_hour.get in
        let transfer = if night then s.transfer_night_cents_kwh else s.transfer_day_cents_kwh in
        let finite : is_finite transfer ≡ true = ground arith in
        let sums =
          before_vat_mono m x y s.margin_cents_kwh transfer s.tax_cents_kwh h u.margin finite
            u.tax in
        round3_mono o m w _ _ (m.mul_mono _ _ (vat_factor s) sums u.factor_pos u.factor_finite)

    -- A higher spot price never gives a lower total, at any hour, and a total is never below the
    -- total of a spot price of zero, however negative the spot price is. The settings are finite with
    -- a positive tax factor, and `f64` has the laws of IEEE 754.
    pub apply_contract_terms_mono :
        (x y : F) (s : UserSettings F Z) (hour : ℕ)
        → IsUsable s
        → x ≼ y
        → (total x s hour ≼ total y s hour) × (total (number 0) s hour ≼ total x s hour)
    apply_contract_terms_mono x y s hour u h =
        let (up, floor) = max_zero_mono o m w x y h in
        (total_mono x y s hour u up, total_mono (number 0) x s hour u floor)
