-- ===== src/Forecast/Conformal/Bands.antt =====
-- The band around a point.
use spot_price.Prelude.{
  ℕ, zero, suc, true, false, Option, none, some, some-injective, [], ◌∷◌, All, or_else, unwrap_or,
  ◌≡◌, subst, arith, inl, inr, Bool-cases,
}
use spot_price.Float.{Double, ◌≼◌, IsOrdered, IsMonotone, IsFloored}
use spot_price.Js.{round3}
use spot_price.Js.Rounding.{round3_mono}
use spot_price.Forecast.Numbers.Order.{js_min_le, le_js_max}
use spot_price.Forecast.Conformal.{
  Hyperbolic, BandOffsets, HourOffsets, CalibratedBands, SpotBand, get_elem?, offsets_for_hour,
  band_of, band_with, apply_band,
}
use spot_price.Forecast.Conformal.Artifact.{AreSigned, IsArtifact}

-- The hyperbolic functions and sums with a finite number give no NaN on numbers.
pub record IsHyperbolic (F : Type 0) ⦃d : Double F⦄ ⦃y : Hyperbolic F⦄ : Type 0 where
  pub asinh_finite : (x : F) → d.is_finite x ≡ true → d.is_finite (y.asinh x) ≡ true
  pub sinh_num : (x : F) → d.is_nan x ≡ false → d.is_nan (y.sinh x) ≡ false
  pub add_num : (x z : F) → d.is_finite x ≡ true → d.is_nan z ≡ false → d.is_nan (d.add x z) ≡ false

module _ {F : Type 0} ⦃d : Double F⦄ where
  get_elem?-AreSigned :
      (hours : HourOffsets F) (hour : ℕ)
      → All AreSigned hours
      → AreSigned (unwrap_or (get_elem? hours hour) none)
  get_elem?-AreSigned [] hour h = tt
  get_elem?-AreSigned (x ∷ xs) zero (p, h) = p
  get_elem?-AreSigned (x ∷ xs) (suc n) (p, h) = get_elem?-AreSigned xs n h

  or_else-AreSigned :
      (a b : Option (BandOffsets F)) → AreSigned a → AreSigned b → AreSigned (or_else a b)
  or_else-AreSigned none b p q = q
  or_else-AreSigned (some a) b p q = p

module _ {F : Type 0} ⦃d : Double F⦄ ⦃y : Hyperbolic F⦄ (o : IsOrdered F) (m : IsMonotone F) where
  module _ (w : IsFloored F) (h : IsHyperbolic F) where
    open d use {add, is_nan, is_finite}
    open y use {asinh, sinh}

    abbrev pub Holds : F → SpotBand F → Type 0
    Holds point_raw band = (band.low ≼ round3 point_raw) × (round3 point_raw ≼ band.high)

    band_of-Holds :
        (point_raw : F) (offsets : BandOffsets F)
        → is_finite point_raw ≡ true
        → AreSigned (some offsets)
        → Holds point_raw (band_of point_raw offsets)
    band_of-Holds p offsets fin (low, high) =
        let num = o.finite_num p fin in
        let asinh_fin = h.asinh_finite p fin in
        let low_num = h.sinh_num _ (h.add_num _ _ asinh_fin (o.le_num _ _ low).0) in
        let high_num = h.sinh_num _ (h.add_num _ _ asinh_fin (o.le_num _ _ high).1) in
        (
          round3_mono o m w _ _ (js_min_le o _ p low_num num).1,
          round3_mono o m w _ _ (le_js_max o _ p high_num num).1,
        )

    band_with-Holds :
        (point_raw : F) (offsets : Option (BandOffsets F)) (band : SpotBand F)
        → is_finite point_raw ≡ true
        → AreSigned offsets
        → band_with point_raw offsets ≡ some band
        → Holds point_raw band
    band_with-Holds p none band fin s e = ground (arith, e)
    band_with-Holds p (some offsets) band fin s e =
        subst (Holds p) (some-injective _ _ e) (band_of-Holds p offsets fin s)

    -- The band of a finite point, from the artifact of some residuals or one like it, holds the
    -- rounded point. f64 has the laws of IEEE 754, and its hyperbolic functions give no NaN.
    pub apply_band-Holds :
        (point_raw : F) (utc_hour : ℕ) (bands : CalibratedBands F) (band : SpotBand F)
        → is_finite point_raw ≡ true
        → IsArtifact bands
        → apply_band point_raw utc_hour bands ≡ some band
        → Holds point_raw band
    unfolding apply_band
    apply_band-Holds p hour bands band fin (_, _, global, hours) e =
        elim (Bool-cases bands.calibrated) [
          | inl c ↦
              band_with-Holds p (offsets_for_hour hour bands.offsets_by_hour bands.global_offsets)
                band fin
                (or_else-AreSigned _ bands.global_offsets
                  (get_elem?-AreSigned bands.offsets_by_hour hour hours) global)
                (simp (c) at e)
          | inr c ↦ absurd (ground (arith, c, e))
        ]
