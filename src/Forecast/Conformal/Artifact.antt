-- ===== src/Forecast/Conformal/Artifact.antt =====
-- What an artifact holds.
use spot_price.Prelude.{
  ℕ, zero, suc, Bool, true, false, ◌&&◌, ◌||◌, Option, none, some, List, [], ◌∷◌, length, map, all,
  All, if◌then◌else◌, ltb, unwrap_or, String, ◌==◌, ◌≡◌, refl, arith, inl, inr, Bool-cases,
}
use spot_price.Float.{Double, number, ◌≼◌, IsOrdered}
use spot_price.Js.Numerals.{is_empty}
use spot_price.Forecast.Numbers.{count_f64}
use spot_price.Forecast.Numbers.Order.{js_min_le, le_js_max}
use spot_price.Forecast.Conformal.{
  Hyperbolic, BandOffsets, HorizonResidual, CalibratedBands, DeriveOptions, DerivedOffsets,
  hours_from, get_elem?, at_rank, min_total_calibration_samples, is_none, coverage_gate_threshold,
  nominal_coverage_value, min_hour_calibration_samples, insert_sorted, sorted, clamp,
  uncalibrated_bands, nearest_rank_percentile, residual_arcsinh, offsets_from_residuals,
  finite_residuals, hour_offsets, derive_band_offsets, observed_coverage_of, gated, build_artifact,
}

module _ {F : Type 0} ⦃d : Double F⦄ where
  -- The low offset is at most zero, and the high one at least zero.
  abbrev pub AreSigned : Option (BandOffsets F) → Type 0
  AreSigned none = Unit
  AreSigned (some offsets) = (offsets.low_offset ≼ number 0) × (number 0 ≼ offsets.high_offset)

none-AreSigned :
    (F : Type 0) ⦃d : Double F⦄ (hours : List ℕ)
    → All (AreSigned {F = F}) (map (λ hour. none) hours)
none-AreSigned F [] = tt
none-AreSigned F (hour ∷ hours) = (tt, none-AreSigned F hours)

module _ {F : Type 0} ⦃d : Double F⦄ where
  open d use {lt, is_nan}

  -- A calibrated artifact has a coverage that passes the gate, and an uncalibrated one is dark.
  abbrev pub IsArtifact : CalibratedBands F → Type 0
  IsArtifact bands =
      (bands.calibrated ≡ true
        → (coverage : F) × (bands.observed_coverage ≡ some coverage)
          × (lt coverage coverage_gate_threshold ≡ false))
      × (bands.calibrated ≡ false
          → (is_none bands.global_offsets ≡ true) × (all is_none bands.offsets_by_hour ≡ true))
      × AreSigned bands.global_offsets
      × All AreSigned bands.offsets_by_hour

  if-IsArtifact :
      (b : Bool) (x y : CalibratedBands F)
      → (b ≡ true → IsArtifact x)
      → (b ≡ false → IsArtifact y)
      → IsArtifact (if b then x else y)
  if-IsArtifact true x y h k = h refl
  if-IsArtifact false x y h k = k refl

  dark-IsArtifact :
      (coverage : Option F)
      → IsArtifact (record uncalibrated_bands { observed_coverage = coverage })
  dark-IsArtifact coverage =
      ((λ e. ground (arith, e)), (λ e. (refl, refl)), tt, none-AreSigned F (hours_from 24 0))

  abbrev AreNumbers : List F → Type 0
  AreNumbers xs = All (λ x. is_nan x ≡ false) xs

  insert_sorted-AreNumbers :
      (x : F) (ys : List F) → is_nan x ≡ false → AreNumbers ys → AreNumbers (insert_sorted x ys)
  insert_sorted-AreNumbers x [] p h = (p, tt)
  insert_sorted-AreNumbers x (y ∷ ys) p (q, h) =
      let rest = insert_sorted-AreNumbers x ys p h in
      elim (Bool-cases (lt y x)) [ inl e ↦ rw e (q, rest) | inr e ↦ rw e (p, (q, h)) ]

  sorted-AreNumbers : (xs : List F) → AreNumbers xs → AreNumbers (sorted xs)
  sorted-AreNumbers [] h = tt
  sorted-AreNumbers (x ∷ xs) (p, h) =
      insert_sorted-AreNumbers x (sorted xs) p (sorted-AreNumbers xs h)

  get_elem?-number :
      (xs : List F) (n : ℕ)
      → AreNumbers xs
      → is_nan (number 0) ≡ false
      → is_nan (unwrap_or (get_elem? xs n) (number 0)) ≡ false
  get_elem?-number [] n h z = z
  get_elem?-number (x ∷ xs) zero (p, h) z = p
  get_elem?-number (x ∷ xs) (suc n) (p, h) z = get_elem?-number xs n h z

  at_rank-number :
      (xs : List F) (n : ℕ)
      → AreNumbers xs
      → is_nan (number 0) ≡ false
      → is_nan (unwrap_or (at_rank xs n) (number 0)) ≡ false
  at_rank-number xs zero h z = z
  at_rank-number xs (suc n) h z = get_elem?-number xs n h z

module _ {F : Type 0} ⦃d : Double F⦄ ⦃y : Hyperbolic F⦄ (o : IsOrdered F) where
  open d use {lt, is_nan, is_finite}
  open o use {finite_num, lit_finite}

  zero_number : is_nan (number 0) ≡ false
  zero_number = finite_num _ (lit_finite _)

  percentile_number :
      (xs : List F) (p : F)
      → AreNumbers xs
      → is_nan (unwrap_or (nearest_rank_percentile xs p) (number 0)) ≡ false
  unfolding nearest_rank_percentile
  percentile_number xs p h =
      let n : F = count_f64 (length xs) in
      let at =
        at_rank-number xs (y.to_usize (clamp (number 1) n (y.ceil (d.mul p n)))) h zero_number in
      elim (Bool-cases (length xs == 0)) [ inl e ↦ rw e zero_number | inr e ↦ rw e at ]

  offsets_from_residuals-AreSigned :
      (xs : List F) (coverage : F) → AreNumbers xs → AreSigned (offsets_from_residuals xs coverage)
  unfolding offsets_from_residuals
  offsets_from_residuals-AreSigned xs coverage h =
      let ordered = sorted-AreNumbers xs h in
      elim (Bool-cases (is_empty xs)) [
        | inl e ↦ rw e tt
        | inr e ↦ rw e (
          (js_min_le o (number 0) _ zero_number (percentile_number (sorted xs) _ ordered)).0,
          (le_js_max o (number 0) _ zero_number (percentile_number (sorted xs) _ ordered)).0,
        )
      ]

  finite_residuals-AreNumbers :
      (p : ℕ → Bool) (residuals : List (HorizonResidual F))
      → AreNumbers (finite_residuals p residuals)
  finite_residuals-AreNumbers p [] = tt
  finite_residuals-AreNumbers p (r ∷ residuals) =
      let rest = finite_residuals-AreNumbers p residuals in
      elim (Bool-cases
        (is_finite (residual_arcsinh r.predicted_raw r.actual_raw) && p r.utc_hour)) [
          | inl e ↦
              let finite : is_finite (residual_arcsinh r.predicted_raw r.actual_raw) ≡ true =
                ground (arith, e) in
              rw e (finite_num _ finite, rest)
          | inr e ↦ rw e rest
        ]

  hour_offsets-AreSigned :
      (opts : DeriveOptions F) (bucket : List F)
      → AreNumbers bucket
      → AreSigned (hour_offsets opts bucket)
  hour_offsets-AreSigned opts bucket h =
      elim (Bool-cases (is_empty bucket || ltb (length bucket) opts.min_hour_samples)) [
        | inl e ↦ rw e tt
        | inr e ↦ rw e (offsets_from_residuals-AreSigned bucket opts.nominal_coverage h)
      ]

  hours-AreSigned :
      (opts : DeriveOptions F) (residuals : List (HorizonResidual F)) (hours : List ℕ)
      → All AreSigned
          (map (λ hour. hour_offsets opts (finite_residuals (λ h. h == hour) residuals)) hours)
  hours-AreSigned opts residuals [] = tt
  hours-AreSigned opts residuals (hour ∷ hours) = (
    hour_offsets-AreSigned opts (finite_residuals (λ h. h == hour) residuals)
        (finite_residuals-AreNumbers (λ h. h == hour) residuals),
    hours-AreSigned opts residuals hours,
  )

  gated-IsArtifact :
      (derived : DerivedOffsets F) (coverage : F) (generated_at : String)
      → AreSigned derived.global_offsets
      → All AreSigned derived.offsets_by_hour
      → IsArtifact (gated derived coverage generated_at)
  gated-IsArtifact derived coverage generated_at g h =
      if-IsArtifact (is_none derived.global_offsets && all is_none derived.offsets_by_hour) _ _
        (λ e. dark-IsArtifact none)
        (λ e.
          if-IsArtifact (lt coverage coverage_gate_threshold) _ _
            (λ k. dark-IsArtifact (some coverage))
            (λ k. ((λ c. (coverage, refl, k)), (λ c. ground (arith, c)), g, h)))

  -- An artifact is calibrated only with a measured coverage that is not below the gate; otherwise it
  -- has no offsets. A low offset is at most zero, and a high one at least zero. The order of f64 is
  -- total away from NaN.
  pub build_artifact-IsArtifact :
      (residuals : List (HorizonResidual F)) (generated_at : String)
      → IsArtifact (build_artifact residuals generated_at)
  unfolding build_artifact derive_band_offsets
  build_artifact-IsArtifact residuals generated_at =
      let options : DeriveOptions F = record {
        nominal_coverage = nominal_coverage_value;
        min_hour_samples = min_hour_calibration_samples;
      } in
      let derived = derive_band_offsets residuals options in
      if-IsArtifact (ltb (length residuals) min_total_calibration_samples) _ _
        (λ e. dark-IsArtifact none)
        (λ e.
          gated-IsArtifact derived
            (observed_coverage_of residuals derived.offsets_by_hour derived.global_offsets)
            generated_at
            (offsets_from_residuals-AreSigned (finite_residuals (λ h. true) residuals) _
              (finite_residuals-AreNumbers (λ h. true) residuals))
            (hours-AreSigned options residuals (hours_from 24 0)))
