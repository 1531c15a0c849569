-- ===== src/Forecast/Conformal.antt =====
-- `crates/domain/src/forecast/conformal.rs`: the band offsets and the bands of a prediction.
pub mod Artifact
pub mod Bands
mod Examples
use spot_price.Prelude.{
  ℕ, zero, suc, ◌+◌, Bool, true, false, not, ◌&&◌, ◌||◌, Option, none, some, List, [], ◌∷◌, length,
  filter, map, all, if◌then◌else◌, ltb, ◌==◌, or_else, unwrap_or, String,
}
use spot_price.Prelude.Int.{pos}
use spot_price.Float.{Double, number}
use spot_price.Js.{round3}
use spot_price.Js.Numerals.{is_empty}
use spot_price.Forecast.Numbers.{count_f64, js_min, js_max}

-- The functions of `f64` that only the bands use: `asinh`, `sinh`, `ceil` and `as usize`.
pub record Hyperbolic (F : Type 0) : Type 0 where
  pub asinh : F → F
  pub sinh : F → F
  pub ceil : F → F
  pub to_usize : F → ℕ

abbrev pub min_hour_calibration_samples : ℕ
min_hour_calibration_samples = 14

abbrev pub min_total_calibration_samples : ℕ
min_total_calibration_samples = 96

pub record BandOffsets (F : Type 0) : Type 0 where
  pub low_offset : F
  pub high_offset : F

pub record HorizonResidual (F : Type 0) : Type 0 where
  pub utc_hour : ℕ
  pub predicted_raw : F
  pub actual_raw : F

-- Offsets by UTC hour; the place `h` holds hour `h`.
abbrev pub HourOffsets : Type 0 → Type 0
HourOffsets F = List (Option (BandOffsets F))

-- The method is always the same, and has no field here.
pub record CalibratedBands (F : Type 0) : Type 0 where
  pub nominal_coverage : F
  pub observed_coverage : Option F
  pub calibrated : Bool
  pub offsets_by_hour : HourOffsets F
  pub global_offsets : Option (BandOffsets F)
  pub generated_at : String

pub record DeriveOptions (F : Type 0) : Type 0 where
  pub nominal_coverage : F
  pub min_hour_samples : ℕ

pub record DerivedOffsets (F : Type 0) : Type 0 where
  pub offsets_by_hour : HourOffsets F
  pub global_offsets : Option (BandOffsets F)

-- A band in spot c/kWh, rounded to three decimals.
pub record SpotBand (F : Type 0) : Type 0 where
  pub low : F
  pub high : F

abbrev pub hours_from : ℕ → ℕ → List ℕ
hours_from zero hour = []
hours_from (suc n) hour = hour ∷ hours_from n (hour + 1)

abbrev pub get_elem? {ℓ} : {A : Type ℓ} → List A → ℕ → Option A
get_elem? [] n = none
get_elem? (x ∷ xs) zero = some x
get_elem? (x ∷ xs) (suc n) = get_elem? xs n

-- `get(rank.checked_sub(1)?)`.
abbrev pub at_rank {ℓ} : {A : Type ℓ} → List A → ℕ → Option A
at_rank xs zero = none
at_rank xs (suc n) = get_elem? xs n

module _ {F : Type 0} where
  -- `offsets_for_hour`.
  abbrev pub offsets_for_hour : ℕ → HourOffsets F → Option (BandOffsets F) → Option (BandOffsets F)
  offsets_for_hour utc_hour offsets_by_hour global_offsets =
      or_else (unwrap_or (get_elem? offsets_by_hour utc_hour) none) global_offsets

  abbrev pub is_none : Option (BandOffsets F) → Bool
  is_none none = true
  is_none (some offsets) = false

module _ {F : Type 0} ⦃d : Double F⦄ where
  open d use {add, sub, div, lt}

  -- `0.7` and `0.8`.
  abbrev pub coverage_gate_threshold : F
  coverage_gate_threshold = div (number 7) (number 10)

  abbrev pub nominal_coverage_value : F
  nominal_coverage_value = div (number 8) (number 10)

  -- The stable sort by `partial_cmp`: a number goes behind those that it is not less than.
  abbrev pub insert_sorted : F → List F → List F
  insert_sorted x [] = x ∷ []
  insert_sorted x (y ∷ ys) =
      let rest = insert_sorted x ys in if lt y x then y ∷ rest else x ∷ y ∷ ys

  abbrev pub sorted : List F → List F
  sorted [] = []
  sorted (x ∷ xs) = insert_sorted x (sorted xs)

  -- `clamp(1.0, n)`.
  abbrev pub clamp : F → F → F → F
  clamp low high x = if lt x low then low else if lt high x then high else x

  abbrev pub uncalibrated_bands : CalibratedBands F
  uncalibrated_bands = record {
    nominal_coverage = nominal_coverage_value;
    observed_coverage = none;
    calibrated = false;
    offsets_by_hour = map (λ hour. none) (hours_from 24 0);
    global_offsets = none;
    generated_at = "";
  }

module _ {F : Type 0} ⦃d : Double F⦄ ⦃y : Hyperbolic F⦄ where
  open d use {add, sub, mul, div, lt, le, is_finite}
  open y use {asinh, sinh, ceil, to_usize}

  unfoldable pub nearest_rank_percentile : List F → F → Option F
  nearest_rank_percentile sorted_asc p =
      let n : F = count_f64 (length sorted_asc) in
      if length sorted_asc == 0
      then none
      else at_rank sorted_asc (to_usize (clamp (number 1) n (ceil (mul p n))))

  unfoldable pub residual_arcsinh : F → F → F
  residual_arcsinh predicted_raw actual_raw = sub (asinh actual_raw) (asinh predicted_raw)

  unfoldable pub offsets_from_residuals : List F → F → Option (BandOffsets F)
  unfolding nearest_rank_percentile js_min js_max
  offsets_from_residuals residuals nominal_coverage =
      let ordered = sorted residuals in
      let low_p = div (sub (number 1) nominal_coverage) (number 2) in
      let high_p = div (add (number 1) nominal_coverage) (number 2) in
      if is_empty residuals
      then none
      else some (record {
        low_offset =
            js_min (number 0) (unwrap_or (nearest_rank_percentile ordered low_p) (number 0));
        high_offset =
            js_max (number 0) (unwrap_or (nearest_rank_percentile ordered high_p) (number 0));
      })

  -- The finite residuals of the loop, of one hour and of all.
  abbrev pub finite_residuals : (ℕ → Bool) → List (HorizonResidual F) → List F
  finite_residuals p [] = []
  finite_residuals p (r ∷ residuals) =
      let rest = finite_residuals p residuals in
      if is_finite (residual_arcsinh r.predicted_raw r.actual_raw) && p r.utc_hour
      then residual_arcsinh r.predicted_raw r.actual_raw ∷ rest
      else rest

  abbrev pub hour_offsets : DeriveOptions F → List F → Option (BandOffsets F)
  hour_offsets opts bucket =
      if is_empty bucket || ltb (length bucket) opts.min_hour_samples
      then none
      else offsets_from_residuals bucket opts.nominal_coverage

  unfoldable pub derive_band_offsets : List (HorizonResidual F) → DeriveOptions F → DerivedOffsets F
  derive_band_offsets residuals opts = record {
    offsets_by_hour =
        map (λ hour. hour_offsets opts (finite_residuals (λ h. h == hour) residuals))
          (hours_from 24 0);
    global_offsets =
        offsets_from_residuals (finite_residuals (λ h. true) residuals) opts.nominal_coverage;
  }

  abbrev pub band_of : F → BandOffsets F → SpotBand F
  band_of point_raw offsets = record {
    low = round3 (js_min (sinh (add (asinh point_raw) offsets.low_offset)) point_raw);
    high = round3 (js_max (sinh (add (asinh point_raw) offsets.high_offset)) point_raw);
  }

  abbrev pub band_with : F → Option (BandOffsets F) → Option (SpotBand F)
  band_with point_raw none = none
  band_with point_raw (some offsets) = some (band_of point_raw offsets)

  unfoldable pub apply_band : F → ℕ → CalibratedBands F → Option (SpotBand F)
  apply_band point_raw utc_hour bands =
      if not bands.calibrated
      then none
      else band_with point_raw
          (offsets_for_hour utc_hour bands.offsets_by_hour bands.global_offsets)

  -- The counts of the covered and of the scored residuals.
  abbrev pub score : HorizonResidual F → Option (BandOffsets F) → ℕ × ℕ → ℕ × ℕ
  score r none (covered, scored) = (covered, scored)
  score r (some offsets) (covered, scored) =
      let low = sinh (add (asinh r.predicted_raw) offsets.low_offset) in
      let high = sinh (add (asinh r.predicted_raw) offsets.high_offset) in
      if le low r.actual_raw && le r.actual_raw high
      then (covered + 1, scored + 1)
      else (covered, scored + 1)

  abbrev pub score_all :
      List (HorizonResidual F) → HourOffsets F → Option (BandOffsets F) → ℕ × ℕ → ℕ × ℕ
  score_all [] offsets_by_hour global_offsets counts = counts
  score_all (r ∷ residuals) offsets_by_hour global_offsets counts =
      score_all residuals offsets_by_hour global_offsets
        (score r (offsets_for_hour r.utc_hour offsets_by_hour global_offsets) counts)

  abbrev pub coverage_of : ℕ × ℕ → F
  coverage_of (covered, scored) =
      if scored == 0 then number 0 else div (count_f64 covered) (count_f64 scored)

  -- Without residuals the loop scores none.
  unfoldable pub observed_coverage_of :
      List (HorizonResidual F) → HourOffsets F → Option (BandOffsets F) → F
  observed_coverage_of residuals offsets_by_hour global_offsets =
      if is_empty residuals
      then number 0
      else coverage_of (score_all residuals offsets_by_hour global_offsets (0, 0))

  abbrev pub gated : DerivedOffsets F → F → String → CalibratedBands F
  gated derived observed_coverage generated_at =
      if is_none derived.global_offsets && all is_none derived.offsets_by_hour
      then uncalibrated_bands
      else if lt observed_coverage coverage_gate_threshold
      then record uncalibrated_bands { observed_coverage = some observed_coverage }
      else record {
        nominal_coverage = nominal_coverage_value;
        observed_coverage = some observed_coverage;
        calibrated = true;
        offsets_by_hour = derived.offsets_by_hour;
        global_offsets = derived.global_offsets;
        generated_at = generated_at;
      }

  unfoldable pub build_artifact : List (HorizonResidual F) → String → CalibratedBands F
  unfolding derive_band_offsets observed_coverage_of
  build_artifact residuals generated_at =
      let options : DeriveOptions F = record {
        nominal_coverage = nominal_coverage_value;
        min_hour_samples = min_hour_calibration_samples;
      } in
      let derived = derive_band_offsets residuals options in
      if ltb (length residuals) min_total_calibration_samples
      then uncalibrated_bands
      else gated derived
          (observed_coverage_of residuals derived.offsets_by_hour derived.global_offsets)
          generated_at
