-- ===== src/Forecast/Conformal/Examples.antt =====
-- Runs of the bands on a calibration month.
use spot_price.Prelude.{ℕ, zero, suc, ◌/◌, true, List, [], ◌∷◌, ◌≡◌, refl, arith}
use spot_price.Prelude.Int.{pos, ◌+ℤ◌, ◌-ℤ◌, ◌*ℤ◌, div_euclid, rem_euclid, div_trunc}
use spot_price.Float.Halves.{
  Num, fin, inf, halves, halves-IsOrdered, halves-IsMonotone, halves-IsFloored,
}
use spot_price.Js.{round3}
use spot_price.Forecast.Conformal.{
  Hyperbolic, HorizonResidual, CalibratedBands, residual_arcsinh, offsets_from_residuals,
  build_artifact, apply_band,
}
use spot_price.Forecast.Conformal.Artifact.{IsArtifact, build_artifact-IsArtifact}
use spot_price.Forecast.Conformal.Bands.{IsHyperbolic, Holds, apply_band-Holds}

abbrev ceil_halves : Num → Num
ceil_halves (fin a) = fin (pos 0 -ℤ div_euclid (pos 0 -ℤ a) 2 *ℤ pos 2)
ceil_halves x = x

abbrev whole : Num → ℕ
whole (fin (pos a)) = a / 2
whole inf = 18_446_744_073_709_551_615
whole _ = 0

-- linear in place of hyperbolic
instance abbrev linear : Hyperbolic Num
linear = record { asinh = λ x. x; sinh = λ x. x; ceil = ceil_halves; to_usize = whole }

linear-IsHyperbolic : IsHyperbolic Num
linear-IsHyperbolic = record {
  asinh_finite = λ x h. h;
  sinh_num = λ x h. h;
  add_num = ground arith;
}

-- residuals of one cent, at three in the morning
abbrev month : ℕ → List (HorizonResidual Num)
month zero = []
month (suc n) =
    record { utc_hour = 3; predicted_raw = fin (pos 20); actual_raw = fin (pos 22) } ∷ month n

abbrev bands : CalibratedBands Num
bands = build_artifact (month 96) "2026-01-01T00:00:00Z"

test-calibrated : (build_artifact (month 96) "2026-01-01T00:00:00Z").calibrated ≡ true
unfolding build_artifact offsets_from_residuals residual_arcsinh div_euclid rem_euclid ◌+ℤ◌ ◌-ℤ◌
    ◌*ℤ◌ div_trunc
test-calibrated = refl

build_artifact-IsArtifact_example : IsArtifact (build_artifact (month 96) "2026-01-01T00:00:00Z")
build_artifact-IsArtifact_example =
    build_artifact-IsArtifact halves-IsOrdered (month 96) "2026-01-01T00:00:00Z"

apply_band-Holds_example :
    Holds halves-IsOrdered halves-IsMonotone halves-IsFloored linear-IsHyperbolic
      (fin (pos 40))
      (record { low = fin (pos 40); high = fin (pos 42) })
unfolding apply_band build_artifact offsets_from_residuals residual_arcsinh round3 div_euclid
    rem_euclid ◌+ℤ◌ ◌-ℤ◌ ◌*ℤ◌ div_trunc
apply_band-Holds_example =
    apply_band-Holds halves-IsOrdered halves-IsMonotone halves-IsFloored linear-IsHyperbolic
      (fin (pos 40)) 4 bands (record { low = fin (pos 40); high = fin (pos 42) }) refl
      (build_artifact-IsArtifact halves-IsOrdered (month 96) "2026-01-01T00:00:00Z") refl
