-- ===== src/Forecast/Series.antt =====
-- `crates/domain/src/forecast/series.rs`: buckets, gap fill, fit, profile, shape, clamp and points.
pub mod Buckets
pub mod Gaps
pub mod Fit
pub mod Profile
pub mod Shape
pub mod Sanity
pub mod Predicted
mod Examples
use spot_price.Prelude.{ℕ, ◌+◌, Bool, true, false, Option, none, some, ◌||◌, if◌then◌else◌}
use spot_price.Float.{Double, number}
use spot_price.Forecast.Numbers.{count_f64}

module _ {F : Type 0} ⦃d : Double F⦄ where
  open d use {add, div}

  -- A sum with the count of its values.
  abbrev pub tally : F → F × ℕ → F × ℕ
  tally value (sum, count) = (add sum value, count + 1)

  abbrev pub no_tally : F × ℕ
  no_tally = (number 0, 0)

  abbrev pub mean : F × ℕ → F
  mean (sum, count) = div sum (count_f64 count)
