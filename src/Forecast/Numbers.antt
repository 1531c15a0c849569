-- ===== src/Forecast/Numbers.antt =====
-- `crates/domain/src/forecast/js.rs`: the least and the greatest of two numbers, and counts.
pub mod Order
use spot_price.Prelude.{ℕ, ◌||◌, if◌then◌else◌}
use spot_price.Float.{Double, number}

module _ {F : Type 0} ⦃d : Double F⦄ where
  open d use {lt, is_nan, nan, is_sign_negative}

  -- `count_f64`; the counts are far below 2^53.
  abbrev pub count_f64 : ℕ → F
  count_f64 count = number count

  -- `Math.min`.
  unfoldable pub js_min : F → F → F
  js_min a b =
      if is_nan a || is_nan b
      then nan
      else if lt a b
      then a
      else if lt b a
      then b
      else if is_sign_negative a
      then a
      else b

  -- `Math.max`; a number that is not NaN is sign-positive when it is not sign-negative.
  unfoldable pub js_max : F → F → F
  js_max a b =
      if is_nan a || is_nan b
      then nan
      else if lt b a
      then a
      else if lt a b
      then b
      else if is_sign_negative a
      then b
      else a
