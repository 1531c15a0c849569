-- ===== src/Js.antt =====
-- `crates/domain/src/js.rs`: the JavaScript number semantics that the API keeps. The text functions
-- of that file stand in `Js/Text`.
pub mod Rounding
pub mod Numerals
mod Examples
use spot_price.Prelude.{Bool, true, false, not, ◌&&◌, ◌||◌, if◌then◌else◌}
use spot_price.Float.{Double, number}

module _ {F : Type 0} ⦃d : Double F⦄ where
  open d use {half, neg, add, sub, mul, div, floor, fract, lt, le, eq, is_nan, is_finite}

  -- `Math.round`: the nearest whole number, and a tie goes up.
  unfoldable pub math_round : F → F
  math_round x =
      if not (is_finite x) || eq (fract x) (number 0)
      then x
      else let low = floor x in
        let rounded = if le half (sub x low) then add low (number 1) else low in
        if eq rounded (number 0) && lt x (number 0) then neg (number 0) else rounded

  -- `Math.round(x * 1000) / 1000`.
  unfoldable pub round3 : F → F
  unfolding math_round
  round3 x = div (math_round (mul x (number 1000))) (number 1000)

  -- `Math.max(0, x)`.
  unfoldable pub max_zero : F → F
  max_zero x = if lt (number 0) x || is_nan x then x else number 0
