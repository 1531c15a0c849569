-- ===== src/Query/Numbers.antt =====
-- The number rules of `crates/domain/src/query.rs`.
use spot_price.Prelude.{ℕ, not, ◌&&◌, ◌||◌, Option, none, some, List, [], ◌∷◌, ◌++◌, if◌then◌else◌}
use spot_price.Prelude.Int.{pos_part}
use spot_price.Float.{Double, Conversions, number}
use spot_price.Query.{
  Field, Issue, issue, not_a_number, not_finite, not_an_integer, above_safe_integer,
  below_safe_integer, too_small, too_big, max_safe_integer,
}

module _ {F : Type 0} ⦃d : Double F⦄ where
  open d use {neg, fract, lt, le, eq, is_nan, is_finite}

  abbrev pub above : Field → F → Option ℕ → List Issue
  above field value none = []
  above field value (some max) =
      if lt (number max) value then issue field (too_big max) ∷ [] else []

  -- The issues of a number that must be finite and in `min..=max`.
  unfoldable pub number_issues : Field → F → ℕ → Option ℕ → List Issue
  number_issues field value min max =
      let below = if lt value (number min) then issue field (too_small min) ∷ [] else [] in
      if is_nan value
      then issue field not_a_number ∷ []
      else if not (is_finite value)
      then issue field not_finite ∷ []
      else below ++ above field value max

  -- The issues of a number that must be a whole number in `min..=max`.
  unfoldable pub integer_issues : Field → F → ℕ → ℕ → List Issue
  unfolding number_issues
  integer_issues field value min max =
      let unsafe =
        if lt (number max_safe_integer) value
        then issue field above_safe_integer ∷ []
        else if lt value (neg (number max_safe_integer))
        then issue field below_safe_integer ∷ []
        else [] in
      let issues = number_issues field value min (some max) in
      if not (is_finite value)
      then issues
      else if not (eq (fract value) (number 0))
      then issue field not_an_integer ∷ []
      else unsafe ++ issues

  -- A whole number that `integer_issues` accepted for `0..=max`.
  unfoldable pub small_integer : ⦃v : Conversions F⦄ → F → Option ℕ
  small_integer ⦃v⦄ value =
      let inside = le (number 0) value && le value (number 4_294_967_295) in
      if not (eq (fract value) (number 0)) || not inside
      then none
      else some (pos_part (v.to_i64 value))
