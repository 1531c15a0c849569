-- ===== src/Js/Rounding.antt =====
-- Rounding is monotone, so contract terms that are rounded keep the order of the prices.
use spot_price.Prelude.{
  true, false, not, ◌||◌, if◌then◌else◌, ◌≡◌, ◌⊎◌, inl, inr, arith, Bool-cases,
}
use spot_price.Float.{Double, number, ◌≼◌, IsWhole, IsOrdered, IsMonotone, IsFloored}
use spot_price.Js.{math_round, round3, max_zero}

module _ {F : Type 0} ⦃d : Double F⦄ (o : IsOrdered F) (m : IsMonotone F) (w : IsFloored F) where
  open d use {half, neg, add, sub, floor, fract, lt, le, eq, is_nan, is_finite}
  open o use {le_refl, le_trans, le_num, le_total, lt-eq, le_of_eq, finite_num, lit_finite}
  open m use {mul_mono, div_mono, sub_mono, lit_pos}
  open w use {
    floor_le, floor_finite, floor_whole, le_floor, whole_of_le_floor, whole_step, le_succ, least,
    greatest, zero_eq_neg,
  }

  -- the rounding without its last step, which only changes the sign of a zero
  abbrev nearest : F → F
  nearest x = if le half (sub x (floor x)) then add (floor x) (number 1) else floor x

  abbrev IsFractional : F → Type 0
  IsFractional x = (is_finite x ≡ true) × (eq (fract x) (number 0) ≡ false)

  math_round-near :
      (x : F)
      → IsFractional x
      → is_nan (nearest x) ≡ false
      → (math_round x ≼ nearest x) × (nearest x ≼ math_round x)
  unfolding math_round
  math_round-near x (fin, frac) num = ground (
    arith,
    le_of_eq (nearest x) (number 0),
    zero_eq_neg,
    le_refl (nearest x),
    le_trans (neg (number 0)) (number 0) (nearest x),
    le_trans (nearest x) (number 0) (neg (number 0)),
  )

  -- The rounded number is the floor or the next whole number.
  nearest_bounds :
      (x : F) → IsFractional x → (floor x ≼ nearest x) × (nearest x ≼ add (floor x) (number 1))
  nearest_bounds x (fin, frac) =
      let whole = floor_finite x fin in
      ground (
        arith,
        le_succ (floor x) whole,
        le_refl (floor x) (finite_num _ whole),
        le_refl (add (floor x) (number 1)) (le_num _ _ (le_succ (floor x) whole)).1,
      )

  floor_mono : (x y : F) → is_finite x ≡ true → is_finite y ≡ true → x ≼ y → floor x ≼ floor y
  floor_mono x y fx fy h =
      le_floor (floor x) y (floor_whole x fx) fy (le_trans _ _ _ (floor_le x fx) h)

  lt_or_ge : (x y : F) → is_nan x ≡ false → is_nan y ≡ false → (lt x y ≡ true) ⊎ (y ≼ x)
  lt_or_ge x y p q = ground (arith, lt-eq x y p q)

  nearest_mono : (x y : F) → IsFractional x → IsFractional y → x ≼ y → nearest x ≼ nearest y
  nearest_mono x y fx fy h =
      let (lowx, highx) = nearest_bounds x fx in
      let (lowy, highy) = nearest_bounds y fy in
      let step = whole_step (floor x) (floor y) (floor_whole x fx.0) (floor_whole y fy.0) in
      elim (lt_or_ge (floor x) (floor y) (le_num _ _ lowx).0 (le_num _ _ lowy).0) [
        | inl below ↦ le_trans _ _ _ highx (le_trans _ _ _ (step below) lowy)
        | inr same ↦ ground (
          arith,
          sub_mono x y (floor x) (floor y) h same (floor_finite x fx.0) (floor_finite y fy.0),
          le_trans half (sub x (floor x)) (sub y (floor y)),
          m.add_mono (floor x) (floor y) (number 1) (floor_mono x y fx.0 fy.0 h) (lit_finite _),
          floor_mono x y fx.0 fy.0 h,
          le_trans _ _ _ (floor_mono x y fx.0 fy.0 h) (le_succ (floor y) (floor_finite y fy.0)),
        )
      ]

  -- a number that rounding leaves as it is
  abbrev IsFixed : F → Type 0
  IsFixed x = (not (is_finite x) || eq (fract x) (number 0)) ≡ true

  rounding_cases : (x : F) → IsFixed x ⊎ IsFractional x
  rounding_cases x = ground arith

  math_round_fixed : (x : F) → IsFixed x → math_round x ≡ x
  unfolding math_round
  math_round_fixed x h = rw h

  nearest_num : (x : F) → IsFractional x → is_nan (nearest x) ≡ false
  nearest_num x fx = (le_num _ _ (nearest_bounds x fx).0).1

  nearest-fixed : (x y : F) → IsFractional x → IsFixed y → x ≼ y → nearest x ≼ y
  nearest-fixed x y fx fy h = elim (Bool-cases (is_finite y)) [
    | inl fin ↦
        let whole : IsWhole y = ground arith in
        let (low, high) = nearest_bounds x fx in
        elim (lt_or_ge (floor x) y (le_num _ _ low).0 (finite_num y fin)) [
          | inl below ↦
              le_trans _ _ _ high (whole_step (floor x) y (floor_whole x fx.0) whole below)
          | inr above ↦ cc (fx.1, whole_of_le_floor x fx.0 (le_trans _ _ _ h above))
        ]
    | inr infinite ↦ greatest x y (nearest x) infinite h fx.0 (nearest_num x fx)
  ]

  fixed-nearest : (x y : F) → IsFixed x → IsFractional y → x ≼ y → x ≼ nearest y
  fixed-nearest x y fx fy h = elim (Bool-cases (is_finite x)) [
    | inl fin ↦
        let whole : IsWhole x = ground arith in
        le_trans _ _ _ (le_floor x y whole fy.0 h) (nearest_bounds y fy).0
    | inr infinite ↦ least x y (nearest y) infinite h fy.0 (nearest_num y fy)
  ]

  -- `Math.round` keeps the order of its arguments, whatever they are: whole, fractional or infinite.
  -- Addition is monotone and `floor` is the greatest whole number below, as in IEEE 754.
  pub math_round_mono : (x y : F) → x ≼ y → math_round x ≼ math_round y
  math_round_mono x y h =
      let fixed = λ (z : F) (p : IsFixed z). math_round_fixed z p in
      let near = λ (z : F) (p : IsFractional z). math_round-near z p (nearest_num z p) in
      elim (rounding_cases x) [
        | inl p ↦ elim (rounding_cases y) [
          | inl q ↦ rw (fixed x p, fixed y q) h
          | inr q ↦ rw (fixed x p) (le_trans _ _ _ (fixed-nearest x y p q h) (near y q).1)
        ]
        | inr p ↦ elim (rounding_cases y) [
          | inl q ↦ rw (fixed y q) (le_trans _ _ _ (near x p).0 (nearest-fixed x y p q h))
          | inr q ↦
              le_trans _ _ _ (near x p).0 (le_trans _ _ _ (nearest_mono x y p q h) (near y q).1)
        ]
      ]

  -- Rounding to three decimals keeps the order.
  pub round3_mono : (x y : F) → x ≼ y → round3 x ≼ round3 y
  unfolding round3
  round3_mono x y h =
      let thousand = lit_pos 999 in
      let scaled = mul_mono x y (number 1000) h thousand (lit_finite _) in
      div_mono _ _ (number 1000) (math_round_mono _ _ scaled) thousand (lit_finite _)

  -- The floor at zero keeps the order, and nothing is below it.
  pub max_zero_mono :
      (x y : F) → x ≼ y → (max_zero x ≼ max_zero y) × (max_zero (number 0) ≼ max_zero x)
  unfolding max_zero
  max_zero_mono x y h =
      let zero_num = finite_num (number 0) (lit_finite _) in
      let (numx, numy) = le_num x y h in
      ground (
        arith,
        lt-eq (number 0) x zero_num numx,
        lt-eq (number 0) y zero_num numy,
        le_refl (number 0) zero_num,
        le_total x (number 0) numx zero_num,
        le_total y (number 0) numy zero_num,
        le_trans x y (number 0) h,
      )
