-- ===== src/Float.antt =====
-- What the program does with an `f64`. The type is a parameter: the laws below are those of IEEE 754
-- with rounding to nearest, and each theorem names the ones that it needs.
pub mod Halves
use spot_price.Prelude.{◌<◌, ◌≤◌, ◌^◌, List, Option, ℕ, ◌+◌, Bool, true, false, not, ◌≡◌, ◌⊎◌}
use spot_price.Prelude.Int.{ℤ, pos, ◌≤ℤ◌}

pub record Double (F : Type 0) : Type 0 where
  -- a whole number of less than 2^53, as a literal or by a cast
  pub lit : ℤ → F
  pub half : F
  pub infinity : F
  pub neg_infinity : F
  pub nan : F
  pub neg : F → F
  pub add : F → F → F
  pub sub : F → F → F
  pub mul : F → F → F
  pub div : F → F → F
  pub floor : F → F
  pub fract : F → F
  -- `<`, `<=` and `==`, which are false at a NaN
  pub lt : F → F → Bool
  pub le : F → F → Bool
  pub eq : F → F → Bool
  pub is_nan : F → Bool
  pub is_finite : F → Bool
  pub is_sign_negative : F → Bool

-- The conversions between an `f64` and texts, bits and integers.
pub record Conversions (F : Type 0) : Type 0 where
  -- `str::parse::<f64>`
  pub parse : List ℕ → Option F
  pub from_bits : ℕ → F
  pub trunc : F → F
  pub abs : F → F
  pub rem_euclid : F → F → F
  -- `as i64`
  pub to_i64 : F → ℤ

module _ {F : Type 0} ⦃d : Double F⦄ where
  open d use {lit, half, infinity, neg_infinity, neg, add, sub, mul, div, floor, fract, lt, le, eq}
  open d use {is_nan, is_finite}

  abbrev pub number : ℕ → F
  number n = lit (pos n)

  infix 4 ◌≼◌
  abbrev pub ◌≼◌ : F → F → Type 0
  x ≼ y = le x y ≡ true

  -- a finite number without a fraction
  abbrev pub IsWhole : F → Type 0
  IsWhole x = eq (fract x) (number 0) ≡ true

-- The order is total away from NaN.
pub record IsOrdered (F : Type 0) ⦃d : Double F⦄ : Type 0 where
  pub le_refl : (x : F) → d.is_nan x ≡ false → x ≼ x
  pub le_trans : (x y z : F) → x ≼ y → y ≼ z → x ≼ z
  pub le_num : (x y : F) → x ≼ y → (d.is_nan x ≡ false) × (d.is_nan y ≡ false)
  pub le_total : (x y : F) → d.is_nan x ≡ false → d.is_nan y ≡ false → (x ≼ y) ⊎ (y ≼ x)
  pub lt-eq : (x y : F) → d.is_nan x ≡ false → d.is_nan y ≡ false → d.lt x y ≡ not (d.le y x)
  pub lt_num : (x y : F) → d.lt x y ≡ true → (d.is_nan x ≡ false) × (d.is_nan y ≡ false)
  pub le_of_eq : (x y : F) → d.eq x y ≡ true → (x ≼ y) × (y ≼ x)
  pub finite_num : (x : F) → d.is_finite x ≡ true → d.is_nan x ≡ false
  pub lit_finite : (n : ℤ) → d.is_finite (d.lit n) ≡ true
  pub infinity_num : d.is_nan d.infinity ≡ false
  pub neg_infinity_num : d.is_nan d.neg_infinity ≡ false

-- Arithmetic is monotone, overflow to an infinity included.
pub record IsMonotone (F : Type 0) ⦃d : Double F⦄ : Type 0 where
  pub add_mono : (x y c : F) → x ≼ y → d.is_finite c ≡ true → d.add x c ≼ d.add y c
  pub mul_mono :
      (x y c : F)
      → x ≼ y
      → d.lt (d.lit (pos 0)) c ≡ true
      → d.is_finite c ≡ true
      → d.mul x c ≼ d.mul y c
  pub div_mono :
      (x y c : F)
      → x ≼ y
      → d.lt (d.lit (pos 0)) c ≡ true
      → d.is_finite c ≡ true
      → d.div x c ≼ d.div y c
  pub sub_mono :
      (x y a b : F)
      → x ≼ y
      → b ≼ a
      → d.is_finite a ≡ true
      → d.is_finite b ≡ true
      → d.sub x a ≼ d.sub y b
  pub lit_pos : (n : ℕ) → d.lt (d.lit (pos 0)) (d.lit (pos (n + 1))) ≡ true

-- What a difference, a product, a sum and a negation do with the sign.
pub record IsSigned (F : Type 0) ⦃d : Double F⦄ : Type 0 where
  pub sub_nonneg :
      (x y : F) → d.is_finite x ≡ true → d.is_finite y ≡ true → x ≼ y → d.lit (pos 0) ≼ d.sub y x
  pub mul_nonneg :
      (n : ℕ) (x : F) → d.lit (pos 0) ≼ x → d.lit (pos 0) ≼ d.mul (d.lit (pos (n + 1))) x
  pub sub_le : (x c : F) → d.is_finite x ≡ true → d.lit (pos 0) ≼ c → d.sub x c ≼ x
  pub le_add : (x c : F) → d.is_finite x ≡ true → d.lit (pos 0) ≼ c → x ≼ d.add x c
  pub neg_finite : (x : F) → d.is_finite x ≡ true → d.is_finite (d.neg x) ≡ true

-- `floor` is the greatest whole number that is not above its argument.
pub record IsFloored (F : Type 0) ⦃d : Double F⦄ : Type 0 where
  pub floor_le : (x : F) → d.is_finite x ≡ true → d.floor x ≼ x
  pub floor_finite : (x : F) → d.is_finite x ≡ true → d.is_finite (d.floor x) ≡ true
  pub floor_whole : (x : F) → d.is_finite x ≡ true → IsWhole (d.floor x)
  pub le_floor : (n x : F) → IsWhole n → d.is_finite x ≡ true → n ≼ x → n ≼ d.floor x
  pub whole_of_le_floor : (x : F) → d.is_finite x ≡ true → x ≼ d.floor x → IsWhole x
  -- no whole number stands between two neighbours
  pub whole_step : (m n : F) → IsWhole m → IsWhole n → d.lt m n ≡ true → d.add m (d.lit (pos 1)) ≼ n
  pub le_succ : (x : F) → d.is_finite x ≡ true → x ≼ d.add x (d.lit (pos 1))
  -- an infinity below a finite number is below every number, and the other way round
  pub least :
      (x y z : F)
      → d.is_finite x ≡ false
      → x ≼ y
      → d.is_finite y ≡ true
      → d.is_nan z ≡ false
      → x ≼ z
  pub greatest :
      (x y z : F)
      → d.is_finite y ≡ false
      → x ≼ y
      → d.is_finite x ≡ true
      → d.is_nan z ≡ false
      → z ≼ y
  -- the two zeros are equal
  pub zero_eq_neg :
      (d.neg (d.lit (pos 0)) ≼ d.lit (pos 0)) × (d.lit (pos 0) ≼ d.neg (d.lit (pos 0)))

-- The cast to an integer keeps the order and the whole numbers.
pub record IsConverted (F : Type 0) ⦃d : Double F⦄ ⦃v : Conversions F⦄ : Type 0 where
  pub to_i64_mono :
      (x y : F) → d.is_finite x ≡ true → d.is_finite y ≡ true → x ≼ y → v.to_i64 x ≤ℤ v.to_i64 y
  pub to_i64_lit : (n : ℕ) → n < 2 ^ 53 → v.to_i64 (d.lit (pos n)) ≡ pos n
  pub lit_mono : (m n : ℕ) → m ≤ n → d.lit (pos m) ≼ d.lit (pos n)
