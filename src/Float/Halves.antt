-- ===== src/Float/Halves.antt =====
-- A type of numbers that meets the laws: whole multiples of one half, with the three special values.
-- Products and quotients are rounded down to a multiple of one half.
use native.Mathlib.Nat.{le-div_iff_mul-le, div-mul-le_self, le_trans, le_refl, mul-le-mul}
use spot_price.Prelude.{
  Option, some, none, List, [], ◌∷◌, if◌then◌else◌, leb, ◌==◌, ◌+◌, ◌-◌, ◌^◌, ℕ, suc, ◌*◌, ◌/◌, ◌≤◌,
  ◌≡◌, Bool, true, false, not, arith, ◌&&◌,
}
use spot_price.Prelude.Int.{
  div_trunc, unsigned_abs, ℤ, pos, negsuc, ◌+ℤ◌, ◌-ℤ◌, ◌*ℤ◌, ◌≤ℤ◌, leb_ℤ, div_euclid, rem_euclid,
  +ℤ_mono, -ℤ_parts,
}
use spot_price.Float.{Conversions, Double, IsOrdered, IsMonotone, IsFloored, IsConverted, IsSigned}

pub data Num : Type 0 where
  nan : Num
  neg_inf : Num
  fin : ℤ → Num
  inf : Num

abbrev halves_le : Num → Num → Bool
halves_le nan _ = false
halves_le neg_inf nan = false
halves_le neg_inf _ = true
halves_le (fin a) (fin b) = leb_ℤ a b
halves_le (fin a) inf = true
halves_le (fin a) _ = false
halves_le inf inf = true
halves_le inf _ = false

abbrev halves_nan : Num → Bool
halves_nan nan = true
halves_nan _ = false

abbrev halves_lt : Num → Num → Bool
halves_lt a b = not (halves_nan a) && not (halves_nan b) && not (halves_le b a)

abbrev halves_add : Num → Num → Num
halves_add (fin a) (fin b) = fin (a +ℤ b)
halves_add inf (fin b) = inf
halves_add neg_inf (fin b) = neg_inf
halves_add (fin a) inf = inf
halves_add inf inf = inf
halves_add (fin a) neg_inf = neg_inf
halves_add neg_inf neg_inf = neg_inf
halves_add _ _ = nan

abbrev halves_neg : Num → Num
halves_neg (fin a) = fin (pos 0 -ℤ a)
halves_neg inf = neg_inf
halves_neg neg_inf = inf
halves_neg nan = nan

-- a product with a positive number keeps an infinity
abbrev halves_mul : Num → Num → Num
halves_mul (fin a) (fin b) = fin (div_euclid (a *ℤ b) 2)
halves_mul inf (fin (pos (suc b))) = inf
halves_mul neg_inf (fin (pos (suc b))) = neg_inf
halves_mul (fin (pos a)) inf = if a == 0 then nan else inf
halves_mul _ _ = nan

abbrev halves_div : Num → Num → Num
halves_div (fin a) (fin (pos (suc b))) = fin (div_euclid (a *ℤ pos 2) (suc b))
halves_div inf (fin (pos (suc b))) = inf
halves_div neg_inf (fin (pos (suc b))) = neg_inf
halves_div _ _ = nan

abbrev halves_floor : Num → Num
halves_floor (fin a) = fin (div_euclid a 2 *ℤ pos 2)
halves_floor x = x

abbrev halves_fract : Num → Num
halves_fract (fin a) = fin (pos (rem_euclid a 2))
halves_fract _ = nan

abbrev halves_finite : Num → Bool
halves_finite (fin a) = true
halves_finite _ = false

abbrev halves_negative : Num → Bool
halves_negative (fin (negsuc n)) = true
halves_negative neg_inf = true
halves_negative _ = false

instance abbrev pub halves : Double Num
halves = record {
  lit = λ n. fin (n *ℤ pos 2);
  half = fin (pos 1);
  infinity = inf;
  neg_infinity = neg_inf;
  nan = nan;
  neg = halves_neg;
  add = halves_add;
  sub = λ a b. halves_add a (halves_neg b);
  mul = halves_mul;
  div = halves_div;
  floor = halves_floor;
  fract = halves_fract;
  lt = halves_lt;
  le = halves_le;
  eq = λ a b. halves_le a b && halves_le b a;
  is_nan = halves_nan;
  is_finite = halves_finite;
  is_sign_negative = halves_negative;
}

-- the value of decimal digits
abbrev parse_digits : ℕ → List ℕ → Option Num
parse_digits n [] = some (fin (pos (2 * n)))
parse_digits n (c ∷ cs) =
    let rest = parse_digits (n * 10 + (c - 48)) cs in if leb 48 c && leb c 57 then rest else none

abbrev halves_i64 : Num → ℤ
halves_i64 (fin a) = div_trunc a 2
halves_i64 _ = pos 0

abbrev halves_trunc : Num → Num
halves_trunc (fin a) = fin (div_trunc a 2 *ℤ pos 2)
halves_trunc x = x

abbrev halves_abs : Num → Num
halves_abs (fin a) = fin (pos (unsigned_abs a))
halves_abs neg_inf = inf
halves_abs x = x

abbrev halves_rem : Num → Num → Num
halves_rem (fin a) (fin (pos (suc b))) = fin (pos (rem_euclid a (suc b)))
halves_rem _ _ = nan

instance abbrev pub halves_conversions : Conversions Num
halves_conversions = record {
  parse = parse_digits 0;
  from_bits = λ n. fin (pos (2 ^ (n / 2 ^ 52 - 1023) * 2));
  trunc = halves_trunc;
  abs = halves_abs;
  rem_euclid = halves_rem;
  to_i64 = halves_i64;
}

pub halves-IsOrdered : IsOrdered Num
unfolding ◌*ℤ◌
halves-IsOrdered = record {
  le_refl = ground arith;
  le_trans = ground arith;
  le_num = ground arith;
  le_total = ground arith;
  lt-eq = ground arith;
  lt_num = ground arith;
  le_of_eq = ground arith;
  finite_num = ground arith;
  lit_finite = ground arith;
  infinity_num = ground arith;
  neg_infinity_num = ground arith;
}

-- Division by a positive number and multiplication by one are monotone on the integers.
div_mono : (a b k : ℕ) → a ≤ b → a / suc k ≤ b / suc k
div_mono a b k h =
    (le-div_iff_mul-le {k = suc k} (omega arith)).1 (le_trans (div-mul-le_self a (suc k)) h)

div_euclid_mono : (a b : ℤ) (k : ℕ) → a ≤ℤ b → div_euclid a (suc k) ≤ℤ div_euclid b (suc k)
unfolding div_euclid
div_euclid_mono (pos a) (pos b) k h = omega (arith, div_mono a b k (omega arith))
div_euclid_mono (pos a) (negsuc b) k h = absurd (omega arith)
div_euclid_mono (negsuc a) (pos b) k h = omega arith
div_euclid_mono (negsuc a) (negsuc b) k h = omega (arith, div_mono b a k (omega arith))

mul_mono : (a b k : ℕ) → a ≤ b → a * k ≤ b * k
mul_mono a b k h = mul-le-mul h (le_refl k)

mul_pos_mono : (a b : ℤ) (k : ℕ) → a ≤ℤ b → a *ℤ pos k ≤ℤ b *ℤ pos k
unfolding ◌*ℤ◌
mul_pos_mono (pos a) (pos b) k h = ground (arith, mul_mono a b k)
mul_pos_mono (pos a) (negsuc b) k h = absurd (omega arith)
mul_pos_mono (negsuc a) (pos b) k h = ground arith
mul_pos_mono (negsuc a) (negsuc b) k h = ground (arith, mul_mono (suc b) (suc a) k)

halves_mul_mono :
    (x y c : Num)
    → halves_le x y ≡ true
    → halves_lt (fin (pos 0)) c ≡ true
    → halves_finite c ≡ true
    → halves_le (halves_mul x c) (halves_mul y c) ≡ true
halves_mul_mono (fin a) (fin b) (fin (pos (suc k))) h p q =
    ground
      (arith, div_euclid_mono (a *ℤ pos (suc k)) (b *ℤ pos (suc k)) 1, mul_pos_mono a b (suc k))
halves_mul_mono x y c h p q = ground arith

halves_div_mono :
    (x y c : Num)
    → halves_le x y ≡ true
    → halves_lt (fin (pos 0)) c ≡ true
    → halves_finite c ≡ true
    → halves_le (halves_div x c) (halves_div y c) ≡ true
halves_div_mono (fin a) (fin b) (fin (pos (suc k))) h p q =
    ground (arith, div_euclid_mono (a *ℤ pos 2) (b *ℤ pos 2) k, mul_pos_mono a b 2)
halves_div_mono x y c h p q = ground arith

halves_add_mono :
    (x y a b : Num)
    → halves_le x y ≡ true
    → halves_le a b ≡ true
    → halves_finite a ≡ true
    → halves_finite b ≡ true
    → halves_le (halves_add x a) (halves_add y b) ≡ true
halves_add_mono (fin x) (fin y) (fin a) (fin b) h k p q = ground (arith, +ℤ_mono x y a b)
halves_add_mono x y a b h k p q = ground arith

halves_neg_mono :
    (x y : Num) → halves_le x y ≡ true → halves_le (halves_neg y) (halves_neg x) ≡ true
halves_neg_mono (fin x) (fin y) h = ground (arith, -ℤ_parts (pos 0) x, -ℤ_parts (pos 0) y)
halves_neg_mono x y h = ground arith

pub halves-IsMonotone : IsMonotone Num
unfolding ◌*ℤ◌
halves-IsMonotone = record {
  add_mono = λ x y c h p. halves_add_mono x y c c h (ground arith) p p;
  mul_mono = halves_mul_mono;
  div_mono = halves_div_mono;
  sub_mono = λ x y a b h k p q.
      halves_add_mono x y (halves_neg a) (halves_neg b) h (halves_neg_mono b a k) (ground arith)
        (ground arith);
  lit_pos = ground arith;
}

halves_mul_nonneg :
    (n : ℕ) (x : Num)
    → halves_le (fin (pos 0)) x ≡ true
    → halves_le (fin (pos 0)) (halves_mul (fin (pos (n + 1) *ℤ pos 2)) x) ≡ true
unfolding ◌*ℤ◌ div_euclid
halves_mul_nonneg n (fin (pos a)) h = ground arith
halves_mul_nonneg n (fin (negsuc a)) h = ground arith
halves_mul_nonneg n inf h = ground arith
halves_mul_nonneg n nan h = ground arith
halves_mul_nonneg n neg_inf h = ground arith

pub halves-IsSigned : IsSigned Num
unfolding ◌*ℤ◌ ◌+ℤ◌ ◌-ℤ◌ div_euclid
halves-IsSigned = record {
  sub_nonneg = ground arith;
  mul_nonneg = halves_mul_nonneg;
  sub_le = ground arith;
  le_add = ground arith;
  neg_finite = ground arith;
}

pub halves-IsFloored : IsFloored Num
unfolding div_euclid rem_euclid ◌*ℤ◌ ◌+ℤ◌ ◌-ℤ◌
halves-IsFloored = record {
  floor_le = ground arith;
  floor_finite = ground arith;
  floor_whole = ground arith;
  le_floor = ground arith;
  whole_of_le_floor = ground arith;
  whole_step = ground arith;
  le_succ = ground arith;
  least = ground arith;
  greatest = ground arith;
  zero_eq_neg = ground arith;
}

div_trunc_mono : (a b : ℤ) → a ≤ℤ b → div_trunc a 2 ≤ℤ div_trunc b 2
unfolding div_trunc
div_trunc_mono a b h = ground arith

to_i64-le :
    (x y : Num)
    → halves_finite x ≡ true
    → halves_finite y ≡ true
    → halves_le x y ≡ true
    → halves_i64 x ≤ℤ halves_i64 y
to_i64-le (fin a) (fin b) p q h = div_trunc_mono a b (ground arith)
to_i64-le (fin a) nan p q h = ground arith
to_i64-le (fin a) inf p q h = ground arith
to_i64-le (fin a) neg_inf p q h = ground arith
to_i64-le nan y p q h = ground arith
to_i64-le inf y p q h = ground arith
to_i64-le neg_inf y p q h = ground arith

pub halves-IsConverted : IsConverted Num
unfolding ◌*ℤ◌ div_trunc
halves-IsConverted = record {
  to_i64_mono = λ x y p q h. to_i64-le x y p q h;
  to_i64_lit = λ n h. ground arith;
  lit_mono = λ m n h. ground arith;
}
