-- ===== src/Prelude/Text.antt =====
-- Texts as lists of characters' codes, where the program walks or builds them. The code of an ASCII
-- character is its byte.
use Prim.Native.Nat.{ℕ, zero, suc, ◌+◌, ◌/◌, ◌%◌}
use Prim.Native.Char.{code}
use Prim.Native.String.{String}
use mathlib.Core.Bool.{Bool, true, false, ◌&&◌}
use mathlib.Core.Path.{◌≡◌, refl, ap, ◌∙◌}
use native.Mathlib.Omega.{arith}
use mathlib.Core.List.{List, [], ◌∷◌}
use spot_price.Prelude.Tests.{ltb, leb, ◌==◌, if◌then◌else◌}
use spot_price.Prelude.Int.{ℤ, pos, negsuc}

abbrev pub Text : Type 0
Text = List ℕ

abbrev pub codes : String → Text
codes String.[] = []
codes (String.◌∷◌ c s) = code c ∷ codes s

-- `{}` of an unsigned number of at most twenty digits, the longest of a `u64`.
unfoldable pub decimal_digits : ℕ → ℕ → Text → Text
decimal_digits zero n after = after
decimal_digits (suc rounds) n after =
    let text = (48 + n % 10) ∷ after in
    let rest = decimal_digits rounds (n / 10) text in if n / 10 == 0 then text else rest

unfoldable pub decimal : ℕ → Text
unfolding decimal_digits
decimal n = decimal_digits 20 n []

-- `{}` of a signed number.
unfoldable pub decimal_ℤ : ℤ → Text
unfolding decimal
decimal_ℤ (pos n) = decimal n
decimal_ℤ (negsuc n) = b'-' ∷ decimal (suc n)

-- `{:02}` of a number that is not negative.
unfoldable pub padded : ℕ → Text
unfolding decimal
padded n = if ltb n 10 then b'0' ∷ decimal n else decimal n

-- The equality of texts.
abbrev pub text_eq : Text → Text → Bool
text_eq [] [] = true
text_eq [] (d ∷ ds) = false
text_eq (c ∷ cs) [] = false
text_eq (c ∷ cs) (d ∷ ds) = c == d && text_eq cs ds

abbrev pub is_digit : ℕ → Bool
is_digit c = leb b'0' c && leb c b'9'

pub text_eq_refl : (a : Text) → text_eq a a ≡ true
text_eq_refl [] = refl
text_eq_refl (c ∷ cs) = ground (arith, text_eq_refl cs)

pub text_eq_sound : (a b : Text) → text_eq a b ≡ true → a ≡ b
text_eq_sound [] [] h = refl
text_eq_sound [] (d ∷ ds) h = ground arith
text_eq_sound (c ∷ cs) [] h = ground arith
text_eq_sound (c ∷ cs) (d ∷ ds) h =
    let first : c ≡ d = ground (arith, h) in
    let rest = text_eq_sound cs ds (ground (arith, h)) in
    ap (λ x. x ∷ cs) first ∙ ap (λ l. d ∷ l) rest
