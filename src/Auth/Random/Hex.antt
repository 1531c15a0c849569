-- ===== src/Auth/Random/Hex.antt =====
-- Hexadecimal texts and their bytes.
use spot_price.Prelude.{
  ℕ, ◌+◌, ◌*◌, ◌/◌, ◌%◌, ◌<◌, some, List, [], ◌∷◌, All, length, ◌≡◌, refl, ap, arith,
}
use spot_price.Auth.Random.{hex, hex_digit, hex_value, from_pairs, from_hex}

abbrev pub AreBytes : List ℕ → Type 0
AreBytes bytes = All (λ byte. byte < 256) bytes

hex_value-digit : (n : ℕ) → n < 16 → hex_value (hex_digit n) ≡ some n
hex_value-digit n h = ground arith

pub length-hex : (bytes : List ℕ) → length (hex bytes) ≡ length bytes * 2
length-hex [] = refl
length-hex (byte ∷ bytes) = omega (arith, length-hex bytes)

from_pairs-hex : (bytes : List ℕ) → AreBytes bytes → from_pairs (hex bytes) ≡ some bytes
from_pairs-hex [] h = refl
from_pairs-hex (byte ∷ bytes) (b, h) =
    let high = hex_value-digit (byte / 16) (omega arith) in
    let low = hex_value-digit (byte % 16) (omega arith) in
    let whole : byte / 16 * 16 + byte % 16 ≡ byte = omega arith in
    rw high (rw low (rw (from_pairs-hex bytes h) (ap (λ x. some (x ∷ bytes)) whole)))

-- The text of bytes is read back as those bytes.
pub from_hex-hex :
    (bytes : List ℕ) → AreBytes bytes → from_hex (length bytes) (hex bytes) ≡ some bytes
unfolding from_hex
from_hex-hex bytes h = rw (length-hex bytes) (ground (arith, from_pairs-hex bytes h))
