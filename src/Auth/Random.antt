-- ===== src/Auth/Random.antt =====
-- `crates/server/src/auth/random.rs`: hexadecimal texts, ids and keys. Random bytes are arguments.
pub mod Hex
pub mod Ids
use spot_price.Prelude.{
  ℕ, ◌+◌, ◌-◌, ◌*◌, ◌/◌, ◌%◌, Bool, true, false, Option, none, some, List, [], ◌∷◌, ◌++◌, ◌==◌, ltb,
  leb, ◌&&◌, if◌then◌else◌, length,
}
use spot_price.Prelude.Text.{Text, codes}

-- The digit at a place of `0123456789abcdef`.
abbrev pub hex_digit : ℕ → ℕ
hex_digit n = if ltb n 10 then b'0' + n else b'a' + (n - 10)

abbrev pub hex : List ℕ → Text
hex [] = []
hex (byte ∷ bytes) = hex_digit (byte / 16) ∷ hex_digit (byte % 16) ∷ hex bytes

-- `char::hex_value(16)`.
abbrev pub hex_value : ℕ → Option ℕ
hex_value c =
    if leb b'0' c && leb c b'9'
    then some (c - b'0')
    else if leb b'a' c && leb c b'f'
    then some (c - b'a' + 10)
    else if leb b'A' c && leb c b'F'
    then some (c - b'A' + 10)
    else none

-- The byte of two digits, in front of the bytes behind it; the byte always fits a `u8`.
abbrev pub with_byte : Option ℕ → Option ℕ → Option (List ℕ) → Option (List ℕ)
with_byte (some high) (some low) (some bytes) = some ((high * 16 + low) ∷ bytes)
with_byte _ _ _ = none

-- The pairs of characters; a last one alone is dropped.
abbrev pub from_pairs : Text → Option (List ℕ)
from_pairs (a ∷ b ∷ digits) = with_byte (hex_value a) (hex_value b) (from_pairs digits)
from_pairs _ = some []

-- `from_hex` of `n` bytes.
unfoldable pub from_hex : ℕ → Text → Option (List ℕ)
from_hex n text = if length text == n * 2 then from_pairs text else none

abbrev pub id_length : ℕ
id_length = 32

abbrev pub accept_below : ℕ
accept_below = 248

-- The character at a place of `a-zA-Z0-9`.
abbrev pub id_character : ℕ → ℕ
id_character n =
    if ltb n 26 then b'a' + n else if ltb n 52 then b'A' + (n - 26) else b'0' + (n - 52)

-- One draw of random bytes.
abbrev pub push_bytes : List ℕ → Text → Text
push_bytes [] id = id
push_bytes (byte ∷ bytes) id = push_bytes bytes (
    if ltb byte accept_below && ltb (length id) id_length
    then id ++ (id_character (byte % 62) ∷ [])
    else id)

-- The loop over the draws; no draw left is `RandomError`.
abbrev pub id_from : List (List ℕ) → Text → Option Text
id_from [] id = if ltb (length id) id_length then none else some id
id_from (draw ∷ draws) id =
    let rest = id_from draws (push_bytes draw id) in
    if ltb (length id) id_length then rest else some id

unfoldable pub better_auth_id : List (List ℕ) → Option Text
better_auth_id draws = id_from draws []

-- `api_key` and `api_key_id`; `none` is `RandomError`.
unfoldable pub api_key : Option (List ℕ) → Option Text
api_key none = none
api_key (some bytes) = some (codes "sp_" ++ hex bytes)

unfoldable pub api_key_id : Option (List ℕ) → Option Text
api_key_id none = none
api_key_id (some bytes) = some (hex bytes)
