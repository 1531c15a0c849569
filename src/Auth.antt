-- ===== src/Auth.antt =====
-- `crates/server/src/auth/username.rs`, and the header of `crates/server/src/http/api_key.rs`.
pub mod Names
pub mod Tokens
pub mod Random
mod Examples
use spot_price.Prelude.{
  ℕ, ◌+◌, ◌-◌, Bool, true, false, not, ◌&&◌, ◌||◌, Option, none, some, List, [], ◌∷◌, ◌==◌, leb,
  if◌then◌else◌, length, take, drop, map, any,
}
use spot_price.Prelude.Text.{Text, codes, text_eq, is_digit}
use spot_price.Js.Numerals.{js_trim, is_empty, trim_start, trim_end}

-- `is_ascii_lowercase`, `is_ascii_digit`, `_` or `-`.
abbrev pub is_name_character : ℕ → Bool
is_name_character c = (leb b'a' c && leb c b'z') || is_digit c || c == b'_' || c == b'-'

abbrev pub all_of : (ℕ → Bool) → Text → Bool
all_of p [] = true
all_of p (c ∷ cs) = p c && all_of p cs

-- The rules of a name. The length is in bytes, which an accepted text has one of per character.
abbrev pub is_valid_name : Text → Bool
is_valid_name name = leb 3 (length name) && leb (length name) 32 && all_of is_name_character name

abbrev pub accept_name : Text → Option Text
accept_name name = if is_valid_name name then some name else none

module _ (to_lowercase : Text → Text) where
  -- `value.trim().toLowerCase()`; the lower case of a Unicode text is `str::to_lowercase`.
  unfoldable pub normalize : Text → Text
  unfolding js_trim
  normalize input = to_lowercase (js_trim input)

  -- `Username::parse`.
  unfoldable pub parse_username : Text → Option Text
  unfolding normalize
  parse_username input = accept_name (normalize input)

-- `char::is_whitespace` on ASCII.
abbrev pub is_ascii_space : ℕ → Bool
is_ascii_space c = (leb 9 c && leb c 13) || c == b' '

abbrev to_ascii_lowercase : ℕ → ℕ
to_ascii_lowercase c = if leb b'A' c && leb c b'Z' then c + 32 else c

-- The white space that a header value may have around it.
abbrev pub is_blank : ℕ → Bool
is_blank c = c == b' ' || c == 9

abbrev check_token : Text → Text → Option Text
check_token rest token =
    if length token == length rest || is_empty token || any is_ascii_space token
    then none
    else some token

-- `bearer_token`, of the visible ASCII text of the header, if it is there.
unfoldable pub bearer_token : Option Text → Option Text
bearer_token none = none
bearer_token (some header) =
    let value = trim_end is_blank (trim_start is_blank header) in
    let rest = drop 6 value in
    if leb 6 (length value) && text_eq (map to_ascii_lowercase (take 6 value)) (codes "bearer")
    then check_token rest (trim_start is_ascii_space rest)
    else none
