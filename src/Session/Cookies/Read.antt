-- ===== src/Session/Cookies/Read.antt =====
-- The token of a cookie that comes back.
use spot_price.Prelude.{
  append_assoc, ℕ, ◌<◌, ◌/◌, ◌%◌, Bool, true, false, not, ◌&&◌, some, List, [], ◌∷◌, ◌++◌, ◌==◌,
  if◌then◌else◌, all, length, ◌≡◌, refl, sym, ap, ◌∙◌, arith, inl, inr, Bool-cases,
}
use spot_price.Prelude.Text.{Text, codes, decimal, text_eq_refl}
use spot_price.Js.Numerals.{trim_start, trim_end}
use spot_price.Auth.{is_blank}
use spot_price.Auth.Random.{hex, hex_digit}
use spot_price.Auth.Random.Hex.{AreBytes, from_hex-hex}
use spot_price.Session.Handlers.{session_lifetime}
use spot_price.Session.Cookies.{
  SessionConfig, cookie_name, cookie, secure_text, is_header_text, trim_blank, grow,
  split_semicolons, split_once, before, read_token,
}

-- What a client keeps of `Set-Cookie` and sends back: the part before the first semicolon.
abbrev pub sent_pair : Text → Text
sent_pair [] = []
sent_pair (c ∷ cs) = let rest = sent_pair cs in if c == b';' then [] else c ∷ rest

-- A visible character that is neither `;` nor a blank.
abbrev is_plain : ℕ → Bool
is_plain c = is_header_text c && not (c == b';') && not (is_blank c)

-- The same without `=`.
abbrev is_name_text : ℕ → Bool
is_name_text c = is_plain c && not (c == b'=')

hex_digit_plain : (n : ℕ) → n < 16 → is_name_text (hex_digit n) ≡ true
hex_digit_plain n h = ground arith

hex_plain : (bytes : List ℕ) → AreBytes bytes → all is_name_text (hex bytes) ≡ true
hex_plain [] h = refl
hex_plain (byte ∷ bytes) (b, h) =
    let high = hex_digit_plain (byte / 16) (omega arith) in
    let low = hex_digit_plain (byte % 16) (omega arith) in
    let rest = hex_plain bytes h in rw high (rw low rest)

cookie_name_plain : (config : SessionConfig) → all is_name_text (cookie_name config) ≡ true
unfolding cookie_name
cookie_name_plain config = elim (Bool-cases config.secure) [ inl e ↦ rw e refl | inr e ↦ rw e refl ]

name_text_plain : (value : Text) → all is_name_text value ≡ true → all is_plain value ≡ true
name_text_plain [] h = refl
name_text_plain (c ∷ cs) h = ground (arith, name_text_plain cs)

plain_pair :
    (name value : Text)
    → all is_name_text name ≡ true
    → all is_name_text value ≡ true
    → all is_plain (name ++ (b'=' ∷ value)) ≡ true
plain_pair [] value h k = name_text_plain value k
plain_pair (c ∷ cs) value h k = ground (arith, plain_pair cs value)

-- A plain text is one visible piece that trimming leaves alone.
plain-all : (text : Text) → all is_plain text ≡ true → all is_header_text text ≡ true
plain-all [] h = refl
plain-all (c ∷ cs) h = ground (arith, plain-all cs)

plain-split : (text : Text) → all is_plain text ≡ true → split_semicolons text ≡ text ∷ []
plain-split [] h = refl
plain-split (c ∷ cs) h =
    let other : (c == b';') ≡ false = ground (arith, h) in
    let rest = plain-split cs (ground (arith, h)) in rw other (ap (grow c) rest)

plain-trim_end : (text : Text) → all is_plain text ≡ true → trim_end is_blank text ≡ text
plain-trim_end [] h = refl
plain-trim_end (c ∷ cs) h =
    let dark : is_blank c ≡ false = ground (arith, h) in
    let rest = plain-trim_end cs (ground (arith, h)) in rw dark (ap (λ l. c ∷ l) rest)

plain-trim_start : (text : Text) → all is_plain text ≡ true → trim_start is_blank text ≡ text
plain-trim_start [] h = refl
plain-trim_start (c ∷ cs) h = let dark : is_blank c ≡ false = ground (arith, h) in rw dark refl

plain-trim_blank : (text : Text) → all is_plain text ≡ true → trim_blank text ≡ text
plain-trim_blank text h = ap (trim_end is_blank) (plain-trim_start text h) ∙ plain-trim_end text h

split_once-name :
    (name value : Text)
    → all is_name_text name ≡ true
    → split_once (name ++ (b'=' ∷ value)) ≡ some (name, value)
split_once-name [] value h = refl
split_once-name (c ∷ cs) value h =
    let other : (c == b'=') ≡ false = ground (arith, h) in
    let rest = split_once-name cs value (ground (arith, h)) in rw other (ap (before c) rest)

sent_pair-plain :
    (text after : Text) → all is_plain text ≡ true → sent_pair (text ++ (b';' ∷ after)) ≡ text
sent_pair-plain [] after h = refl
sent_pair-plain (c ∷ cs) after h =
    let other : (c == b';') ≡ false = ground (arith, h) in
    let rest = sent_pair-plain cs after (ground (arith, h)) in rw other (ap (λ l. c ∷ l) rest)

read_pair :
    (name : Text) (bytes : List ℕ) (headers : List Text)
    → all is_name_text name ≡ true
    → AreBytes bytes
    → length bytes ≡ 32
    → read_token ((name ++ (b'=' ∷ hex bytes)) ∷ headers) name ≡ some bytes
unfolding read_token
read_pair name bytes headers h b l =
    let digits = hex_plain bytes b in
    let pair = plain_pair name (hex bytes) h digits in
    let text = name ++ (b'=' ∷ hex bytes) in
    rw (plain-all text pair) (
      rw (plain-split text pair) (
        rw (plain-trim_blank text pair) (
          rw (split_once-name name (hex bytes) h) (
            rw (plain-trim_blank name (name_text_plain name h)) (
              rw (text_eq_refl name) (
                rw (plain-trim_blank (hex bytes) (name_text_plain (hex bytes) digits))
                  (rw (sym l) (from_hex-hex bytes b))))))))

-- The pair that a client sends back of a session's cookie, before any other header, is read as the
-- token of the session. A token has 32 bytes.
pub read_token-cookie :
    (config : SessionConfig) (token : List ℕ) (headers : List Text)
    → AreBytes token
    → length token ≡ 32
    → read_token (sent_pair (cookie config token) ∷ headers) (cookie_name config) ≡ some token
unfolding cookie
read_token-cookie config token headers b l =
    let name = cookie_name config in
    let after =
      codes " Max-Age="
      ++ (decimal (session_lifetime / 1_000_000_000)
          ++ (codes "; Path=/; HttpOnly;" ++ (secure_text config ++ codes " SameSite=Lax"))) in
    let pair = name ++ (b'=' ∷ hex token) in
    let parts = append_assoc name (b'=' ∷ hex token) (b';' ∷ after) in
    let named = cookie_name_plain config in
    let sent = sent_pair-plain pair after (plain_pair name (hex token) named (hex_plain token b)) in
    ap (λ t. read_token (sent_pair t ∷ headers) name) (sym parts)
    ∙ ap (λ t. read_token (t ∷ headers) name) sent
    ∙ read_pair name token headers named b l
