-- ===== src/Session/Cookies.antt =====
-- `crates/server/src/http/session.rs`: the cookies of a session and the origin of a request.
pub mod Read
use spot_price.Prelude.{
  ℕ, Bool, true, false, ◌&&◌, Option, none, some, List, [], ◌∷◌, ◌++◌, ◌==◌, if◌then◌else◌, all,
  leb, ltb, or_else, ◌/◌,
}
use spot_price.Prelude.Text.{Text, codes, decimal, text_eq}
use spot_price.Js.Numerals.{trim_start, trim_end}
use spot_price.Auth.{is_blank}
use spot_price.Auth.Random.{hex, from_hex}
use spot_price.Session.Handlers.{session_lifetime}

-- The cookie and origin rules.
pub record SessionConfig : Type 0 where
  pub origin : Text
  pub secure : Bool

-- `SessionConfig::new`, of the origin and the scheme of the public base URL.
unfoldable pub session_config : Text → Text → SessionConfig
session_config origin scheme = record { origin = origin; secure = text_eq scheme (codes "https") }

abbrev pub plain_cookie_name : Text
plain_cookie_name = codes "spot_session"

abbrev pub secure_cookie_name : Text
secure_cookie_name = codes "__Host-spot_session"

unfoldable pub cookie_name : SessionConfig → Text
cookie_name config = if config.secure then secure_cookie_name else plain_cookie_name

abbrev pub secure_text : SessionConfig → Text
secure_text config = if config.secure then codes " Secure;" else []

-- The texts of `Set-Cookie`, which `HeaderValue::from_str` takes.
unfoldable pub cookie : SessionConfig → List ℕ → Text
unfolding cookie_name decimal
cookie config token =
    cookie_name config
    ++ (codes "="
        ++ (hex token
            ++ (codes "; Max-Age="
                ++ (decimal (session_lifetime / 1_000_000_000)
                    ++ (codes "; Path=/; HttpOnly;"
                        ++ (secure_text config ++ codes " SameSite=Lax"))))))

unfoldable pub clear_cookie : SessionConfig → Text
unfolding cookie_name
clear_cookie config =
    cookie_name config
    ++ (codes "=; Max-Age=0; Path=/; HttpOnly;" ++ (secure_text config ++ codes " SameSite=Lax"))

-- `HeaderValue::to_str`: visible ASCII, a space or a tab.
abbrev pub is_header_text : ℕ → Bool
is_header_text c = if c == 9 then true else leb 32 c && ltb c 127

abbrev pub to_str : Text → Option Text
to_str value = if all is_header_text value then some value else none

-- `trim` of such a text.
abbrev pub trim_blank : Text → Text
trim_blank text = trim_end is_blank (trim_start is_blank text)

-- A character in front of the first piece.
abbrev pub grow : ℕ → List Text → List Text
grow c [] = (c ∷ []) ∷ []
grow c (piece ∷ pieces) = (c ∷ piece) ∷ pieces

-- `split(';')`.
abbrev pub split_semicolons : Text → List Text
split_semicolons [] = [] ∷ []
split_semicolons (c ∷ cs) =
    let rest = split_semicolons cs in if c == b';' then [] ∷ rest else grow c rest

abbrev pub before : ℕ → Option (Text × Text) → Option (Text × Text)
before c none = none
before c (some (name, value)) = some (c ∷ name, value)

-- `split_once('=')`.
abbrev pub split_once : Text → Option (Text × Text)
split_once [] = none
split_once (c ∷ cs) = let rest = split_once cs in if c == b'=' then some ([], cs) else before c rest

-- The value of a pair with the name.
abbrev pub named : Text → Option (Text × Text) → Option Text
named name none = none
named name (some (n, value)) = if text_eq (trim_blank n) name then some value else none

-- `find` over the pairs of one header, in order.
abbrev pub value_in : Text → List Text → Option Text
value_in name [] = none
value_in name (pair ∷ pairs) =
    or_else (named name (split_once (trim_blank pair))) (value_in name pairs)

abbrev pub value_of_header : Text → Option Text → Option Text
value_of_header name none = none
value_of_header name (some value) = value_in name (split_semicolons value)

-- The same over the `Cookie` headers.
abbrev pub cookie_value : Text → List Text → Option Text
cookie_value name [] = none
cookie_value name (header ∷ headers) =
    or_else (value_of_header name (to_str header)) (cookie_value name headers)

abbrev pub token_of : Option Text → Option (List ℕ)
token_of none = none
token_of (some value) = from_hex 32 (trim_blank value)

-- `read_token`, of the values of the `Cookie` headers.
unfoldable pub read_token : List Text → Text → Option (List ℕ)
read_token headers name = token_of (cookie_value name headers)

-- `same_origin`, of the `Origin` header.
unfoldable pub same_origin : SessionConfig → Option Text → Bool
same_origin config none = true
same_origin config (some origin) = text_eq origin config.origin
