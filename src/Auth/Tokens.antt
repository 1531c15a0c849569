-- ===== src/Auth/Tokens.antt =====
-- The bearer tokens of a header.
use spot_price.Prelude.{
  suc, true, false, some, [], ◌∷◌, ◌++◌, ◌≡◌, refl, arith, ap, length, any, leb, ◌==◌,
}
use spot_price.Prelude.Text.{Text, codes}
use spot_price.Js.Numerals.{is_empty, trim_start, trim_end}
use spot_price.Auth.{is_ascii_space, is_blank, check_token, bearer_token}

-- A token is a text without white space, and it is not empty.
abbrev pub IsToken : Text → Type 0
IsToken token = (is_empty token ≡ false) × (any is_ascii_space token ≡ false)

trim_start-token : (t : Text) → any is_ascii_space t ≡ false → trim_start is_ascii_space t ≡ t
trim_start-token [] h = refl
trim_start-token (c ∷ cs) h = ground (arith, h)

trim_end-token : (t : Text) → any is_ascii_space t ≡ false → trim_end is_blank t ≡ t
trim_end-token [] h = refl
trim_end-token (c ∷ cs) h =
    let rest : any is_ascii_space cs ≡ false = ground (arith, h) in
    let ink : is_blank c ≡ false = ground (arith, h) in
    rw ink (ap (λ l. c ∷ l) (trim_end-token cs rest))

check_token-some : (token : Text) → IsToken token → check_token (b' ' ∷ token) token ≡ some token
check_token-some token (full, ink) =
    let shorter : (length token == suc (length token)) ≡ false = ground arith in
    rw shorter (rw full (rw ink refl))

-- The header that a client writes for a token, which is not empty and has no white space, gives that
-- token.
pub bearer_token-header :
    (token : Text) → IsToken token → bearer_token (some (codes "Bearer " ++ token)) ≡ some token
unfolding bearer_token
bearer_token-header token (full, ink) =
    let start = trim_start-token token ink in
    let end = trim_end-token token ink in
    let long : leb 6 (length (codes "Bearer " ++ token)) ≡ true = ground arith in
    rw end (rw full (rw long (rw start (check_token-some token (full, ink)))))
