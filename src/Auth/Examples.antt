-- ===== src/Auth/Examples.antt =====
-- Names and tokens of requests.
use spot_price.Prelude.{
  ℕ, zero, suc, ◌≤◌, List, length, ◌+◌, ◌&&◌, true, none, some, [], ◌∷◌, map, ◌≡◌, refl, leb, arith,
  if◌then◌else◌, ap,
}
use spot_price.Prelude.Text.{Text, codes}
use spot_price.Js.Numerals.{js_trim, is_js_whitespace}
use spot_price.Auth.{normalize, parse_username, bearer_token, is_name_character, all_of}
use spot_price.Auth.Random.{id_length, better_auth_id, from_hex}
use spot_price.Auth.Random.Ids.{IsId, accepted_all, better_auth_id-IsId}

-- the lower case of ASCII
abbrev lower : ℕ → ℕ
lower c = if leb b'A' c && leb c b'Z' then c + 32 else c

abbrev lowercase : Text → Text
lowercase [] = []
lowercase (c ∷ cs) = lower c ∷ lowercase cs

lower-name : (c : ℕ) → is_name_character c ≡ true → lower c ≡ c
lower-name c h = ground (arith, h)

lowercase-name : (t : Text) → all_of is_name_character t ≡ true → lowercase t ≡ t
lowercase-name [] h = refl
lowercase-name (c ∷ cs) h =
    let first : lower c ≡ c = lower-name c (ground (arith, h)) in
    let rest : lowercase cs ≡ cs = lowercase-name cs (ground (arith, h)) in
    rw first (ap (λ l. c ∷ l) rest)

test-parse_username : parse_username lowercase (codes "  Joni_K-9 ") ≡ some (codes "joni_k-9")
unfolding parse_username normalize js_trim is_js_whitespace
test-parse_username = refl

test-refused :
    map (parse_username lowercase) (codes "ab" ∷ codes "a b c" ∷ codes "öööö" ∷ [])
    ≡ none ∷ none ∷ none ∷ []
unfolding parse_username normalize js_trim is_js_whitespace
test-refused = refl

test-bearer_token :
    map bearer_token
      (some (codes "bEARER \t key") ∷ some (codes "Bearer") ∷ some (codes "Bearer a b") ∷ none ∷ [])
    ≡ some (codes "key") ∷ none ∷ none ∷ none ∷ []
unfolding bearer_token
test-bearer_token = refl

abbrev numbers : ℕ → List ℕ
numbers zero = []
numbers (suc n) = n ∷ numbers n

-- two bytes at or above 248 are skipped
abbrev draws : List (List ℕ)
draws = (255 ∷ 0 ∷ 248 ∷ 61 ∷ numbers 31) ∷ []

better_auth_id-IsId_example :
    ((id : Text) → better_auth_id draws ≡ some id → (length id ≡ id_length) × IsId id)
    × (id_length ≤ accepted_all draws → (id : Text) × (better_auth_id draws ≡ some id))
better_auth_id-IsId_example = better_auth_id-IsId draws

test-from_hex : from_hex 4 (codes "000FA5ff") ≡ some (0 ∷ 15 ∷ 165 ∷ 255 ∷ [])
unfolding from_hex
test-from_hex = refl
