-- ===== src/Auth/Names.antt =====
-- What a username is.
use spot_price.Prelude.{
  ℕ, ◌≤◌, true, false, none, some, some-injective, [], ◌∷◌, ◌≡◌, refl, arith, inl, inr, ◌∙◌, ap,
  subst, Bool-cases, length, if◌then◌else◌,
}
use spot_price.Prelude.Text.{Text}
use spot_price.Js.Numerals.{js_trim, is_js_whitespace, trim_start, trim_end}
use spot_price.Auth.{
  is_name_character, all_of, is_valid_name, accept_name, normalize, parse_username,
}

-- White space is no character of a name.
name_character_ink : (c : ℕ) → is_name_character c ≡ true → is_js_whitespace c ≡ false
unfolding is_js_whitespace
name_character_ink c h = ground arith

trim_start-name : (t : Text) → all_of is_name_character t ≡ true → trim_start is_js_whitespace t ≡ t
trim_start-name [] h = refl
trim_start-name (c ∷ cs) h =
    let first : is_name_character c ≡ true = ground (arith, h) in
    rw (name_character_ink c first) refl

trim_end-name : (t : Text) → all_of is_name_character t ≡ true → trim_end is_js_whitespace t ≡ t
trim_end-name [] h = refl
trim_end-name (c ∷ cs) h =
    let first : is_name_character c ≡ true = ground (arith, h) in
    let rest : all_of is_name_character cs ≡ true = ground (arith, h) in
    rw (name_character_ink c first) (ap (λ l. c ∷ l) (trim_end-name cs rest))

-- 3 to 32 characters of the alphabet of names.
abbrev pub IsName : Text → Type 0
IsName name = (3 ≤ length name) × (length name ≤ 32) × (all_of is_name_character name ≡ true)

accept_name-some :
    (text name : Text)
    → accept_name text ≡ some name
    → (text ≡ name) × IsName name × (accept_name name ≡ some name)
accept_name-some text name h = elim (Bool-cases (is_valid_name text)) [
  | inr e ↦ ground (arith, e, h)
  | inl e ↦
      let found : some text ≡ some name =
        subst (λ b. (if b then some text else none) ≡ some name) e h in
      let same = some-injective text name found in
      let valid : is_valid_name name ≡ true = subst (λ t. is_valid_name t ≡ true) same e in
      (same, rules name valid, ap (λ b. if b then some name else none) valid)
]
  where
    rules : (t : Text) → is_valid_name t ≡ true → IsName t
    rules t k = ground (arith, k)

module _ (to_lowercase : Text → Text) where
  -- A parsed username is the trimmed input in lower case and has 3 to 32 characters of the alphabet of
  -- names; it is read as itself again, where the lower case leaves that alphabet alone.
  pub parse_username_again :
      ((t : Text) → all_of is_name_character t ≡ true → to_lowercase t ≡ t)
      → (input name : Text) → parse_username to_lowercase input ≡ some name
      → (to_lowercase (js_trim input) ≡ name)
        × IsName name
        × (parse_username to_lowercase name ≡ some name)
  unfolding parse_username normalize js_trim
  parse_username_again law input name h =
      let (same, (low, high, alphabet), again) = accept_name-some _ name h in
      let start = trim_start-name name alphabet in
      let trimmed : js_trim name ≡ name =
        ap (trim_end is_js_whitespace) start ∙ trim_end-name name alphabet in
      let fixed : to_lowercase (js_trim name) ≡ name =
        ap to_lowercase trimmed ∙ law name alphabet in
      (same, (low, high, alphabet), ap accept_name fixed ∙ again)
