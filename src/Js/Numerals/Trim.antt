-- ===== src/Js/Numerals/Trim.antt =====
-- What `js_trim` takes off a text.
use spot_price.Prelude.{
  ℕ, true, false, Option, none, some, [], ◌∷◌, ◌++◌, ◌≡◌, refl, inl, inr, arith, All, Bool-cases,
  first?, last?, ap, ◌∙◌, if◌then◌else◌,
}
use spot_price.Prelude.Text.{Text}
use spot_price.Js.Numerals.{is_js_whitespace, trim_start, trim_end, is_empty, js_trim}

-- The optional character is not white space.
abbrev IsInk : Option ℕ → Type 0
IsInk none = Unit
IsInk (some c) = is_js_whitespace c ≡ false

-- `inner` is `text` without the white space around it.
abbrev pub IsTrimmed : Text → Text → Type 0
IsTrimmed text inner =
    (before : Text) × (after : Text) × (text ≡ before ++ (inner ++ after))
    × All (λ c. is_js_whitespace c ≡ true) before
    × All (λ c. is_js_whitespace c ≡ true) after
    × IsInk (first? inner)
    × IsInk (last? inner)

trim_start_lem :
    (text : Text)
    → (before : Text) × (text ≡ before ++ trim_start is_js_whitespace text)
      × All (λ c. is_js_whitespace c ≡ true) before
      × IsInk (first? (trim_start is_js_whitespace text))
trim_start_lem [] = ([], refl, tt, tt)
trim_start_lem (c ∷ cs) = elim (Bool-cases (is_js_whitespace c)) [
  | inr e ↦ rw e ([], refl, tt, e)
  | inl e ↦
      let (before, q, white, ink) = trim_start_lem cs in
      rw e (c ∷ before, ap (λ l. c ∷ l) q, (e, white), ink)
]

trim_end_lem :
    (text : Text)
    → (after : Text) × (text ≡ trim_end is_js_whitespace text ++ after)
      × All (λ c. is_js_whitespace c ≡ true) after
      × IsInk (last? (trim_end is_js_whitespace text))
      × (IsInk (first? text) → IsInk (first? (trim_end is_js_whitespace text)))
trim_end_lem [] = ([], refl, tt, tt, λ h. tt)
trim_end_lem (c ∷ cs) =
    let (after, q, white, ink, first) = trim_end_lem cs in
    elim (Bool-cases (is_js_whitespace c)) [
      | inr e ↦
          rw e
            (after, ap (λ l. c ∷ l) q, white, last_ink (trim_end is_js_whitespace cs) ink e, λ h. e)
      | inl e ↦ rw e (go e (trim_end is_js_whitespace cs) after q white ink)
    ]
  where
    last_ink : (l : Text) → IsInk (last? l) → is_js_whitespace c ≡ false → IsInk (last? (c ∷ l))
    last_ink [] h e = e
    last_ink (x ∷ l) h e = h

    go :
        is_js_whitespace c ≡ true
        → (l after : Text) → cs ≡ l ++ after
        → All (λ x. is_js_whitespace x ≡ true) after
        → IsInk (last? l)
        → (tail : Text) × (c ∷ cs ≡ (if is_empty l then [] else c ∷ l) ++ tail)
          × All (λ x. is_js_whitespace x ≡ true) tail
          × IsInk (last? (if is_empty l then [] else c ∷ l))
          × (true ≡ false → IsInk (first? (if is_empty l then [] else c ∷ l)))
    go e [] after q white ink = (c ∷ after, ap (λ l. c ∷ l) q, (e, white), tt, λ h. tt)
    go e (x ∷ l) after q white ink = (after, ap (λ l. c ∷ l) q, white, ink, λ h. ground (arith, h))

-- Trimming takes white space off both ends, and all of it.
pub js_trim-IsTrimmed : (text : Text) → IsTrimmed text (js_trim text)
unfolding js_trim
js_trim-IsTrimmed text =
    let (before, p, white, ink) = trim_start_lem text in
    let (after, q, white', last, first) = trim_end_lem (trim_start is_js_whitespace text) in
    (before, after, p ∙ ap (λ l. before ++ l) q, white, white', first ink, last)
