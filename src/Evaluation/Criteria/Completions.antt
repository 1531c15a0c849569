-- ===== src/Evaluation/Criteria/Completions.antt =====
-- The answers of a verdict, by what its undecided outcomes could be.
use spot_price.Prelude.{
  Bool, true, false, not, Option, none, some, List, [], ◌∷◌, map, any, all, if◌then◌else◌, ◌≡◌, ◌↔◌,
  refl, sym, ◌∙◌, arith,
}
use spot_price.Evaluation.Criteria.{
  Outcome, met, not_met, undefined, missing, Verdict, is_met, is_not_met, success_met,
  regression_detected,
}

abbrev same : Bool → Bool → Bool
same true b = b
same false b = not b

-- What a completion answers.
abbrev answered : Bool → List Bool → Bool
answered c bs = if any (same c) bs then c else not c

answered-all : (bs : List Bool) → answered false bs ≡ all (λ b. b) bs
answered-all [] = refl
answered-all (b ∷ bs) = let rest = answered-all bs in ground (arith, rest)

answered-any : (bs : List Bool) → answered true bs ≡ any (λ b. b) bs
answered-any [] = refl
answered-any (b ∷ bs) = let rest = answered-any bs in ground (arith, rest)

module _ {F : Type 0} where
  abbrev pub Agrees : Outcome F → Bool → Type 0
  Agrees (met value) b = b ≡ true
  Agrees (not_met value) b = b ≡ false
  Agrees _ b = Unit

  -- Booleans for outcomes, any at all for those that are undefined or missing.
  abbrev pub IsCompletion : List (Outcome F) → List Bool → Type 0
  IsCompletion [] [] = Unit
  IsCompletion (o ∷ os) (b ∷ bs) = Agrees o b × IsCompletion os bs
  IsCompletion _ _ = ⊥

  -- The outcome is decided as `c`.
  abbrev is_decided : Bool → Outcome F → Bool
  is_decided true o = is_met o
  is_decided false o = is_not_met o

  abbrev filled : Bool → Outcome F → Bool
  filled b (met value) = true
  filled b (not_met value) = false
  filled b _ = b

  -- The answer is `c` when an outcome is decided as `c`, and the opposite when all are.
  abbrev answer_of : Bool → List (Outcome F) → Option Bool
  answer_of c os =
      if any (is_decided c) os
      then some c
      else if all (is_decided (not c)) os
      then some (not c)
      else none

  filled-IsCompletion : (b : Bool) (os : List (Outcome F)) → IsCompletion os (map (filled b) os)
  filled-IsCompletion b [] = tt
  filled-IsCompletion b (met value ∷ os) = (refl, filled-IsCompletion b os)
  filled-IsCompletion b (not_met value ∷ os) = (refl, filled-IsCompletion b os)
  filled-IsCompletion b (undefined ∷ os) = (tt, filled-IsCompletion b os)
  filled-IsCompletion b (missing ∷ os) = (tt, filled-IsCompletion b os)

  any_decided :
      (c : Bool) (os : List (Outcome F)) (bs : List Bool)
      → IsCompletion os bs
      → any (is_decided c) os ≡ true
      → any (same c) bs ≡ true
  any_decided c [] [] h e = e
  any_decided c (o ∷ os) (b ∷ bs) (h, hs) e =
      let rest = any_decided c os bs hs in ground (arith, h, e, rest)
  any_decided c [] (b ∷ bs) h e = ground (arith, e)
  any_decided c (o ∷ os) [] h e = absurd h

  all_decided :
      (c : Bool) (os : List (Outcome F)) (bs : List Bool)
      → IsCompletion os bs
      → all (is_decided (not c)) os ≡ true
      → any (same c) bs ≡ false
  all_decided c [] [] h e = refl
  all_decided c (o ∷ os) (b ∷ bs) (h, hs) e =
      let rest = all_decided c os bs hs in ground (arith, h, e, rest)
  all_decided c [] (b ∷ bs) h e = absurd h
  all_decided c (o ∷ os) [] h e = absurd h

  none_decided :
      (c : Bool) (os : List (Outcome F))
      → any (is_decided c) os ≡ false
      → any (same c) (map (filled (not c)) os) ≡ false
  none_decided c [] e = refl
  none_decided c (o ∷ os) e = let rest = none_decided c os in ground (arith, e, rest)

  some_undecided :
      (c : Bool) (os : List (Outcome F))
      → all (is_decided (not c)) os ≡ false
      → any (same c) (map (filled c) os) ≡ true
  some_undecided c [] e = ground (arith, e)
  some_undecided c (o ∷ os) e = let rest = some_undecided c os in ground (arith, e, rest)

  decided_sound :
      (c : Bool) (os : List (Outcome F)) (b : Bool) (bs : List Bool)
      → answer_of c os ≡ some b
      → IsCompletion os bs
      → answered c bs ≡ b
  decided_sound c os b bs e h =
      let absorbing = any_decided c os bs h in
      let opposite = all_decided c os bs h in ground (arith, e, absorbing, opposite)

  decided_complete :
      (c : Bool) (os : List (Outcome F)) (b : Bool)
      → ((bs : List Bool) → IsCompletion os bs → answered c bs ≡ b)
      → answer_of c os ≡ some b
  decided_complete c os b h =
      let high = h _ (filled-IsCompletion c os) in
      let low = h _ (filled-IsCompletion (not c) os) in
      let absorbing = any_decided c os _ (filled-IsCompletion c os) in
      let opposite = all_decided c os _ (filled-IsCompletion c os) in
      let not_absorbing = none_decided c os in
      let not_opposite = some_undecided c os in
      ground (arith, high, low, absorbing, opposite, not_absorbing, not_opposite)

  -- A verdict has an answer exactly when that is the answer whatever the undefined and the missing
  -- outcomes turn out to be: whether all success criteria are met, and whether any regression
  -- criterion is.
  pub verdict_iff :
      (verdict : Verdict F) (b : Bool)
      → (success_met verdict ≡ some b
          ↔ ((bs : List Bool) → IsCompletion verdict.success bs → all (λ x. x) bs ≡ b))
        × (regression_detected verdict ≡ some b
            ↔ ((bs : List Bool) → IsCompletion verdict.regression bs → any (λ x. x) bs ≡ b))
  unfolding success_met regression_detected
  verdict_iff verdict b = (
    (
      (λ e bs h. sym (answered-all bs) ∙ decided_sound false verdict.success b bs e h),
      (λ h. decided_complete false verdict.success b (λ bs k. answered-all bs ∙ h bs k)),
    ),
    (
      (λ e bs h. sym (answered-any bs) ∙ decided_sound true verdict.regression b bs e h),
      (λ h. decided_complete true verdict.regression b (λ bs k. answered-any bs ∙ h bs k)),
    ),
  )
