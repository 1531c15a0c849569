-- ===== src/Prelude/Lists.antt =====
-- Lists measured by native numbers, and predicates on their elements.
use Prim.Native.Nat.{ℕ, suc, zero, ◌+◌, ◌-◌, ◌≤◌}
use mathlib.Core.Path.{◌≡◌, refl, ap}
use mathlib.Core.Logic.{◌⊎◌, ◌↔◌, inl, inr}
use mathlib.Core.Bool.{Bool, true, false, ◌&&◌}
use mathlib.Core.List.{List, [], ◌∷◌, ◌++◌}
use mathlib.Core.Option.{Option, none, some}
use native.Mathlib.Omega.{arith}
use spot_price.Prelude.Tests.{if◌then◌else◌, Bool-cases}

module _ {ℓ} {A : Type ℓ} where
  abbrev pub length : List A → ℕ
  length [] = 0
  length (x ∷ xs) = suc (length xs)

  pub length-append : (xs ys : List A) → length (xs ++ ys) ≡ length xs + length ys
  length-append [] ys = omega arith
  length-append (x ∷ xs) ys = omega (arith, length-append xs ys)

  pub append_nil : (xs : List A) → xs ++ [] ≡ xs
  append_nil [] = refl
  append_nil (x ∷ xs) = ap (λ l. x ∷ l) (append_nil xs)

  pub append_assoc : (a b c : List A) → (a ++ b) ++ c ≡ a ++ (b ++ c)
  append_assoc [] b c = refl
  append_assoc (x ∷ a) b c = ap (λ l. x ∷ l) (append_assoc a b c)

  abbrev pub All {κ} : (A → Type κ) → List A → Type κ
  All P [] = Unit
  All P (x ∷ xs) = P x × All P xs

  -- There is an element with the property, and it is found.
  abbrev pub Exists : (A → Type 0) → List A → Type 0
  Exists P [] = ⊥
  Exists P (x ∷ xs) = P x ⊎ Exists P xs

  pub All-map {κ μ} :
      {P : A → Type κ} {Q : A → Type μ} (xs : List A) → ((x : A) → P x → Q x) → All P xs → All Q xs
  All-map [] f h = tt
  All-map (x ∷ xs) f (p, ps) = (f x p, All-map xs f ps)

  -- `Iterator::filter` and `Vec::retain`, for a Boolean test.
  abbrev pub filter : (A → Bool) → List A → List A
  filter p [] = []
  filter p (x ∷ xs) = let rest = filter p xs in if p x then x ∷ rest else rest

  -- `Iterator::find`.
  abbrev pub find : (A → Bool) → List A → Option A
  find p [] = none
  find p (x ∷ xs) = let rest = find p xs in if p x then some x else rest

  -- `Iterator::any`.
  abbrev pub any : (A → Bool) → List A → Bool
  any p [] = false
  any p (x ∷ xs) = let rest = any p xs in if p x then true else rest

  -- `Iterator::all`.
  abbrev pub all : (A → Bool) → List A → Bool
  all p [] = true
  all p (x ∷ xs) = p x && all p xs

  pub any-Exists : (p : A → Bool) (xs : List A) → any p xs ≡ true → Exists (λ x. p x ≡ true) xs
  any-Exists p [] h = ground arith
  any-Exists p (x ∷ xs) h = ground (arith, any-Exists p xs)

  pub Exists-any : (p : A → Bool) (xs : List A) → Exists (λ x. p x ≡ true) xs → any p xs ≡ true
  Exists-any p [] h = elim h [ ]
  Exists-any p (x ∷ xs) h = ground (arith, Exists-any p xs)

  pub find-true : (p : A → Bool) (xs : List A) {a : A} → find p xs ≡ some a → p a ≡ true
  find-true p [] h = ground arith
  find-true p (x ∷ xs) {a} h = ground (arith, find-true p xs {a = a})

module _ {ℓ} {A : Type ℓ} where
  abbrev pub take : ℕ → List A → List A
  take zero xs = []
  take (suc n) [] = []
  take (suc n) (x ∷ xs) = x ∷ take n xs

  abbrev pub drop : ℕ → List A → List A
  drop zero xs = xs
  drop (suc n) [] = []
  drop (suc n) (x ∷ xs) = drop n xs

  -- `slice::first` and `slice::last`.
  abbrev pub first? : List A → Option A
  first? [] = none
  first? (x ∷ xs) = some x

  abbrev pub last? : List A → Option A
  last? [] = none
  last? (x ∷ []) = some x
  last? (x ∷ y ∷ xs) = last? (y ∷ xs)

pub drop-nil {ℓ} : (A : Type ℓ) (n : ℕ) → drop {A = A} n [] ≡ []
drop-nil A zero = refl
drop-nil A (suc n) = refl

module _ {ℓ} {A : Type ℓ} where
  pub length-drop : (n : ℕ) (xs : List A) → length (drop n xs) ≡ length xs - n
  length-drop zero xs = omega arith
  length-drop (suc n) [] = omega arith
  length-drop (suc n) (x ∷ xs) = omega (arith, length-drop n xs)

  pub length-take : (n : ℕ) (xs : List A) → n ≤ length xs → length (take n xs) ≡ n
  length-take zero xs h = refl
  length-take (suc n) [] h = absurd (omega arith)
  length-take (suc n) (x ∷ xs) h = omega (arith, length-take n xs (omega arith))

  pub last?-some : (x : A) (xs : List A) → (y : A) × (last? (x ∷ xs) ≡ some y)
  last?-some x [] = (x, refl)
  last?-some x (y ∷ xs) = last?-some y xs

module _ {ℓ κ μ} {A : Type ℓ} {P : A → Type κ} where
  pub All-filter :
      {Q : A → Type μ} (p : A → Bool) (xs : List A)
      → ((x : A) → P x → p x ≡ true → Q x)
      → All P xs
      → All Q (filter p xs)
  All-filter p [] f h = tt
  All-filter p (x ∷ xs) f (h, hs) = elim (Bool-cases (p x)) [
    | inl e ↦ rw e (f x h e, All-filter p xs f hs)
    | inr e ↦ rw e (All-filter p xs f hs)
  ]

module _ {ℓ κ} {A : Type ℓ} (P : A → Type κ) where
  pub All-take : (n : ℕ) (xs : List A) → All P xs → All P (take n xs)
  All-take zero xs h = tt
  All-take (suc n) [] h = tt
  All-take (suc n) (x ∷ xs) (p, ps) = (p, All-take n xs ps)

  pub All-drop : (n : ℕ) (xs : List A) → All P xs → All P (drop n xs)
  All-drop zero xs h = h
  All-drop (suc n) [] h = tt
  All-drop (suc n) (x ∷ xs) (p, ps) = All-drop n xs ps

-- Every element is in its list.
pub All-self : {A : Type 0} (xs : List A) → All (λ x. Exists (λ y. y ≡ x) xs) xs
All-self [] = tt
All-self (x ∷ xs) = (inl refl, All-map xs (λ y e. inr e) (All-self xs))

-- `o` is the first element with the property, or none has it.
abbrev pub IsFirst : {A : Type 0} → (A → Type 0) → List A → Option A → Type 0
IsFirst P xs none = All (λ x. ¬ P x) xs
IsFirst {A} P xs (some a) =
    (before : List A) × (after : List A) × (xs ≡ before ++ (a ∷ after))
    × P a
    × All (λ x. ¬ P x) before

-- The test decides the property on every element of the list.
pub find-IsFirst_on :
    {A : Type 0} (P : A → Type 0) (p : A → Bool) (xs : List A)
    → All (λ x. (p x ≡ true → P x) × (p x ≡ false → ¬ P x)) xs
    → IsFirst P xs (find p xs)
find-IsFirst_on {A} P p [] h = tt
find-IsFirst_on {A} P p (x ∷ xs) (h, hs) = elim (Bool-cases (p x)) [
  | inl e ↦ rw e ([], xs, refl, h.0 e, tt)
  | inr e ↦ rw e (go (find p xs) (find-IsFirst_on P p xs hs) (h.1 e))
]
  where
    go : (o : Option A) → IsFirst P xs o → ¬ P x → IsFirst P (x ∷ xs) o
    go none a n = (n, a)
    go (some a) (before, after, e, holds, none_before) n =
        (x ∷ before, after, ap (λ l. x ∷ l) e, holds, (n, none_before))

module _ {ℓ} {A : Type ℓ} where
  pub filter-filter :
      (p q : A → Bool) (xs : List A) → filter p (filter q xs) ≡ filter (λ x. q x && p x) xs
  filter-filter p q [] = refl
  filter-filter p q (x ∷ xs) = ground (arith, filter-filter p q xs)

  pub filter-eq-nil_iff :
      (p : A → Bool) (xs : List A) → (filter p xs ≡ []) ↔ All (λ x. p x ≡ false) xs
  filter-eq-nil_iff p [] = (λ h. tt, λ h. refl)
  filter-eq-nil_iff p (x ∷ xs) = ground (arith, filter-eq-nil_iff p xs)

module _ {ℓ} {A : Type ℓ} where
  pub length-filter_le : (p : A → Bool) (xs : List A) → length (filter p xs) ≤ length xs
  length-filter_le p [] = omega arith
  length-filter_le p (x ∷ xs) = ground (arith, length-filter_le p xs)

  pub length-filter_lt :
      (p : A → Bool) (xs : List A)
      → Exists (λ x. p x ≡ false) xs
      → suc (length (filter p xs)) ≤ length xs
  length-filter_lt p [] h = elim h [ ]
  length-filter_lt p (x ∷ xs) h = ground (arith, length-filter_lt p xs, length-filter_le p xs)

pub Exists-map :
    {A : Type 0} {P Q : A → Type 0} (xs : List A)
    → ((x : A) → P x → Q x)
    → Exists P xs
    → Exists Q xs
Exists-map [] f h = h
Exists-map (x ∷ xs) f (inl p) = inl (f x p)
Exists-map (x ∷ xs) f (inr h) = inr (Exists-map xs f h)

pub List-cases {ℓ} :
    {A : Type ℓ} (xs : List A) → (xs ≡ []) ⊎ ((x : A) × (rest : List A) × (xs ≡ x ∷ rest))
List-cases [] = inl refl
List-cases (x ∷ xs) = inr (x, xs, refl)
