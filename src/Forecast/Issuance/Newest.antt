-- ===== src/Forecast/Issuance/Newest.antt =====
-- The newest entry of the issues of a target.
use spot_price.Prelude.{
  true, false, ◌&&◌, Option, none, some, [], ◌∷◌, All, All-map, if◌then◌else◌, or_else, ◌≡◌, refl,
  ap, ◌∙◌, arith, inl, inr, Bool-cases, Option-cases,
}
use spot_price.Prelude.Int.{ℤ, ◌≤ℤ◌, ◌<ℤ◌, ltb_ℤ}
use spot_price.Forecast.Conformal.{at_rank}
use spot_price.Forecast.Issuance.{Issued, insert_issued, sort_issued, partition_point}

module _ {F : Type 0} where
  -- Of an entry and the newest of those behind it, the newer one, and of equals the second.
  abbrev pub newer : ℤ → ℤ × F → Option (ℤ × F) → Option (ℤ × F)
  newer issued_ms x none = if ltb_ℤ x.0 issued_ms then some x else none
  newer issued_ms x (some w) = if ltb_ℤ w.0 x.0 && ltb_ℤ x.0 issued_ms then some x else some w

  -- The last of the entries with the latest issue time before `issued_ms`.
  abbrev pub newest : ℤ → Issued F → Option (ℤ × F)
  newest issued_ms [] = none
  newest issued_ms (x ∷ xs) = newer issued_ms x (newest issued_ms xs)

  -- The last entry that is before `issued_ms`, up to the first that is not.
  abbrev last_known : ℤ → Issued F → Option (ℤ × F)
  last_known issued_ms [] = none
  last_known issued_ms (x ∷ xs) =
      let rest = last_known issued_ms xs in
      if ltb_ℤ x.0 issued_ms then or_else rest (some x) else none

  or_else-twice :
      (o : Option (ℤ × F)) (x y : ℤ × F)
      → or_else o (some y) ≡ or_else (or_else o (some y)) (some x)
  or_else-twice none x y = refl
  or_else-twice (some w) x y = refl

  at_rank-last_known :
      (issued_ms : ℤ) (xs : Issued F)
      → at_rank xs (partition_point issued_ms xs) ≡ last_known issued_ms xs
  at_rank-last_known s [] = refl
  at_rank-last_known s (x ∷ []) = ground arith
  at_rank-last_known s (x ∷ (y ∷ ys)) =
      let rest = at_rank-last_known s (y ∷ ys) in
      let twice = or_else-twice (last_known s ys) x y in ground (arith, rest, twice)

  abbrev AreAfter : ℤ → Issued F → Type 0
  AreAfter ms xs = All (λ x. ms ≤ℤ x.0) xs

  abbrev AreSorted : Issued F → Type 0
  AreSorted [] = Unit
  AreSorted (x ∷ xs) = AreAfter x.0 xs × AreSorted xs

  insert_issued-AreAfter :
      (ms : ℤ) (x : ℤ × F) (ys : Issued F)
      → ms ≤ℤ x.0
      → AreAfter ms ys
      → AreAfter ms (insert_issued x ys)
  insert_issued-AreAfter ms x [] h k = (h, tt)
  insert_issued-AreAfter ms x (y ∷ ys) h (k, ks) =
      let rest = insert_issued-AreAfter ms x ys h ks in
      elim (Bool-cases (ltb_ℤ y.0 x.0)) [ inl e ↦ rw e (k, rest) | inr e ↦ rw e (h, (k, ks)) ]

  insert_issued-AreSorted :
      (x : ℤ × F) (ys : Issued F) → AreSorted ys → AreSorted (insert_issued x ys)
  insert_issued-AreSorted x [] h = (tt, tt)
  insert_issued-AreSorted x (y ∷ ys) (after, h) =
      let rest = insert_issued-AreSorted x ys h in
      elim (Bool-cases (ltb_ℤ y.0 x.0)) [
        | inl e ↦
            let low : y.0 ≤ℤ x.0 = ground (arith, e) in
            rw e (insert_issued-AreAfter y.0 x ys low after, rest)
        | inr e ↦
            let low : x.0 ≤ℤ y.0 = ground (arith, e) in
            rw e ((low, All-map ys (λ z k. omega (arith, low, k)) after), (after, h))
      ]

  sort_issued-AreSorted : (xs : Issued F) → AreSorted (sort_issued xs)
  sort_issued-AreSorted [] = tt
  sort_issued-AreSorted (x ∷ xs) =
      insert_issued-AreSorted x (sort_issued xs) (sort_issued-AreSorted xs)

  -- A known entry is one of the list.
  last_known-after :
      (s ms : ℤ) (xs : Issued F) (w : ℤ × F)
      → AreAfter ms xs
      → last_known s xs ≡ some w
      → (ms ≤ℤ w.0) × (w.0 <ℤ s)
  last_known-after s ms [] w h e = ground (arith, e)
  last_known-after s ms (x ∷ xs) w (h, hs) e = elim (Option-cases (last_known s xs)) [
    | inl n ↦ ground (arith, n, e, h)
    | inr (v, n) ↦ let rest = last_known-after s ms xs v hs n in ground (arith, n, e, rest)
  ]

  last_known-insert :
      (s : ℤ) (x : ℤ × F) (ys : Issued F)
      → AreSorted ys
      → last_known s (insert_issued x ys) ≡ newer s x (last_known s ys)
  last_known-insert s x [] h = refl
  last_known-insert s x (y ∷ ys) (after, h) =
      let rest = last_known-insert s x ys h in
      elim (Bool-cases (ltb_ℤ y.0 x.0)) [
        | inl e ↦ rw e (behind e rest)
        | inr e ↦ rw e (before e (last_known s (y ∷ ys)) refl)
      ]
    where
      behind :
          ltb_ℤ y.0 x.0 ≡ true
          → last_known s (insert_issued x ys) ≡ newer s x (last_known s ys)
          → last_known s (y ∷ insert_issued x ys) ≡ newer s x (last_known s (y ∷ ys))
      behind e rest = elim (Option-cases (last_known s ys)) [
        | inl n ↦ ground (arith, e, rest, n)
        | inr (v, n) ↦ ground (arith, e, rest, n)
      ]

      before :
          ltb_ℤ y.0 x.0 ≡ false
          → (o : Option (ℤ × F)) → last_known s (y ∷ ys) ≡ o
          → last_known s (x ∷ y ∷ ys) ≡ newer s x (last_known s (y ∷ ys))
      before e none n = ground (arith, e, n)
      before e (some v) n =
          let low : x.0 ≤ℤ y.0 = ground (arith, e) in
          let v_after =
            last_known-after s x.0 (y ∷ ys) v (low, All-map ys (λ z k. omega (arith, low, k)) after)
              n in
          ground (arith, e, n, v_after)

  -- The entry that the search by `partition_point` finds is the newest one.
  pub at_rank-newest :
      (s : ℤ) (xs : Issued F)
      → at_rank (sort_issued xs) (partition_point s (sort_issued xs)) ≡ newest s xs
  at_rank-newest s xs = at_rank-last_known s (sort_issued xs) ∙ sorted_newest xs
    where
      sorted_newest : (xs : Issued F) → last_known s (sort_issued xs) ≡ newest s xs
      sorted_newest [] = refl
      sorted_newest (x ∷ xs) =
          last_known-insert s x (sort_issued xs) (sort_issued-AreSorted xs)
          ∙ ap (newer s x) (sorted_newest xs)
