-- ===== src/Forecast/Issuance/Issues.antt =====
-- The issues of a target in a ladder.
use spot_price.Prelude.{
  ◌&&◌, List, [], ◌∷◌, ◌++◌, map, if◌then◌else◌, unwrap_or, append_assoc, append_nil, ◌≡◌, refl,
  sym, ap, ◌∙◌, subst, arith, inl, inr, Bool-cases,
}
use spot_price.Prelude.Int.{ℤ, ltb_ℤ, eq_ℤ}
use spot_price.Jiff.{Instant}
use spot_price.Forecast.Quarter.{QuarterStart, QuarterMap, get_quarter}
use spot_price.Forecast.Quarter.Points.{
  same_quarter, IsAfter, IsAscending, insert_quarter-IsAscending, get_quarter-insert,
}
use spot_price.Forecast.Issuance.{GridVintage, Issued, push_issued, sort_issued, push_vintages}

module _ {F : Type 0} where
  issues-pushed :
      (target k : QuarterStart) (x : ℤ × F) (m : QuarterMap (Issued F))
      → unwrap_or (get_quarter k (push_issued target x m)) []
        ≡ unwrap_or (get_quarter k m) [] ++ (if eq_ℤ target.start k.start then x ∷ [] else [])
  issues-pushed target k x m =
      let pushed = unwrap_or (get_quarter target m) [] ++ (x ∷ []) in
      let inserted = get_quarter-insert k target pushed m in
      elim (Bool-cases (eq_ℤ target.start k.start)) [
        | inl e ↦
            subst
              (λ q.
                unwrap_or (get_quarter q (push_issued target x m)) []
                ≡ unwrap_or (get_quarter q m) []
                  ++ (if eq_ℤ target.start q.start then x ∷ [] else []))
              (same_quarter target k e)
              (ap (λ o. unwrap_or o []) (get_quarter-insert target target pushed m) ∙ ground arith)
        | inr e ↦
            ap (λ o. unwrap_or o []) inserted
            ∙ rw e (sym (append_nil (unwrap_or (get_quarter k m) [])))
      ]

  -- The lists of a map are sorted in place.
  pub get_quarter-sorted :
      (k : QuarterStart) (m : QuarterMap (Issued F))
      → unwrap_or (get_quarter k (map (λ e. (e.0, sort_issued e.1)) m)) []
        ≡ sort_issued (unwrap_or (get_quarter k m) [])
  get_quarter-sorted k [] = refl
  get_quarter-sorted k ((q, l) ∷ m) =
      let rest = get_quarter-sorted k m in
      elim (Bool-cases (eq_ℤ q.start k.start)) [ inl e ↦ rw e refl | inr e ↦ rw e rest ]

  sorted-IsAfter :
      (q : QuarterStart) (m : QuarterMap (Issued F))
      → IsAfter q m
      → IsAfter q (map (λ e. (e.0, sort_issued e.1)) m)
  sorted-IsAfter q [] h = tt
  sorted-IsAfter q (e ∷ m) (h, hs) = (h, sorted-IsAfter q m hs)

  pub sorted-IsAscending :
      (m : QuarterMap (Issued F))
      → IsAscending m
      → IsAscending (map (λ e. (e.0, sort_issued e.1)) m)
  sorted-IsAscending [] h = tt
  sorted-IsAscending ((q, l) ∷ m) (h, hs) = (sorted-IsAfter q m h, sorted-IsAscending m hs)

module _ {T F : Type 0} ⦃i : Instant T⦄ where
  open i use {as_millisecond, from_millisecond}

  -- The issues of a target before `before_ms`, in the order of the vintages.
  abbrev pub issues_of : ℤ → ℤ → List (GridVintage T F) → Issued F
  issues_of target before_ms [] = []
  issues_of target before_ms (v ∷ vintages) =
      let rest = issues_of target before_ms vintages in
      if eq_ℤ (as_millisecond v.start) target && ltb_ℤ (as_millisecond v.issued_at) before_ms
      then (as_millisecond v.issued_at, v.value) ∷ rest
      else rest

  pub issues-push_vintages :
      (k : QuarterStart) (before_ms : ℤ) (vintages : List (GridVintage T F))
      (m : QuarterMap (Issued F))
      → unwrap_or (get_quarter k (push_vintages m before_ms vintages)) []
        ≡ unwrap_or (get_quarter k m) [] ++ issues_of k.start before_ms vintages
  issues-push_vintages k before [] m = sym (append_nil (unwrap_or (get_quarter k m) []))
  issues-push_vintages k before (v ∷ vintages) m =
      let target : QuarterStart = record { start = as_millisecond v.start } in
      let x : ℤ × F = (as_millisecond v.issued_at, v.value) in
      let pushed = push_issued target x m in
      let found = unwrap_or (get_quarter k m) [] in
      let behind = issues_of k.start before vintages in
      let one = issues-pushed target k x m in
      elim (Bool-cases (ltb_ℤ (as_millisecond v.issued_at) before)) [
        | inr e ↦
            let rest = issues-push_vintages k before vintages m in
            rw e (elim (Bool-cases (eq_ℤ target.start k.start)) [
              | inl t ↦ rw t rest
              | inr t ↦ rw t rest
            ])
        | inl e ↦
            let rest =
              issues-push_vintages k before vintages pushed
              ∙ ap (λ l. l ++ behind) one
              ∙ append_assoc found (if eq_ℤ target.start k.start then x ∷ [] else []) behind in
            rw e (elim (Bool-cases (eq_ℤ target.start k.start)) [
              | inl t ↦ rw t (rest ∙ rw t refl)
              | inr t ↦ rw t (rest ∙ rw t refl)
            ])
      ]

  pub push_vintages-IsAscending :
      (before_ms : ℤ) (vintages : List (GridVintage T F)) (m : QuarterMap (Issued F))
      → IsAscending m
      → IsAscending (push_vintages m before_ms vintages)
  push_vintages-IsAscending before [] m h = h
  push_vintages-IsAscending before (v ∷ vintages) m h =
      elim (Bool-cases (ltb_ℤ (as_millisecond v.issued_at) before)) [
        | inl e ↦
            rw e (push_vintages-IsAscending before vintages _ (insert_quarter-IsAscending _ _ m h))
        | inr e ↦ rw e (push_vintages-IsAscending before vintages m h)
      ]
