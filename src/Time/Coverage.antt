-- ===== src/Time/Coverage.antt =====
-- `covers_range`: the sweep over the sorted periods finds every gap.
use spot_price.Prelude.{
  true, false, List, [], ◌∷◌, ◌≡◌, ◌↔◌, ◌⊎◌, inl, inr, refl, arith, All, All-map, Exists,
  Bool-cases,
}
use spot_price.Prelude.Int.{◌≤ℤ◌, ◌<ℤ◌, leb_ℤ}
use spot_price.Jiff.{Instant, IsInstant}
use spot_price.Time.{UtcRange, le_period, insert_period, sort_periods, later, sweep, covers_range}

module _ {T : Type 0} ⦃i : Instant T⦄ where
  open i use {as_nanosecond as ns, le, lt, eq}

  -- The period `(start, end)` holds the instant.
  abbrev pub Holds : T → T × T → Type 0
  Holds t p = (ns p.0 ≤ℤ ns t) × (ns t <ℤ ns p.1)

  -- Every instant of the range is in some period.
  abbrev pub IsCovered : List (T × T) → UtcRange T → Type 0
  IsCovered periods range =
      (t : T) → ns range.start ≤ℤ ns t → ns t <ℤ ns range.end → Exists (Holds t) periods

  abbrev StartsFrom : T → List (T × T) → Type 0
  StartsFrom s = All λ p. ns s ≤ℤ ns p.0

  abbrev IsSorted : List (T × T) → Type 0
  IsSorted [] = Unit
  IsSorted (p ∷ ps) = StartsFrom p.0 ps × IsSorted ps

  module _ (laws : IsInstant T) where
    open laws use {le-eq, lt-eq, eq_lem}

    le_period-start : (p q : T × T) → le_period p q ≡ true → ns p.0 ≤ℤ ns q.0
    le_period-start (s, e) (s', e') h = ground (arith, lt-eq s s', eq_lem s s')

    not-le_period-start : (p q : T × T) → le_period p q ≡ false → ns q.0 ≤ℤ ns p.0
    not-le_period-start (s, e) (s', e') h = ground (arith, lt-eq s s')

    StartsFrom-insert :
        (s : T) (p : T × T) (qs : List (T × T))
        → ns s ≤ℤ ns p.0
        → StartsFrom s qs
        → StartsFrom s (insert_period p qs)
    unfolding insert_period
    StartsFrom-insert s p [] h a = (h, tt)
    StartsFrom-insert s p (q ∷ qs) h a = ground (arith, StartsFrom-insert s p qs h a.1)

    insert_period-IsSorted :
        (p : T × T) (qs : List (T × T)) → IsSorted qs → IsSorted (insert_period p qs)
    unfolding insert_period
    insert_period-IsSorted p [] h = (tt, tt)
    insert_period-IsSorted p (q ∷ qs) h = elim (Bool-cases (le_period p q)) [
      | inl before ↦
          let first = le_period-start p q before in
          rw before ((first, All-map qs (λ r k. omega arith) h.0), h)
      | inr after ↦ rw after (
        StartsFrom-insert q.0 p qs (not-le_period-start p q after) h.0,
        insert_period-IsSorted p qs h.1,
      )
    ]

    sort_periods-IsSorted : (ps : List (T × T)) → IsSorted (sort_periods ps)
    unfolding sort_periods
    sort_periods-IsSorted [] = tt
    sort_periods-IsSorted (p ∷ ps) =
        insert_period-IsSorted p (sort_periods ps) (sort_periods-IsSorted ps)

    Exists-insert_period :
        (P : T × T → Type 0) (p : T × T) (qs : List (T × T))
        → Exists P (insert_period p qs) ↔ (P p ⊎ Exists P qs)
    unfolding insert_period
    Exists-insert_period P p [] = (λ h. h, λ h. h)
    Exists-insert_period P p (q ∷ qs) = ground (arith, Exists-insert_period P p qs)

    Exists-sort_periods :
        (P : T × T → Type 0) (ps : List (T × T)) → Exists P (sort_periods ps) ↔ Exists P ps
    unfolding sort_periods
    Exists-sort_periods P [] = (λ h. h, λ h. h)
    Exists-sort_periods P (p ∷ ps) =
        ground (arith, Exists-insert_period P p (sort_periods ps), Exists-sort_periods P ps)

    ns-later :
        (a b : T)
        → (ns a ≤ℤ ns (later a b))
          × (ns b ≤ℤ ns (later a b))
          × ((t : T) → ns a ≤ℤ ns t → ns b ≤ℤ ns t → ns (later a b) ≤ℤ ns t)
    ns-later a b =
        (ground (arith, le-eq a b), ground (arith, le-eq a b), λ t p q. ground (arith, le-eq a b))

    -- a period that starts later than the instant does not hold it
    not-Exists-Holds :
        (t s : T) (ps : List (T × T)) → ns t <ℤ ns s → StartsFrom s ps → ¬ Exists (Holds t) ps
    not-Exists-Holds t s [] h a = λ e. e
    not-Exists-Holds t s (p ∷ ps) h a = ground (arith, not-Exists-Holds t s ps h a.1)

    sweep_iff :
        (end covered : T) (ps : List (T × T))
        → IsSorted ps
        → (sweep end covered ps ≡ true) ↔ IsCovered ps (record { start = covered; end = end })
    unfolding sweep
    sweep_iff end covered [] h = (
      λ p t from to. absurd (ground (arith, le-eq end covered)),
      λ all. elim (Bool-cases (le end covered)) [
        | inl reached ↦ reached
        | inr still ↦ absurd (all covered (omega arith) (ground (arith, le-eq end covered)))
      ],
    )
    sweep_iff end covered ((s, e) ∷ ps) h =
        let (up, over, least) = ns-later covered e in
        let step = sweep_iff end (later covered e) ps h.1 in
        elim (Bool-cases (le end covered)) [
          | inl reached ↦
              rw reached (λ p t from to. absurd (ground (arith, le-eq end covered)), λ all. refl)
          | inr still ↦ elim (Bool-cases (lt covered s)) [
            | inl gap ↦
                rw (still, gap)
                  (
                    λ p. cc,
                    λ all. absurd (
                        not-Exists-Holds covered s ((s, e) ∷ ps) (ground (arith, lt-eq covered s))
                          (omega arith, h.0)
                          (all covered (omega arith) (ground (arith, le-eq end covered)))),
                  )
            | inr joined ↦
                rw (still, joined)
                  (
                    λ p t from to. elim (Bool-cases (leb_ℤ (ns e) (ns t))) [
                      | inl past ↦ inr (step.0 p t (least t from (ground arith)) to)
                      | inr held ↦ inl (ground (arith, lt-eq covered s), ground arith)
                    ],
                    λ all. step.1 λ t from to. elim (all t (omega arith) to) [
                      | inl held ↦ absurd (omega arith)
                      | inr rest ↦ rest
                    ],
                  )
          ]
        ]

    -- `covers_range` answers true exactly when every instant of the range lies in some period, in
    -- whatever order the periods come and however they overlap. Instants are ordered by their
    -- nanoseconds.
    pub covers_range_iff :
        (periods : List (T × T)) (range : UtcRange T)
        → (covers_range periods range ≡ true) ↔ IsCovered periods range
    unfolding covers_range
    covers_range_iff periods range =
        let found = λ (t : T). Exists-sort_periods (Holds t) periods in
        let loop =
          sweep_iff range.end range.start (sort_periods periods) (sort_periods-IsSorted periods) in
        (
          λ h t from to. (found t).0 (loop.0 h t from to),
          λ all. loop.1 (λ t from to. (found t).1 (all t from to)),
        )
