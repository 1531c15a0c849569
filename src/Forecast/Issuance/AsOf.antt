-- ===== src/Forecast/Issuance/AsOf.antt =====
-- The vintages that an issuance has.
use spot_price.Prelude.{
  Bool, true, false, ◌&&◌, Option, none, some, List, [], ◌∷◌, ◌++◌, map, if◌then◌else◌, unwrap_or,
  or_else, or_else-none, ◌≡◌, refl, sym, ap, ◌∙◌, subst, arith, inl, inr, Bool-cases, Option-cases,
}
use spot_price.Prelude.Int.{ℤ, pos, negsuc, ◌*ℤ◌, leb_ℤ, ltb_ℤ, eq_ℤ, div_trunc}
use spot_price.Jiff.{Instant, IsInstant, millisecond}
use spot_price.Forecast.Quarter.{QuarterStart, QuarterMap, get_quarter}
use spot_price.Forecast.Quarter.Points.{same_quarter, IsAfter, IsAfter-none, IsAscending}
use spot_price.Forecast.Conformal.{at_rank}
use spot_price.Forecast.Series.Buckets.{GridRecord}
use spot_price.Forecast.Issuance.{
  GridVintage, Issued, sort_issued, partition_point, push_vintages, new_ladder, known_record,
  with_known, as_of_loop, as_of,
}
use spot_price.Forecast.Issuance.Newest.{newest, at_rank-newest}
use spot_price.Forecast.Issuance.Issues.{
  issues_of, issues-push_vintages, push_vintages-IsAscending, get_quarter-sorted,
  sorted-IsAscending,
}

whole_milliseconds : (m : ℤ) → div_trunc (m *ℤ pos millisecond) millisecond ≡ m
unfolding div_trunc ◌*ℤ◌
whole_milliseconds (pos n) = ground arith
whole_milliseconds (negsuc n) = ground arith

abbrev pub Found : Type 0 → Type 0 → Type 0
Found T F = List (GridRecord T F) × QuarterMap T

abbrev pub is_between : ℤ → ℤ → ℤ → Bool
is_between from_ms to_ms target = leb_ℤ from_ms target && ltb_ℤ target to_ms

eq_ℤ_refl : (a : ℤ) → eq_ℤ a a ≡ true
eq_ℤ_refl a = ground arith

module _ {T : Type 0} ⦃i : Instant T⦄ (laws : IsInstant T) where
  open i use {as_millisecond, from_millisecond}

  millisecond_back : (m : ℤ) (a : T) → from_millisecond m ≡ some a → as_millisecond a ≡ m
  millisecond_back m a e =
      laws.millisecond-eq a
      ∙ ap (λ n. div_trunc n millisecond) (laws.from_millisecond-eq m a e)
      ∙ whole_milliseconds m

module _ {T F : Type 0} ⦃i : Instant T⦄ where
  open i use {as_millisecond, from_millisecond}

  -- The value of the first record at a target.
  abbrev pub value_at : ℤ → List (GridRecord T F) → Option F
  value_at target [] = none
  value_at target (r ∷ records) =
      let rest = value_at target records in
      if eq_ℤ (as_millisecond r.start) target then some r.value else rest

  -- The value of the first record at a target, of a result that is not a panic.
  abbrev pub value_found : ℤ → Option (Found T F) → Option (Option F)
  value_found target none = none
  value_found target (some found) = some (value_at target found.0)

  abbrev pub value_of : Option (GridRecord T F × T) → Option F
  value_of none = none
  value_of (some (known, issued_at)) = some known.value

  value_at-snoc :
      (target : ℤ) (records : List (GridRecord T F)) (r : GridRecord T F)
      → value_at target (records ++ (r ∷ []))
        ≡ or_else
            (value_at target records)
            (if eq_ℤ (as_millisecond r.start) target then some r.value else none)
  value_at-snoc target [] r = refl
  value_at-snoc target (x ∷ records) r =
      let rest = value_at-snoc target records r in ground (arith, rest)

  module _ (laws : IsInstant T) where
    -- A known record is at its target.
    value_at-with_known :
        (target k : QuarterStart) (o : Option (ℤ × F)) (found : Found T F)
        → value_at k.start (with_known (known_record target o) found).0
          ≡ or_else
              (value_at k.start found.0)
              (if eq_ℤ target.start k.start then value_of (known_record target o) else none)
    value_at-with_known target k none found = ground arith
    value_at-with_known target k (some (issued, value)) found =
        elim (Option-cases (from_millisecond target.start)) [
          | inl e ↦ rw e (ground arith)
          | inr (start, e) ↦ elim (Option-cases (from_millisecond issued)) [
            | inl n ↦ rw e (rw n (ground arith))
            | inr (at, n) ↦
                let back = millisecond_back laws target.start start e in
                rw e (
                  rw n (
                    value_at-snoc k.start found.0 (record { start = start; value = value })
                    ∙ rw back refl))
          ]
        ]

    value_at-head :
        (q k : QuarterStart) (b : Bool) (o : Option (ℤ × F)) (found : Found T F)
        → value_at k.start (if b then with_known (known_record q o) found else found).0
          ≡ or_else (value_at k.start found.0) (
              if eq_ℤ q.start k.start
              then if b then value_of (known_record q o) else none
              else none)
    value_at-head q k true o found = value_at-with_known q k o found
    value_at-head q k false o found = ground arith

    -- What a ladder gives at a target.
    abbrev given : QuarterStart → ℤ → ℤ → ℤ → Issued F → Option F
    given k s from to l =
        if is_between from to k.start
        then value_of (known_record {T = T} k (at_rank l (partition_point s l)))
        else none

    given-nil : (k : QuarterStart) (s from to : ℤ) → given k s from to [] ≡ none
    given-nil k s from to = elim (Bool-cases (is_between from to k.start)) [
      | inl e ↦ rw e refl
      | inr e ↦ rw e refl
    ]

    abbrev step : ℤ → ℤ → ℤ → QuarterStart → Issued F → Found T F → Found T F
    step s from to q l found =
        if is_between from to q.start
        then with_known (known_record q (at_rank l (partition_point s l))) found
        else found

    -- The head of the entries is the only one at its target.
    value_at-first :
        (q : QuarterStart) (s from to : ℤ) (l : Issued F) (es : QuarterMap (Issued F))
        (found : Found T F)
        → IsAfter q es
        → value_at q.start (as_of_loop es s from to (step s from to q l found)).0
          ≡ or_else
              (value_at q.start (step s from to q l found).0)
              (given q s from to (unwrap_or (get_quarter q es) []))
        → value_at q.start (as_of_loop ((q, l) ∷ es) s from to found).0
          ≡ or_else
              (value_at q.start found.0)
              (given q s from to (unwrap_or (get_quarter q ((q, l) ∷ es)) []))
    value_at-first q s from to l es found after rest =
        let b = is_between from to q.start in
        let o = at_rank l (partition_point s l) in
        let before = value_at q.start (step s from to q l found).0 in
        let absent = ap (λ x. given q s from to (unwrap_or x [])) (IsAfter-none q es after) in
        let same = eq_ℤ_refl q.start in
        rest
        ∙ ap (or_else before) (absent ∙ given-nil q s from to)
        ∙ or_else-none before
        ∙ value_at-head q q b o found
        ∙ rw same refl

    -- What stands at a target behind the loop.
    value_at-loop :
        (k : QuarterStart) (s from to : ℤ) (entries : QuarterMap (Issued F)) (found : Found T F)
        → IsAscending entries
        → value_at k.start (as_of_loop entries s from to found).0
          ≡ or_else
              (value_at k.start found.0)
              (given k s from to (unwrap_or (get_quarter k entries) []))
    value_at-loop k s from to [] found h = sym (
        ap (or_else (value_at k.start found.0)) (given-nil k s from to)
        ∙ or_else-none (value_at k.start found.0))
    value_at-loop k s from to ((q, l) ∷ es) found (after, h) =
        let b = is_between from to q.start in
        let o = at_rank l (partition_point s l) in
        let head = value_at-head q k b o found in
        let rest = value_at-loop k s from to es (step s from to q l found) h in
        let behind = given k s from to (unwrap_or (get_quarter k es) []) in
        elim (Bool-cases (eq_ℤ q.start k.start)) [
          | inl e ↦
              let same = same_quarter q k e in
              subst
                (λ x.
                  value_at x.start (as_of_loop ((q, l) ∷ es) s from to found).0
                  ≡ or_else (value_at x.start found.0)
                      (given x s from to (unwrap_or (get_quarter x ((q, l) ∷ es)) [])))
                same
                (value_at-first q s from to l es found after
                  (value_at-loop q s from to es (step s from to q l found) h))
          | inr e ↦
              let kept : value_at k.start (step s from to q l found).0 ≡ value_at k.start found.0 =
                head ∙ rw e (or_else-none (value_at k.start found.0)) in
              rw e (rest ∙ ap (λ x. or_else x behind) kept)
        ]

    -- The first record that an issuance has at a target in its range has the value of the newest
    -- vintage of the target that was issued before it and before the bound of the ladder, of equals
    -- the last, when both times are instants. Without such a vintage there is no record. The code
    -- panics exactly when the range ends before it starts.
    pub as_of_lem :
        (vintages : List (GridVintage T F)) (before_ms issued_ms from_ms to_ms target : ℤ)
        → value_found target (as_of (new_ladder vintages before_ms) issued_ms from_ms to_ms) ≡ (
            if ltb_ℤ to_ms from_ms
            then none
            else some (
                if is_between from_ms to_ms target
                then value_of (
                    known_record {T = T}
                      (record { start = target })
                      (newest issued_ms (issues_of target before_ms vintages)))
                else none))
    unfolding as_of new_ladder
    as_of_lem vintages before s from to target =
        let k : QuarterStart = record { start = target } in
        let raw = push_vintages [] before vintages in
        let issues = issues_of target before vintages in
        let ascending = sorted-IsAscending raw (push_vintages-IsAscending before vintages [] tt) in
        let found =
          value_at-loop k s from to (map (λ e. (e.0, sort_issued e.1)) raw) ([], []) ascending
          ∙ ap (given k s from to) (
              get_quarter-sorted k raw ∙ ap sort_issued (issues-push_vintages k before vintages []))
          ∙ ap
              (λ o. if is_between from to target then value_of (known_record {T = T} k o) else none)
              (at_rank-newest s issues) in
        elim (Bool-cases (ltb_ℤ to from)) [ inl e ↦ rw e refl | inr e ↦ rw e (ap some found) ]
