-- ===== src/Forecast/Quarter/Points.antt =====
-- The maps of points by quarter.
use spot_price.Prelude.{
  Bool, true, false, Option, none, some, List, [], ◌∷◌, ◌≡◌, refl, arith, inl, inr, ◌∙◌, ap,
  if◌then◌else◌, Bool-cases, All, All-map, ◌+◌, or_else, or_else-none,
}
use spot_price.Prelude.Int.{eq_of_parts, eq_ℤ, ltb_ℤ, ◌<ℤ◌, pos_part, neg_part}
use spot_price.Jiff.{Instant}
use spot_price.Forecast.Quarter.{
  QuarterStart, QuarterMap, quarter_floor, insert_quarter, get_quarter, insert_points, quarter_map,
}

pub same_quarter : (a b : QuarterStart) → eq_ℤ a.start b.start ≡ true → a ≡ b
same_quarter a b h =
    ap (λ s. record { start = s }) (eq_of_parts a.start b.start (ground (arith, h)))

module _ {F : Type 0} where
  abbrev pub IsAfter : QuarterStart → QuarterMap F → Type 0
  IsAfter quarter entries = All (λ e. quarter.start <ℤ e.0.start) entries

  -- A map has no value at a quarter before its keys.
  pub IsAfter-none : (q : QuarterStart) (es : QuarterMap F) → IsAfter q es → get_quarter q es ≡ none
  IsAfter-none q [] h = refl
  IsAfter-none q ((key, v) ∷ es) (l, h) = ground (arith, IsAfter-none q es h)

  -- The keys ascend.
  abbrev pub IsAscending : QuarterMap F → Type 0
  IsAscending [] = Unit
  IsAscending ((q, v) ∷ entries) = IsAfter q entries × IsAscending entries

  insert_quarter-IsAfter :
      (k quarter : QuarterStart) (value : F) (entries : QuarterMap F)
      → k.start <ℤ quarter.start
      → IsAfter k entries
      → IsAfter k (insert_quarter quarter value entries)
  insert_quarter-IsAfter k quarter value [] h after = (h, tt)
  insert_quarter-IsAfter k quarter value ((q, v) ∷ entries) h (first, after) =
      let rest = insert_quarter-IsAfter k quarter value entries h after in
      elim (Bool-cases (ltb_ℤ quarter.start q.start)) [
        | inl e ↦ rw e (h, (first, after))
        | inr e ↦ elim (Bool-cases (eq_ℤ quarter.start q.start)) [
          | inl p ↦ rw e (rw p (h, after))
          | inr p ↦ rw e (rw p (first, rest))
        ]
      ]

  pub insert_quarter-IsAscending :
      (quarter : QuarterStart) (value : F) (entries : QuarterMap F)
      → IsAscending entries
      → IsAscending (insert_quarter quarter value entries)
  insert_quarter-IsAscending quarter value [] h = (tt, tt)
  insert_quarter-IsAscending quarter value ((q, v) ∷ entries) (after, h) =
      let rest = insert_quarter-IsAscending quarter value entries h in
      elim (Bool-cases (ltb_ℤ quarter.start q.start)) [
        | inl e ↦
            let low : quarter.start <ℤ q.start = ground (arith, e) in
            let later = All-map entries (λ x k. omega (arith, low, k)) after in
            rw e ((low, later), (after, h))
        | inr e ↦ elim (Bool-cases (eq_ℤ quarter.start q.start)) [
          | inl p ↦
              let same : pos_part quarter.start + neg_part q.start
                  ≡ pos_part q.start + neg_part quarter.start =
                ground (arith, p) in
              let later = All-map entries (λ x k. omega (arith, same, k)) after in
              rw e (rw p (later, h))
          | inr p ↦
              let high : q.start <ℤ quarter.start = ground (arith, e, p) in
              rw e (rw p (insert_quarter-IsAfter q quarter value entries high after, rest))
        ]
      ]

  pub get_quarter-insert :
      (k quarter : QuarterStart) (value : F) (entries : QuarterMap F)
      → get_quarter k (insert_quarter quarter value entries)
        ≡ (if eq_ℤ quarter.start k.start then some value else get_quarter k entries)
  get_quarter-insert k quarter value [] = refl
  get_quarter-insert k quarter value ((q, v) ∷ entries) =
      let rest = get_quarter-insert k quarter value entries in ground (arith, rest)

  or_else-if :
      (o : Option F) (c : Bool) (v : F) (g : Option F)
      → or_else o (if c then some v else g) ≡ or_else (or_else o (if c then some v else none)) g
  or_else-if (some a) c v g = refl
  or_else-if none true v g = refl
  or_else-if none false v g = refl

  module _ {T : Type 0} ⦃i : Instant T⦄ where
    -- The value of the last point in a quarter.
    abbrev pub last_value : QuarterStart → List (T × F) → Option F
    last_value quarter [] = none
    last_value quarter ((at, value) ∷ points) =
        or_else (last_value quarter points)
          (if eq_ℤ (quarter_floor at).start quarter.start then some value else none)

    insert_points-IsAscending :
        (entries : QuarterMap F) (points : List (T × F))
        → IsAscending entries
        → IsAscending (insert_points entries points)
    insert_points-IsAscending entries [] h = h
    insert_points-IsAscending entries ((at, value) ∷ points) h =
        insert_points-IsAscending (insert_quarter (quarter_floor at) value entries) points
          (insert_quarter-IsAscending (quarter_floor at) value entries h)

    get_quarter-insert_points :
        (quarter : QuarterStart) (entries : QuarterMap F) (points : List (T × F))
        → get_quarter quarter (insert_points entries points)
          ≡ or_else (last_value quarter points) (get_quarter quarter entries)
    get_quarter-insert_points quarter entries [] = refl
    get_quarter-insert_points quarter entries ((at, value) ∷ points) =
        let inserted = insert_quarter (quarter_floor at) value entries in
        let rest = get_quarter-insert_points quarter inserted points in
        let one = get_quarter-insert quarter (quarter_floor at) value entries in
        rest
        ∙ ap (or_else (last_value quarter points)) one
        ∙ or_else-if (last_value quarter points) (eq_ℤ (quarter_floor at).start quarter.start) value
            (get_quarter quarter entries)

    -- A map of points has ascending quarters, and a quarter has the value of its last point, if any.
    pub quarter_map_lem :
        (points : List (T × F))
        → IsAscending (quarter_map points)
          × ((quarter : QuarterStart)
              → get_quarter quarter (quarter_map points) ≡ last_value quarter points)
    unfolding quarter_map
    quarter_map_lem points = (
      insert_points-IsAscending [] points tt,
      λ quarter.
          get_quarter-insert_points quarter [] points ∙ or_else-none (last_value quarter points),
    )
