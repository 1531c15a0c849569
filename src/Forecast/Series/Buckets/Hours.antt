-- ===== src/Forecast/Series/Buckets/Hours.antt =====
-- The quarters that the value at the top of an hour fills.
use spot_price.Prelude.{
  ℕ, ◌*◌, ◌≤◌, Bool, true, false, Option, none, some, [], ◌∷◌, All, if◌then◌else◌, ◌==◌, or_else,
  or_else-none, ◌≡◌, refl, sym, ap, ◌∙◌, subst, arith, inl, inr, Bool-cases, Option-cases,
}
use spot_price.Prelude.Int.{ℤ, pos, negsuc, ◌+ℤ◌, ◌-ℤ◌, ◌≤ℤ◌, eq_ℤ, rem_euclid}
use spot_price.Forecast.Quarter.{
  QuarterStart, QuarterMap, quarter_offset, quarter_from_millisecond, get_quarter, quarter_ms,
  hour_ms,
}
use spot_price.Forecast.Quarter.Points.{
  same_quarter, IsAfter-none, IsAscending, IsAfter, get_quarter-insert,
}
use spot_price.Forecast.Series.Buckets.{is_some, fill_quarter, fill_hour, fill_hours}
use spot_price.Forecast.Series.Gaps.Lookup.{
  IsQuarter, quarter_from_millisecond-IsQuarter, saturate-IsMillisecond,
}

-- Far inside the range of `i64`, and beyond that of an instant.
abbrev pub IsInRange : ℤ → Type 0
IsInRange ms = (negsuc 2_000_000_000_000_000_000 ≤ℤ ms) × (ms ≤ℤ pos 2_000_000_000_000_000_000)

abbrev pub IsKey : ℤ → Type 0
IsKey ms = (rem_euclid ms quarter_ms ≡ 0) × IsInRange ms

-- The quarter at the top of the hour that holds a quarter.
abbrev pub top_of_hour : QuarterStart → QuarterStart
top_of_hour q = record { start = q.start -ℤ pos (rem_euclid q.start hour_ms) }

IsKey-later : (c : ℤ) (k : ℕ) → IsKey c → k ≤ 3 → IsQuarter (c +ℤ pos (k * quarter_ms))
unfolding rem_euclid ◌+ℤ◌
IsKey-later (pos n) k h l = ground arith
IsKey-later (negsuc n) k h l = ground arith

quarter_offset_lem :
    (key : QuarterStart) (k : ℕ)
    → IsKey key.start
    → k ≤ 3
    → (quarter_offset key (pos (k * quarter_ms))).start ≡ key.start +ℤ pos (k * quarter_ms)
unfolding quarter_offset
quarter_offset_lem key k h l =
    let later = IsKey-later key.start k h l in
    ap (λ ms. (quarter_from_millisecond ms).start) (saturate-IsMillisecond _ later.1)
    ∙ quarter_from_millisecond-IsQuarter _ later

-- A quarter is one to three quarters behind the top of an hour exactly if that top is its own.
top_of_hour_lem :
    (c q : ℤ)
    → rem_euclid c quarter_ms ≡ 0
    → rem_euclid q quarter_ms ≡ 0
    → eq_ℤ c q ≡ false
    → (if rem_euclid c hour_ms == 0
        then if eq_ℤ (c +ℤ pos (3 * quarter_ms)) q
          then true
          else if eq_ℤ (c +ℤ pos (2 * quarter_ms)) q
          then true
          else eq_ℤ (c +ℤ pos (1 * quarter_ms)) q
        else false)
      ≡ eq_ℤ c (q -ℤ pos (rem_euclid q hour_ms))
unfolding rem_euclid ◌+ℤ◌ ◌-ℤ◌
top_of_hour_lem (pos m) (pos n) p r e = ground arith
top_of_hour_lem (pos m) (negsuc n) p r e = ground arith
top_of_hour_lem (negsuc m) (pos n) p r e = ground arith
top_of_hour_lem (negsuc m) (negsuc n) p r e = ground arith

chosen :
    {A : Type 0} (b c3 c2 c1 : Bool) (x y : A)
    → (if b then if c3 then x else if c2 then x else if c1 then x else y else y)
      ≡ (if if b then if c3 then true else if c2 then true else c1 else false then x else y)
chosen true true c2 c1 x y = refl
chosen true false true c1 x y = refl
chosen true false false c1 x y = refl
chosen false c3 c2 c1 x y = refl

module _ {F : Type 0} where
  -- A quarter that has a value keeps it.
  fill_quarter-keeps :
      (quarters out : QuarterMap F) (key q : QuarterStart) (v : F) (k : ℕ)
      → is_some (get_quarter q quarters) ≡ true
      → get_quarter q (fill_quarter quarters key v k out) ≡ get_quarter q out
  fill_quarter-keeps quarters out key q v k h =
      let filled = quarter_offset key (pos (k * quarter_ms)) in
      elim (Bool-cases (is_some (get_quarter filled quarters))) [
        | inl e ↦ rw e refl
        | inr e ↦
            let looked = get_quarter-insert q filled v out in
            elim (Bool-cases (eq_ℤ filled.start q.start)) [
              | inl s ↦
                  let known =
                    ap (λ x. is_some (get_quarter x quarters)) (same_quarter filled q s) in
                  absurd (ground (arith, known, e, h))
              | inr s ↦ rw e (looked ∙ rw s refl)
            ]
      ]

  fill_hour-keeps :
      (quarters out : QuarterMap F) (key q : QuarterStart) (v : F)
      → is_some (get_quarter q quarters) ≡ true
      → get_quarter q (fill_hour quarters key v out) ≡ get_quarter q out
  fill_hour-keeps quarters out key q v h =
      let first = fill_quarter quarters key v 1 out in
      let second = fill_quarter quarters key v 2 first in
      elim (Bool-cases (rem_euclid key.start hour_ms == 0)) [
        | inl e ↦ rw e (
            fill_quarter-keeps quarters second key q v 3 h
            ∙ fill_quarter-keeps quarters first key q v 2 h
            ∙ fill_quarter-keeps quarters out key q v 1 h)
        | inr e ↦ rw e refl
      ]

  fill_hours-keeps :
      (quarters es out : QuarterMap F) (q : QuarterStart)
      → is_some (get_quarter q quarters) ≡ true
      → get_quarter q (fill_hours quarters es out) ≡ get_quarter q out
  fill_hours-keeps quarters [] out q h = refl
  fill_hours-keeps quarters ((key, v) ∷ es) out q h =
      fill_hours-keeps quarters es (fill_hour quarters key v out) q h
      ∙ fill_hour-keeps quarters out key q v h

  -- A quarter that has none gets the value of the top of its hour.
  get_quarter-fill_quarter :
      (quarters out : QuarterMap F) (key q : QuarterStart) (v : F) (k : ℕ)
      → IsKey key.start
      → k ≤ 3
      → get_quarter q quarters ≡ none
      → get_quarter q (fill_quarter quarters key v k out)
        ≡ (if eq_ℤ (key.start +ℤ pos (k * quarter_ms)) q.start then some v else get_quarter q out)
  get_quarter-fill_quarter quarters out key q v k h l u =
      let filled = quarter_offset key (pos (k * quarter_ms)) in
      let start = quarter_offset_lem key k h l in
      elim (Bool-cases (is_some (get_quarter filled quarters))) [
        | inl e ↦ elim (Bool-cases (eq_ℤ filled.start q.start)) [
          | inl s ↦
              let known = ap (λ x. is_some (get_quarter x quarters)) (same_quarter filled q s) in
              absurd (ground (arith, known, e, u))
          | inr s ↦ rw e (rw (sym start) (rw s refl))
        ]
        | inr e ↦ let looked = get_quarter-insert q filled v out in rw e (rw (sym start) looked)
      ]

  get_quarter-fill_hour :
      (quarters out : QuarterMap F) (key q : QuarterStart) (v : F)
      → IsKey key.start
      → IsKey q.start
      → get_quarter q quarters ≡ none
      → eq_ℤ key.start q.start ≡ false
      → get_quarter q (fill_hour quarters key v out)
        ≡ (if eq_ℤ key.start (top_of_hour q).start then some v else get_quarter q out)
  get_quarter-fill_hour quarters out key q v h hq u e =
      let first = fill_quarter quarters key v 1 out in
      let second = fill_quarter quarters key v 2 first in
      let c1 = eq_ℤ (key.start +ℤ pos (1 * quarter_ms)) q.start in
      let c2 = eq_ℤ (key.start +ℤ pos (2 * quarter_ms)) q.start in
      let c3 = eq_ℤ (key.start +ℤ pos (3 * quarter_ms)) q.start in
      let one = get_quarter-fill_quarter quarters out key q v 1 h (omega arith) u in
      let two = get_quarter-fill_quarter quarters first key q v 2 h (omega arith) u in
      let three = get_quarter-fill_quarter quarters second key q v 3 h (omega arith) u in
      let on_top = rem_euclid key.start hour_ms == 0 in
      let filled =
        three
        ∙ ap (λ g. if c3 then some v else g) two
        ∙ ap (λ g. if c3 then some v else if c2 then some v else g) one in
      whole (fill_quarter quarters key v 3 second) _ on_top filled
      ∙ chosen on_top c3 c2 c1 (some v) (get_quarter q out)
      ∙ ap (λ t. if t then some v else get_quarter q out)
          (top_of_hour_lem key.start q.start h.0 hq.0 e)
    where
      whole :
          (x : QuarterMap F) (y : Option F) (b : Bool)
          → get_quarter q x ≡ y
          → get_quarter q (if b then x else out) ≡ (if b then y else get_quarter q out)
      whole x y true k = k
      whole x y false k = refl

  get_quarter-fill_hours :
      (quarters es out : QuarterMap F) (q : QuarterStart)
      → All (λ e. IsKey e.0.start) es
      → IsAscending es
      → IsKey q.start
      → get_quarter q quarters ≡ none
      → get_quarter q es ≡ none
      → get_quarter q (fill_hours quarters es out)
        ≡ or_else (get_quarter (top_of_hour q) es) (get_quarter q out)
  get_quarter-fill_hours quarters [] out q h asc hq u w = refl
  get_quarter-fill_hours quarters ((key, v) ∷ es) out q (h, hs) (after, asc) hq u w =
      let other : eq_ℤ key.start q.start ≡ false = ground (arith, w) in
      let later : get_quarter q es ≡ none = ground (arith, w, other) in
      let rest =
        get_quarter-fill_hours quarters es (fill_hour quarters key v out) q hs asc hq u later in
      let one = get_quarter-fill_hour quarters out key q v h hq u other in
      elim (Bool-cases (eq_ℤ key.start (top_of_hour q).start)) [
        | inl e ↦
            let unmet =
              IsAfter-none (top_of_hour q) es
                (subst (λ k. IsAfter k es) (same_quarter key (top_of_hour q) e) after) in
            rest ∙ rw unmet (one ∙ rw e refl)
        | inr e ↦ rest ∙ rw e (ap (or_else (get_quarter (top_of_hour q) es)) (one ∙ rw e refl))
      ]

  -- The fill of a whole map.
  pub get_quarter-filled :
      (quarters : QuarterMap F) (q : QuarterStart)
      → All (λ e. IsKey e.0.start) quarters
      → IsAscending quarters
      → IsKey q.start
      → get_quarter q (fill_hours quarters quarters quarters)
        ≡ or_else (get_quarter q quarters) (get_quarter (top_of_hour q) quarters)
  get_quarter-filled quarters q h asc hq = elim (Option-cases (get_quarter q quarters)) [
    | inl u ↦
        get_quarter-fill_hours quarters quarters quarters q h asc hq u u
        ∙ rw u (or_else-none (get_quarter (top_of_hour q) quarters))
    | inr (v, e) ↦ fill_hours-keeps quarters quarters quarters q (ap is_some e) ∙ rw e refl
  ]
