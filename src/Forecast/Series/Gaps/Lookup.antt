-- ===== src/Forecast/Series/Gaps/Lookup.antt =====
-- What stands at a quarter after a loop over cursors.
use spot_price.Prelude.{
  ℕ, zero, suc, ◌+◌, ◌*◌, ◌/◌, ◌≤◌, ◌<◌, Bool, true, false, Option, none, some, List, [], ◌∷◌, any,
  All, All-map, ◌-◌, ◌≡◌, refl, ap, ◌∙◌, arith, inl, inr, Bool-cases, if◌then◌else◌, or_else,
}
use spot_price.Prelude.Int.{
  ℤ, pos, negsuc, ◌+ℤ◌, ◌-ℤ◌, ◌≤ℤ◌, ◌<ℤ◌, eq_ℤ, ltb_ℤ, rem_euclid, div_euclid, saturate, pos_part,
  neg_part, +ℤ_parts, -ℤ_parts, eq_of_parts,
}
use spot_price.Forecast.Quarter.{
  QuarterStart, QuarterMap, quarter_from_millisecond, get_quarter, quarter_ms,
}
use spot_price.Forecast.Quarter.Bounds.{IsMillisecond}
use spot_price.Forecast.Quarter.Points.{get_quarter-insert}
use spot_price.Forecast.Series.Gaps.{cursors_from, cursors, quarters_between, inserted, fill}

-- A multiple of a quarter of an hour, within the type.
abbrev pub IsQuarter : ℤ → Type 0
IsQuarter ms = (rem_euclid ms quarter_ms ≡ 0) × IsMillisecond ms

pub quarter_from_millisecond-IsQuarter :
    (ms : ℤ) → IsQuarter ms → (quarter_from_millisecond ms).start ≡ ms
unfolding quarter_from_millisecond saturate rem_euclid ◌-ℤ◌
quarter_from_millisecond-IsQuarter (pos n) h = ground arith
quarter_from_millisecond-IsQuarter (negsuc n) h = ground arith

pub saturate-IsMillisecond : (x : ℤ) → IsMillisecond x → saturate x ≡ x
unfolding saturate
saturate-IsMillisecond (pos n) h = ground arith
saturate-IsMillisecond (negsuc n) h = ground arith

pub IsQuarter-next :
    (c : ℤ)
    → IsQuarter c
    → c +ℤ pos quarter_ms ≤ℤ pos 9_223_372_036_854_775_807
    → IsQuarter (c +ℤ pos quarter_ms)
unfolding rem_euclid ◌+ℤ◌
IsQuarter-next (pos n) h k = ground arith
IsQuarter-next (negsuc n) h k = ground arith

-- The whole quarters from one cursor to another.
quarters_apart :
    (c k : ℤ)
    → rem_euclid c quarter_ms ≡ 0
    → rem_euclid k quarter_ms ≡ 0
    → c ≤ℤ k
    → (i : ℕ) × (pos_part k + neg_part c ≡ pos_part c + neg_part k + i * quarter_ms)
unfolding rem_euclid
quarters_apart (pos m) (pos n) p q h = (n / quarter_ms - m / quarter_ms, omega arith)
quarters_apart (pos m) (negsuc n) p q h = absurd (omega arith)
quarters_apart (negsuc m) (pos n) p q h = (n / quarter_ms + suc m / quarter_ms, omega arith)
quarters_apart (negsuc m) (negsuc n) p q h = (suc m / quarter_ms - suc n / quarter_ms, omega arith)

abbrev pub visits : ℤ → List ℤ → Bool
visits k cs = any (λ c. eq_ℤ c k) cs

cursors_from-visits :
    (fuel i : ℕ) (c end k : ℤ)
    → pos_part k + neg_part c ≡ pos_part c + neg_part k + i * quarter_ms
    → k <ℤ end
    → i < fuel
    → visits k (cursors_from fuel c end) ≡ true
cursors_from-visits zero i c end k e h l = absurd (omega arith)
cursors_from-visits (suc fuel) zero c end k e h l = ground arith
cursors_from-visits (suc fuel) (suc i) c end k e h l =
    let next = +ℤ_parts c (pos quarter_ms) in
    let rest =
      cursors_from-visits fuel i (c +ℤ pos quarter_ms) end k (omega (arith, next)) h
        (omega arith) in
    ground (arith, rest)

begun_quarters :
    (far : ℤ) (i : ℕ)
    → neg_part far + (i + 1) * quarter_ms ≤ pos_part far
    → i < pos_part (div_euclid far quarter_ms)
unfolding div_euclid
begun_quarters (pos n) i h = omega arith
begun_quarters (negsuc n) i h = absurd (omega arith)

quarters_between_enough :
    (c end k : ℤ) (i : ℕ)
    → pos_part k + neg_part c ≡ pos_part c + neg_part k + i * quarter_ms
    → k <ℤ end
    → i < quarters_between c end
quarters_between_enough c end k i e l =
    let parts = +ℤ_parts (end -ℤ c) (pos 899_999) in
    let apart = -ℤ_parts end c in
    begun_quarters (end -ℤ c +ℤ pos 899_999) i (omega (arith, parts, apart))

-- Every quarter from the first cursor to the end is visited.
pub cursors-visits :
    (c end k : ℤ)
    → rem_euclid c quarter_ms ≡ 0
    → rem_euclid k quarter_ms ≡ 0
    → c ≤ℤ k
    → k <ℤ end
    → visits k (cursors c end) ≡ true
unfolding cursors
cursors-visits c end k p q h l =
    let (i, e) = quarters_apart c k p q h in
    cursors_from-visits (quarters_between c end) i c end k e l
      (quarters_between_enough c end k i e l)

-- The cursors start at the first, and end before the end.
cursors_from-bounds :
    (fuel : ℕ) (c end : ℤ) → All (λ x. (c ≤ℤ x) × (x <ℤ end)) (cursors_from fuel c end)
cursors_from-bounds zero c end = tt
cursors_from-bounds (suc fuel) c end = elim (Bool-cases (ltb_ℤ c end)) [
  | inl e ↦
      let next = +ℤ_parts c (pos quarter_ms) in
      let rest = cursors_from-bounds fuel (c +ℤ pos quarter_ms) end in
      rw e
        ((omega arith, ground (arith, e)), All-map _ (λ x (l, u). (omega (arith, next, l), u)) rest)
  | inr e ↦ rw e tt
]

cursors_from-IsQuarter :
    (fuel : ℕ) (c end : ℤ)
    → IsQuarter c
    → end +ℤ pos quarter_ms ≤ℤ pos 9_223_372_036_854_775_807
    → All IsQuarter (cursors_from fuel c end)
cursors_from-IsQuarter zero c end h l = tt
cursors_from-IsQuarter (suc fuel) c end h l = elim (Bool-cases (ltb_ℤ c end)) [
  | inl e ↦
      let below : c <ℤ end = ground (arith, e) in
      let next = +ℤ_parts c (pos quarter_ms) in
      let last = +ℤ_parts end (pos quarter_ms) in
      let rest =
        cursors_from-IsQuarter fuel (c +ℤ pos quarter_ms) end
          (IsQuarter-next c h (omega (arith, below, next, last, l))) l in
      rw e (h, rest)
  | inr e ↦ rw e tt
]

pub cursors-IsQuarter :
    (c end : ℤ)
    → IsQuarter c
    → end +ℤ pos quarter_ms ≤ℤ pos 9_223_372_036_854_775_807
    → All IsQuarter (cursors c end)
unfolding cursors
cursors-IsQuarter c end h l = cursors_from-IsQuarter (quarters_between c end) c end h l

All-not_visits : (k : ℤ) (cs : List ℤ) → All (λ x. k <ℤ x) cs → visits k cs ≡ false
All-not_visits k [] h = refl
All-not_visits k (c ∷ cs) (l, h) = ground (arith, All-not_visits k cs h)

pub cursors-before : (c end k : ℤ) → k <ℤ c → visits k (cursors c end) ≡ false
unfolding cursors
cursors-before c end k h = All-not_visits k _ (
    All-map (cursors_from (quarters_between c end) c end) (λ x (l, u). omega (arith, l, h))
      (cursors_from-bounds (quarters_between c end) c end))

module _ {F : Type 0} (value : ℤ → Option F) where
  get_quarter-inserted :
      (q : QuarterStart) (c : ℤ) (out : QuarterMap F) (o : Option F)
      → IsQuarter c
      → get_quarter q (inserted value o c out)
        ≡ (if eq_ℤ c q.start then or_else o (get_quarter q out) else get_quarter q out)
  get_quarter-inserted q c out none h = ground arith
  get_quarter-inserted q c out (some v) h =
      get_quarter-insert q (quarter_from_millisecond c) v out
      ∙ ap (λ s. if eq_ℤ s q.start then some v else get_quarter q out)
          (quarter_from_millisecond-IsQuarter c h)

  -- A visited quarter has the value of the loop, if any, and the map before it otherwise.
  pub get_quarter-fill :
      (q : QuarterStart) (cs : List ℤ) (out : QuarterMap F)
      → All IsQuarter cs
      → get_quarter q (fill value cs out) ≡ (
          if visits q.start cs
          then or_else (value q.start) (get_quarter q out)
          else get_quarter q out)
  get_quarter-fill q [] out h = refl
  get_quarter-fill q (c ∷ cs) out (h, hs) =
      let rest = get_quarter-fill q cs (inserted value (value c) c out) hs in
      let one = get_quarter-inserted q c out (value c) h in
      elim (Bool-cases (eq_ℤ c q.start)) [
        | inl e ↦
            let same = eq_of_parts c q.start (ground (arith, e)) in
            ground (arith, rest, one, e, ap value same)
        | inr e ↦ ground (arith, rest, one, e)
      ]
