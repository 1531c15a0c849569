-- ===== src/Price/Run.antt =====
-- The inner loop of `find_cheapest_window`: from its start index it takes the shortest gapless run
-- that lasts long enough.
use spot_price.Prelude.{
  ℕ, zero, suc, ◌≤◌, ◌<◌, true, false, Option, some, List, [], ◌∷◌, ◌≡◌, inl, inr, arith, length,
  take, Bool-cases, Option-cases, ◌∙◌,
}
use spot_price.Float.{Double}
use spot_price.Jiff.{Instant}
use spot_price.Price.{TotalPrice, minutes, total_of, follows, run}

module _ {T F : Type 0} ⦃i : Instant T⦄ ⦃d : Double F⦄ where
  open d use {add, mul, div, le}

  -- The sums over a list, from the left and from a first value.
  abbrev pub minutes_of : F → List (TotalPrice T F) → F
  minutes_of acc [] = acc
  minutes_of acc (entry ∷ entries) = minutes_of (add acc (minutes entry.period)) entries

  abbrev pub weighted_of : F → List (TotalPrice T F) → F
  weighted_of acc [] = acc
  weighted_of acc (entry ∷ entries) =
      weighted_of (add acc (mul (total_of entry) (minutes entry.period))) entries

  -- Each interval starts where the one before it ended.
  abbrev pub IsLinked : Option T → List (TotalPrice T F) → Type 0
  IsLinked previous [] = Unit
  IsLinked previous (entry ∷ entries) =
      (follows previous entry ≡ true) × IsLinked (some entry.period.end) entries

  -- The first `n` entries are linked and last long enough, and no fewer do.
  pub record IsShortest (duration acc : F) (previous : Option T) (entries : List (TotalPrice T F))
      (n : ℕ) : Type 0 where
    pub some_entry : 0 < n
    pub in_range : n ≤ length entries
    pub linked : IsLinked previous (take n entries)
    pub long_enough : le duration (minutes_of acc (take n entries)) ≡ true
    pub no_shorter : (m : ℕ) → 0 < m → m < n → le duration (minutes_of acc (take m entries)) ≡ false

  abbrev pub average : F → F → List (TotalPrice T F) → F
  average weighted acc entries = div (weighted_of weighted entries) (minutes_of acc entries)

  module _ (duration acc : F) (previous : Option T) (e : TotalPrice T F)
      (es : List (TotalPrice T F)) where
    IsShortest-one :
        follows previous e ≡ true
        → le duration (add acc (minutes e.period)) ≡ true
        → IsShortest duration acc previous (e ∷ es) 1
    IsShortest-one linked done = record {
      some_entry = omega arith;
      in_range = omega arith;
      linked = (linked, tt);
      long_enough = done;
      no_shorter = λ m p q. absurd (omega arith);
    }

    IsShortest-suc :
        (k : ℕ)
        → follows previous e ≡ true
        → le duration (add acc (minutes e.period)) ≡ false
        → IsShortest duration (add acc (minutes e.period)) (some e.period.end) es k
        → IsShortest duration acc previous (e ∷ es) (suc k)
    IsShortest-suc k linked more rest = record {
      some_entry = omega arith;
      in_range = omega (arith, rest.in_range);
      linked = (linked, rest.linked);
      long_enough = rest.long_enough;
      no_shorter = elim [
        | zero ↦ λ p q. absurd (omega arith)
        | suc zero ↦ λ p q. more
        | suc (suc m) ↦ λ p q. rest.no_shorter (suc m) (omega arith) (omega arith)
      ];
    }

  pub run-IsShortest :
      (duration acc weighted : F) (previous : Option T) (entries : List (TotalPrice T F)) (n : ℕ)
      (a : F)
      → run duration acc weighted previous entries ≡ some (n, a)
      → IsShortest duration acc previous entries n × (a ≡ average weighted acc (take n entries))
  unfolding run
  run-IsShortest duration acc weighted previous [] n a h = absurd (ground arith)
  run-IsShortest duration acc weighted previous (e ∷ es) n a h =
      let acc' = add acc (minutes e.period) in
      let weighted' = add weighted (mul (total_of e) (minutes e.period)) in
      let later = run duration acc' weighted' (some e.period.end) es in
      elim (Bool-cases (follows previous e)) [
        | inr gap ↦ absurd (ground arith)
        | inl linked ↦ elim (Bool-cases (le duration acc')) [
          | inl done ↦
              let one : n ≡ 1 = ground arith in
              rw one (IsShortest-one duration acc previous e es linked done, ground arith)
          | inr more ↦ elim (Option-cases later) [
            | inl e' ↦ absurd (ground arith)
            | inr ((k, b), e') ↦
                let (rest, mean) =
                  run-IsShortest duration acc' weighted' (some e.period.end) es k b e' in
                let count : n ≡ suc k = ground arith in
                let same : a ≡ b = ground arith in
                rw count (IsShortest-suc duration acc previous e es k linked more rest, same ∙ mean)
          ]
        ]
      ]

  pub IsShortest-run :
      (duration acc weighted : F) (previous : Option T) (entries : List (TotalPrice T F)) (n : ℕ)
      → IsShortest duration acc previous entries n
      → run duration acc weighted previous entries ≡ some (n, average weighted acc (take n entries))
  unfolding run
  IsShortest-run duration acc weighted previous [] n s =
      absurd (omega (arith, s.some_entry, s.in_range))
  IsShortest-run duration acc weighted previous (e ∷ es) zero s =
      absurd (omega (arith, s.some_entry))
  IsShortest-run duration acc weighted previous (e ∷ es) (suc zero) s =
      rw (s.linked.0, s.long_enough)
  IsShortest-run duration acc weighted previous (e ∷ es) (suc (suc k)) s =
      let acc' = add acc (minutes e.period) in
      let weighted' = add weighted (mul (total_of e) (minutes e.period)) in
      let rest : IsShortest duration acc' (some e.period.end) es (suc k) = record {
        some_entry = omega arith;
        in_range = omega (arith, s.in_range);
        linked = s.linked.1;
        long_enough = s.long_enough;
        no_shorter = λ m p q. s.no_shorter (suc m) (omega arith) (omega arith);
      } in
      rw
        (
          s.linked.0,
          s.no_shorter 1 (omega arith) (omega arith),
          IsShortest-run duration acc' weighted' (some e.period.end) es (suc k) rest,
        )
        (ground arith)
