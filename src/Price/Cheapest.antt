-- ===== src/Price/Cheapest.antt =====
-- `find_cheapest_window`: among the runs of all start indexes it takes the cheapest, and the earliest
-- of several cheapest ones.
use spot_price.Prelude.{
  ℕ, zero, suc, ◌+◌, ◌-◌, ◌≤◌, ◌<◌, true, false, Option, none, some, List, [], ◌∷◌, ◌≡◌, ◌⊎◌, inl,
  inr, refl, arith, length, take, drop, Bool-cases, Option-cases, ◌∙◌, drop-nil, length-drop,
  length-take,
}
use spot_price.Float.{Double, number, ◌≼◌, IsOrdered}
use spot_price.Jiff.{Instant}
use spot_price.Price.{
  TotalPrice, PriceWindow, Best, run, scan, improve, slice?, find_cheapest_window,
  build_price_window,
}
use spot_price.Price.Summary.{build_price_window-prices, build_price_window-some}
use spot_price.Price.Run.{IsShortest, average, run-IsShortest, IsShortest-run}

next_bounds :
    (k j n : ℕ)
    → ◌≡◌ {A = Option (ℕ × ℕ)} (some (k + 1 + j, k + 1 + j + n)) (some (k + suc j, k + suc j + n))
next_bounds k j n = ground arith

module _ {F : Type 0} ⦃d : Double F⦄ (o : IsOrdered F) where
  open d use {le, lt, is_nan}
  open o use {le_refl, le_num, le_total, lt-eq, lt_num}

  improve_lem :
      (best : Best F) (k : ℕ) (c : Option (ℕ × F))
      → is_nan best.0 ≡ false
      → ((improve best k c).0 ≼ best.0)
        × ((n : ℕ) (a : F) → c ≡ some (n, a) → lt a (improve best k c).0 ≡ false)
  improve_lem best k none h = (le_refl best.0 h, λ n a e. absurd (ground arith))
  improve_lem best k (some (m, b)) h = (
    ground (arith, le_refl best.0 h, lt-eq b best.0, lt_num b best.0, le_total b best.0),
    λ n a e. ground (arith, lt-eq a a, lt_num a a, le_refl a),
  )

  lt-le_trans : (a x y : F) → lt a x ≡ true → x ≼ y → lt a y ≡ true
  lt-le_trans a x y h k =
      ground (arith, lt_num a x, le_num x y, lt-eq a x, lt-eq a y, o.le_trans x y a)

  not-lt-le_trans : (a x y : F) → lt a x ≡ false → y ≼ x → lt a y ≡ false
  not-lt-le_trans a x y h k = ground (arith, lt-le_trans a y x)

  le_of_not_lt : (a x : F) → lt a x ≡ false → is_nan a ≡ false → is_nan x ≡ false → x ≼ a
  le_of_not_lt a x h p q = ground (arith, lt-eq a x)

module _ {T F : Type 0} ⦃i : Instant T⦄ ⦃d : Double F⦄ where
  open d use {le, lt, is_nan}

  -- From start index `s` the shortest run that is long enough has `n` intervals and this average.
  abbrev pub IsRunAt : F → List (TotalPrice T F) → ℕ → ℕ → F → Type 0
  IsRunAt duration prices s n a =
      IsShortest duration (number 0) none (drop s prices) n
      × (a ≡ average (number 0) (number 0) (take n (drop s prices)))

  abbrev first_run : F → List (TotalPrice T F) → Option (ℕ × F)
  first_run duration prices = run duration (number 0) (number 0) none prices

  -- The scan from index `k` on has found a new best run, at offset `j`.
  record IsFound (duration : F) (best : Best F) (k : ℕ) (prices : List (TotalPrice T F))
      (r : Best F) (j n : ℕ) : Type 0 where
    bounds : r.1 ≡ some (k + j, k + j + n)
    found : first_run duration (drop j prices) ≡ some (n, r.0)
    better : lt r.0 best.0 ≡ true
    earliest :
        (j' n' : ℕ) (a : F)
        → j' < j
        → first_run duration (drop j' prices) ≡ some (n', a)
        → is_nan a ≡ false
        → lt r.0 a ≡ true

  record IsBest (duration : F) (best : Best F) (k : ℕ) (prices : List (TotalPrice T F)) (r : Best F)
      : Type 0 where
    no_worse : r.0 ≼ best.0
    cheapest :
        (j n : ℕ) (a : F) → first_run duration (drop j prices) ≡ some (n, a) → lt a r.0 ≡ false
    origin : (r ≡ best) ⊎ ((j : ℕ) × (n : ℕ) × IsFound duration best k prices r j n)

  module _ (o : IsOrdered F) (duration : F) where
    open o use {le_refl, le_trans, le_num, lt_num}

    -- the entry at the index is the new best one, or nothing changes
    improve_origin :
        (best : Best F) (k : ℕ) (prices : List (TotalPrice T F)) (r : Best F)
        → r ≡ improve best k (first_run duration prices)
        → (r ≡ best) ⊎ ((n : ℕ) × IsFound duration best k prices r 0 n)
    improve_origin best k prices r h = elim (Option-cases (first_run duration prices)) [
      | inl e ↦ inl (ground arith)
      | inr ((n, b), e) ↦ elim (Bool-cases (lt b best.0)) [
        | inr worse ↦ inl (ground arith)
        | inl better ↦
            let same : r ≡ (b, some (k, k + n)) = ground arith in
            inr (
              n,
              record {
                bounds = ground arith;
                found = ground arith;
                better = ground arith;
                earliest = λ j' n' a p. absurd (omega arith);
              },
            )
      ]
    ]

    scan-IsBest :
        (best : Best F) (k : ℕ) (prices : List (TotalPrice T F))
        → is_nan best.0 ≡ false
        → IsBest duration best k prices (scan duration best k prices)
    unfolding scan
    scan-IsBest best k [] num = record {
      no_worse = le_refl best.0 num;
      cheapest = λ j n a e. absurd (ground (arith, drop-nil (TotalPrice T F) j));
      origin = inl refl;
    }
    scan-IsBest best k (e ∷ es) num =
        let prices = e ∷ es in
        let c = first_run duration prices in
        let best' = improve best k c in
        let r = scan duration best' (k + 1) es in
        let (down, seen) = improve_lem o best k c num in
        let rest = scan-IsBest best' (k + 1) es (le_num _ _ down).0 in
        record {
          no_worse = le_trans _ _ _ rest.no_worse down;
          cheapest = elim [
            | zero ↦ λ n a e. not-lt-le_trans o a best'.0 r.0 (seen n a e) rest.no_worse
            | suc j ↦ rest.cheapest j
          ];
          origin = elim rest.origin [
            | inl same ↦ elim (improve_origin best k prices r same) [
              | inl old ↦ inl old
              | inr (n, found) ↦ inr (0, n, found)
            ]
            | inr (j, n, found) ↦ inr (
              suc j,
              n,
              record {
                bounds = found.bounds ∙ next_bounds k j n;
                found = found.found;
                better = lt-le_trans o _ _ _ found.better down;
                earliest = elim [
                  | zero ↦ λ n' a p e q.
                      lt-le_trans o r.0 best'.0 a found.better
                        (le_of_not_lt o a best'.0 (seen n' a e) q (le_num _ _ down).0)
                  | suc j' ↦ λ n' a p. found.earliest j' n' a (omega arith)
                ];
              },
            )
          ];
        }

  slice?-run :
      (prices : List (TotalPrice T F)) (j n : ℕ)
      → 0 < n
      → n ≤ length (drop j prices)
      → slice? (0 + j) (0 + j + n) prices ≡ some (take n (drop j prices))
  slice?-run prices j n p q =
      let size = length-drop j prices in
      let count : 0 + j + n - (0 + j) ≡ n = omega arith in
      let start : 0 + j ≡ j = omega arith in rw (count, start) (ground (arith, size))

  module _ (o : IsOrdered F) where
    -- The run of the scan is the window that is built.
    pub record IsCheapest (duration : F) (prices : List (TotalPrice T F)) (s n : ℕ) (a : F)
        : Type 0 where
      pub run : IsRunAt duration prices s n a
      pub cheapest : (j m : ℕ) (b : F) → IsRunAt duration prices j m b → lt b a ≡ false
      pub earliest :
          (j m : ℕ) (b : F)
          → j < s
          → IsRunAt duration prices j m b
          → is_nan b ≡ false
          → lt a b ≡ true

    first_run-IsRunAt :
        (duration : F) (prices : List (TotalPrice T F)) (j n : ℕ) (a : F)
        → IsRunAt duration prices j n a
        → first_run duration (drop j prices) ≡ some (n, a)
    first_run-IsRunAt duration prices j n a (short, mean) =
        rw mean (IsShortest-run duration (number 0) (number 0) none (drop j prices) n short)

    IsFound-IsCheapest :
        (duration : F) (prices : List (TotalPrice T F)) (r : Best F) (j n : ℕ)
        → IsBest duration (d.infinity, none) 0 prices r
        → IsFound duration (d.infinity, none) 0 prices r j n
        → IsCheapest duration prices j n r.0
    IsFound-IsCheapest duration prices r j n best found = record {
      run = run-IsShortest duration _ _ none (drop j prices) n r.0 found.found;
      cheapest = λ k m b h. best.cheapest k m b (first_run-IsRunAt duration prices k m b h);
      earliest = λ k m b p h. found.earliest k m b p (first_run-IsRunAt duration prices k m b h);
    }

    -- A window that is returned is a gapless run of the given prices that lasts long enough and would
    -- not without its last interval. No run from any start index has a lower average, and every run
    -- that starts earlier, with an average that is a number, has a higher one. The order of `f64` is
    -- total away from NaN.
    pub find_cheapest_window_lem :
        (prices : List (TotalPrice T F)) (duration : ℕ) (w : PriceWindow T F)
        → find_cheapest_window prices duration ≡ some w
        → (s : ℕ) × (n : ℕ) × (a : F) × IsCheapest (number duration) prices s n a
          × (w.prices ≡ take n (drop s prices))
    unfolding find_cheapest_window
    find_cheapest_window_lem [] duration w h = absurd (ground arith)
    find_cheapest_window_lem (e ∷ es) duration w h =
        let prices = e ∷ es in
        let r = scan (number duration) (d.infinity, none) 0 prices in
        let best = scan-IsBest o (number duration) (d.infinity, none) 0 prices o.infinity_num in
        elim best.origin [
          | inl same ↦ absurd (ground arith)
          | inr (j, n, found) ↦
              let c = IsFound-IsCheapest (number duration) prices r j n best found in
              let cut = slice?-run prices j n c.run.0.some_entry c.run.0.in_range in
              let built : build_price_window (take n (drop j prices)) ≡ some w =
                ground (arith, cut, found.bounds) in
              (j, n, r.0, c, build_price_window-prices _ w built)
        ]

    build_price_window-take :
        (prices : List (TotalPrice T F)) (j n : ℕ)
        → 0 < n
        → n ≤ length (drop j prices)
        → (w : PriceWindow T F) × (build_price_window (take n (drop j prices)) ≡ some w)
    build_price_window-take prices j n p q =
        go (take n (drop j prices)) (length-take n (drop j prices) q)
      where
        go :
            (l : List (TotalPrice T F))
            → length l ≡ n
            → (w : PriceWindow T F) × (build_price_window l ≡ some w)
        go [] h = absurd (omega arith)
        go (x ∷ xs) h = let built = build_price_window-some x xs in (built.0, built.2)

    -- For a duration of more than zero, a window is found whenever some start index has a run that
    -- lasts long enough and whose average is below infinity. The order of `f64` is total away from NaN.
    pub find_cheapest_window_found :
        (prices : List (TotalPrice T F)) (duration : ℕ)
        → 0 < duration
        → (j m : ℕ) (b : F) → IsRunAt (number duration) prices j m b
        → lt b d.infinity ≡ true
        → (w : PriceWindow T F) × (find_cheapest_window prices duration ≡ some w)
    unfolding find_cheapest_window
    find_cheapest_window_found [] duration long j m b chosen below = absurd (
        omega
          (arith, chosen.0.some_entry, chosen.0.in_range, length-drop {A = TotalPrice T F} j []))
    find_cheapest_window_found (e ∷ es) duration long j m b chosen below =
        let prices = e ∷ es in
        let r = scan (number duration) (d.infinity, none) 0 prices in
        let best = scan-IsBest o (number duration) (d.infinity, none) 0 prices o.infinity_num in
        elim best.origin [
          | inl same ↦ absurd (
              ground (
                arith,
                best.cheapest j m b (first_run-IsRunAt (number duration) prices j m b chosen),
              ))
          | inr (k, n, found) ↦
              let c = IsFound-IsCheapest (number duration) prices r k n best found in
              let cut = slice?-run prices k n c.run.0.some_entry c.run.0.in_range in
              let (w, built) =
                build_price_window-take prices k n c.run.0.some_entry c.run.0.in_range in
              (w, ground (arith, cut, built, found.bounds))
        ]
