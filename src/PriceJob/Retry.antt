-- ===== src/PriceJob/Retry.antt =====
-- The retries of a fetch.
use spot_price.Prelude.{
  ℕ, zero, suc, ◌+◌, ◌-◌, ◌≤◌, max, List, [], ◌∷◌, ◌++◌, ◌≡◌, refl, arith, subst, All, length,
  Result,
}
use spot_price.Areas.{Area}
use spot_price.Jiff.{Date}
use spot_price.PriceJob.{
  Attempt, prices, failed, drift, PriceWorld, result_of, or_retry, fetch_from,
  fetch_day_ahead_prices,
}

abbrev IsFruitless : {P E : Type 0} → Attempt P E → Type 0
IsFruitless (prices ps) = ⊥
IsFruitless (failed e) = Unit
IsFruitless drift = Unit

module _ {W T P E : Type 0} (o : PriceWorld W T P E) (date : Date) (areas : List Area) where
  -- The attempts end as listed, from one world to another.
  abbrev Runs : List (Attempt P E) → W → W → Type 0
  Runs [] w w' = w ≡ w'
  Runs (a ∷ rest) w w' = ((o.attempt w date areas).0 ≡ a) × Runs rest (o.attempt w date areas).1 w'

  -- The fetch made some fruitless attempts and then the last one; that one has prices, or the
  -- attempts are used up.
  abbrev pub IsFetch : ℕ → W → Result (List P) E × W → Type 0
  IsFetch attempts w (result, w') =
      (before : List (Attempt P E)) × (last : Attempt P E) × All IsFruitless before
      × Runs (before ++ (last ∷ [])) w w'
      × (result ≡ result_of last)
      × (length before + 1 ≤ attempts)
      × (IsFruitless last → length before + 1 ≡ attempts)

  IsFetch-first :
      (n : ℕ) (w : W) (a : Attempt P E) (r : Result (List P) E × W)
      → (o.attempt w date areas).0 ≡ a
      → IsFruitless a
      → IsFetch n (o.attempt w date areas).1 r
      → IsFetch (suc n) w r
  IsFetch-first n w a r e h (before, last, fruitless, runs, result, most, all) = (
    a ∷ before,
    last,
    (h, fruitless),
    (e, runs),
    result,
    omega (arith, most),
    λ k. let exact = all k in omega (arith, exact),
  )

  fetch_from-IsFetch : (left : ℕ) (w : W) → IsFetch (suc left) w (fetch_from o left w date areas)
  fetch_from-IsFetch zero w =
      let last = (o.attempt w date areas).0 in
      ([], last, tt, (refl, refl), refl, omega arith, λ h. omega arith)
  fetch_from-IsFetch (suc left) w =
      or_retry-IsFetch (o.attempt w date areas).0 refl
        (fetch_from-IsFetch left (o.attempt w date areas).1)
    where
      next : W
      next = (o.attempt w date areas).1

      or_retry-IsFetch :
          (a : Attempt P E) {r : Result (List P) E × W}
          → (o.attempt w date areas).0 ≡ a
          → IsFetch (suc left) next r
          → IsFetch (suc (suc left)) w (or_retry a next r)
      or_retry-IsFetch (prices ps) e h =
          ([], prices ps, tt, (e, refl), refl, omega arith, λ k. elim k [ ])
      or_retry-IsFetch (failed x) {r} e h = IsFetch-first (suc left) w (failed x) r e tt h
      or_retry-IsFetch drift {r} e h = IsFetch-first (suc left) w drift r e tt h

  -- A fetch ends after at most the configured attempts, at least one; every attempt but the last was
  -- fruitless, the last one gives the result, and a fruitless last one is the last allowed.
  pub fetch_day_ahead_prices-IsFetch :
      (attempts : ℕ) (w : W)
      → IsFetch (max attempts 1) w (fetch_day_ahead_prices o attempts w date areas)
  unfolding fetch_day_ahead_prices
  fetch_day_ahead_prices-IsFetch attempts w =
      let n = max attempts 1 - 1 in
      let same : suc n ≡ max attempts 1 = omega arith in
      subst (λ k. IsFetch k w (fetch_from o n w date areas)) same (fetch_from-IsFetch n w)
