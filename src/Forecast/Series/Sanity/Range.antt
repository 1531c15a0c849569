-- ===== src/Forecast/Series/Sanity/Range.antt =====
-- The clamp against the prices that it comes from.
use spot_price.Prelude.{
  true, false, some, some-injective, List, [], ◌∷◌, map, All, All-map, if◌then◌else◌, ◌≡◌, subst,
  arith, inl, inr, Bool-cases,
}
use spot_price.Float.{Double, number, ◌≼◌, IsOrdered, IsSigned}
use spot_price.Forecast.Quarter.{QuarterMap}
use spot_price.Forecast.Numbers.{js_min}
use spot_price.Forecast.Numbers.Order.{js_min_le}
use spot_price.Forecast.Series.Sanity.{
  SanityBound, sanity_margin_k, sanity_min_fallback_cents_kwh, widen, extremes, bound_of,
  sanity_bound_from_history,
}

module _ {F : Type 0} ⦃d : Double F⦄ (o : IsOrdered F) (g : IsSigned F) where
  open d use {infinity, neg_infinity, add, sub, mul, lt, is_nan, is_finite}
  open g use {sub_nonneg, mul_nonneg, sub_le, le_add, neg_finite}
  open o use {
    le_refl, le_trans, le_num, le_total, lt-eq, finite_num, lit_finite, infinity_num,
    neg_infinity_num,
  }

  -- The second range holds the first, and its bounds are numbers.
  abbrev IsWider : F × F → F × F → Type 0
  IsWider (lo, hi) (lo', hi') = (lo' ≼ lo) × (hi ≼ hi')

  abbrev Holds : F × F → F → Type 0
  Holds (lo, hi) price = is_finite price ≡ true → (lo ≼ price) × (price ≼ hi)

  widen_lem :
      (price lo hi : F)
      → is_nan price ≡ false
      → is_nan lo ≡ false
      → is_nan hi ≡ false
      → IsWider (lo, hi) (widen price (lo, hi))
        × ((widen price (lo, hi)).0 ≼ price)
        × (price ≼ (widen price (lo, hi)).1)
  widen_lem price lo hi p q r = ground (
    arith,
    lt-eq price lo p q,
    lt-eq hi price r p,
    le_refl price p,
    le_refl lo q,
    le_refl hi r,
    le_total price lo p q,
    le_total hi price r p,
  )

  abbrev next_range : F → F × F → F × F
  next_range price range = if is_finite price then widen price range else range

  next_range_lem :
      (price lo hi : F)
      → is_nan lo ≡ false
      → is_nan hi ≡ false
      → IsWider (lo, hi) (next_range price (lo, hi)) × Holds (next_range price (lo, hi)) price
  next_range_lem price lo hi q r = elim (Bool-cases (is_finite price)) [
    | inl e ↦
        let (wider, low, high) = widen_lem price lo hi (finite_num price e) q r in
        rw e (wider, λ f. (low, high))
    | inr e ↦ rw e ((le_refl lo q, le_refl hi r), λ f. ground (arith, f))
  ]

  Holds-wider :
      (range wide : F × F) (price : F) → IsWider range wide → Holds range price → Holds wide price
  Holds-wider range wide price (l, h) f fin =
      let (a, b) = f fin in (le_trans _ _ _ l a, le_trans _ _ _ b h)

  -- The loop widens the range, which then holds every price.
  extremes_lem :
      (prices : List F) (lo hi : F)
      → is_nan lo ≡ false
      → is_nan hi ≡ false
      → IsWider (lo, hi) (extremes prices (lo, hi)) × All (Holds (extremes prices (lo, hi))) prices
  extremes_lem [] lo hi q r = ((le_refl lo q, le_refl hi r), tt)
  extremes_lem (price ∷ prices) lo hi q r =
      let next = next_range price (lo, hi) in
      let ((low, high), holds) = next_range_lem price lo hi q r in
      let ((lower, higher), rest) =
        extremes_lem prices next.0 next.1 (le_num _ _ low).0 (le_num _ _ high).1 in
      (
        (le_trans _ _ _ lower low, le_trans _ _ _ high higher),
        (Holds-wider next (extremes prices next) price (lower, higher) holds, rest),
      )

  abbrev clamp : F → F → SanityBound F
  clamp lo hi = record {
    min =
        js_min (number 0)
          (js_min (sub lo (mul sanity_margin_k (sub hi lo))) sanity_min_fallback_cents_kwh);
    max = add hi (mul sanity_margin_k (sub hi lo));
  }

  zero_num : is_nan (number 0) ≡ false
  zero_num = finite_num _ (lit_finite _)

  fallback_num : is_nan sanity_min_fallback_cents_kwh ≡ false
  fallback_num = finite_num _ (neg_finite _ (lit_finite _))

  js_min_num : (a b : F) → is_nan a ≡ false → is_nan b ≡ false → is_nan (js_min a b) ≡ false
  js_min_num a b p q = (le_num _ _ (js_min_le o a b p q).0).0

  clamp_lem :
      (lo hi : F)
      → lo ≼ hi
      → is_finite lo ≡ true
      → is_finite hi ≡ true
      → ((clamp lo hi).min ≼ lo) × (hi ≼ (clamp lo hi).max)
  clamp_lem lo hi h p q =
      let margin = mul_nonneg 2 (sub hi lo) (sub_nonneg lo hi p q h) in
      let low = sub_le lo (mul sanity_margin_k (sub hi lo)) p margin in
      let num = (le_num _ _ low).0 in
      let inner = js_min_le o (sub lo (mul sanity_margin_k (sub hi lo))) _ num fallback_num in
      let outer = js_min_le o (number 0) _ zero_num (js_min_num _ _ num fallback_num) in
      (le_trans _ _ _ outer.1 (le_trans _ _ _ inner.0 low), le_add hi _ q margin)

  -- The clamp holds the range that it is made of.
  bound_of_lem :
      (lo hi : F) (b : SanityBound F)
      → lo ≼ hi
      → bound_of (lo, hi) ≡ some b
      → (b.min ≼ lo) × (hi ≼ b.max)
  bound_of_lem lo hi b h e = elim (Bool-cases (is_finite lo)) [
    | inl p ↦ elim (Bool-cases (is_finite hi)) [
      | inl q ↦
          let same = some-injective _ _ (simp (p, q) at e) in
          subst (λ x. (x.min ≼ lo) × (hi ≼ x.max)) same (clamp_lem lo hi h p q)
      | inr q ↦ absurd (ground (arith, p, q, e))
    ]
    | inr p ↦ absurd (ground (arith, p, e))
  ]

  All-values :
      (P : F → Type 0) (history : QuarterMap F)
      → All P (map (λ e. e.1) history)
      → All (λ e. P e.1) history
  All-values P [] h = tt
  All-values P (e ∷ history) (p, ps) = (p, All-values P history ps)

  -- Every finite price of the history lies in the clamp, where f64 has the order and the signs of
  -- IEEE 754 and one of the prices is finite.
  pub sanity_bound_from_history-holds :
      (history : QuarterMap F) (b : SanityBound F)
      → sanity_bound_from_history history ≡ some b
      → All (λ e. is_finite e.1 ≡ true → (b.min ≼ e.1) × (e.1 ≼ b.max)) history
  unfolding sanity_bound_from_history
  sanity_bound_from_history-holds history b e =
      let prices = map (λ e. e.1) history in
      let (lo, hi) = extremes prices (infinity, neg_infinity) in
      let (_, holds) = extremes_lem prices infinity neg_infinity infinity_num neg_infinity_num in
      All-values _ history (
        All-map prices
          (λ price held fin.
            let (low, high) = held fin in
            let (under, over) = bound_of_lem lo hi b (le_trans _ _ _ low high) e in
            (le_trans _ _ _ under low, le_trans _ _ _ high over))
          holds)
