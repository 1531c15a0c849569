-- ===== src/Price/Summary.antt =====
-- `build_price_window`: when there is a window, and what its summary says of its prices.
use spot_price.Prelude.{
  false, some, List, [], ◌∷◌, ◌≡◌, refl, arith, All, All-map, last?, last?-some,
}
use spot_price.Float.{Double, ◌≼◌, IsOrdered, IsMonotone, IsFloored}
use spot_price.Jiff.{Instant}
use spot_price.Js.{round3}
use spot_price.Js.Rounding.{round3_mono}
use spot_price.Price.{
  TotalPrice, PriceWindow, Sums, total_of, no_sums, add_entry, sum_entries, average_of,
  build_price_window,
}

module _ {T F : Type 0} ⦃i : Instant T⦄ ⦃d : Double F⦄ where
  open d use {lt, le, is_nan}

  pub build_price_window-some :
      (e : TotalPrice T F) (es : List (TotalPrice T F))
      → (w : PriceWindow T F) × (last : TotalPrice T F) × (build_price_window (e ∷ es) ≡ some w)
        × (w.prices ≡ e ∷ es)
        × (w.start ≡ e.period.start)
        × (last? (e ∷ es) ≡ some last)
        × (w.end ≡ last.period.end)
  unfolding build_price_window
  build_price_window-some e es =
      let (last, found) = last?-some e es in rw found (_, last, refl, refl, refl, refl, refl)

  build_price_window_fields :
      (prices : List (TotalPrice T F)) (w : PriceWindow T F)
      → build_price_window prices ≡ some w
      → let r = sum_entries no_sums prices in
        (w.prices ≡ prices)
        × (w.min_total_cents_kwh ≡ round3 r.min)
        × (w.max_total_cents_kwh ≡ round3 r.max)
        × (w.average_total_cents_kwh ≡ round3 (average_of r))
  unfolding build_price_window
  build_price_window_fields [] w h = absurd (ground arith)
  build_price_window_fields (e ∷ es) w h =
      let (last, found) = last?-some e es in let built = build_price_window (e ∷ es) in ground arith

  pub build_price_window-prices :
      (prices : List (TotalPrice T F)) (w : PriceWindow T F)
      → build_price_window prices ≡ some w
      → w.prices ≡ prices
  build_price_window-prices prices w h = (build_price_window_fields prices w h).0

  -- Each total, rounded to three decimals, lies between the bounds.
  abbrev pub IsWithin : F → F → List (TotalPrice T F) → Type 0
  IsWithin least greatest =
      All λ e. (least ≼ round3 (total_of e)) × (round3 (total_of e) ≼ greatest)

  module _ (o : IsOrdered F) (m : IsMonotone F) (f : IsFloored F) where
    open o use {le_refl, le_trans, le_num, le_total, lt-eq}

    -- the extremes of the loop, from any first values
    sum_entries_extremes :
        (s : Sums F) (prices : List (TotalPrice T F))
        → is_nan s.min ≡ false
        → is_nan s.max ≡ false
        → All (λ e. is_nan (total_of e) ≡ false) prices
        → let r = sum_entries s prices in
          (r.min ≼ s.min)
          × (s.max ≼ r.max)
          × All (λ e. (r.min ≼ total_of e) × (total_of e ≼ r.max)) prices
    unfolding sum_entries add_entry
    sum_entries_extremes s [] p q a = (le_refl s.min p, le_refl s.max q, tt)
    sum_entries_extremes s (e ∷ es) p q (num, nums) =
        let x = total_of e in
        let s' = add_entry s e in
        let low : (s'.min ≼ s.min) × (s'.min ≼ x) =
          ground
            (arith, lt-eq x s.min num p, le_refl x num, le_refl s.min p, le_total x s.min num p) in
        let high : (s.max ≼ s'.max) × (x ≼ s'.max) =
          ground
            (arith, lt-eq s.max x q num, le_refl x num, le_refl s.max q, le_total x s.max num q) in
        let (down, up, rest) =
          sum_entries_extremes s' es (le_num _ _ low.0).0 (le_num _ _ high.0).1 nums in
        (
          le_trans _ _ _ down low.0,
          le_trans _ _ _ high.0 up,
          ((le_trans _ _ _ down low.1, le_trans _ _ _ high.1 up), rest),
        )

    -- The summary of a window bounds its prices: each total, rounded to three decimals, lies between
    -- the minimum and the maximum of the window, where no total is NaN.
    pub build_price_window_bounds :
        (prices : List (TotalPrice T F)) (w : PriceWindow T F)
        → is_nan d.neg_infinity ≡ false
        → All (λ e. is_nan (total_of e) ≡ false) prices
        → build_price_window prices ≡ some w
        → IsWithin w.min_total_cents_kwh w.max_total_cents_kwh w.prices
    build_price_window_bounds prices w num nums h =
        let (down, up, all) = sum_entries_extremes no_sums prices o.infinity_num num nums in
        let least = round3 (sum_entries no_sums prices).min in
        let greatest = round3 (sum_entries no_sums prices).max in
        let rounded : IsWithin least greatest prices =
          All-map prices (λ e p. (round3_mono o m f _ _ p.0, round3_mono o m f _ _ p.1)) all in
        let (same, lowest, highest, mean) = build_price_window_fields prices w h in
        rw (same, lowest, highest) rounded
