-- ===== src/Endpoints/Offers.antt =====
-- `/price/cheapest`: the intervals that an answer may use, and when there is none.
use spot_price.Prelude.{
  ok, err, Bool, true, false, Option, none, some, List, [], ◌∷◌, ◌≡◌, ◌↔◌, inl, inr, refl, arith,
  All, Exists, All-map, All-filter, All-take, All-drop, All-self, filter-filter, filter-eq-nil_iff,
  drop, filter, ◌&&◌, unwrap_or, Bool-cases,
}
use spot_price.Prelude.Int.{◌≤ℤ◌}
use spot_price.Float.{Double, ◌≼◌, IsOrdered}
use spot_price.Jiff.{Instant, IsInstant, Zoned}
use spot_price.Time.{truncate_to_millisecond}
use spot_price.Settings.{UserSettings}
use spot_price.Query.{CheapestQuery}
use spot_price.Price.{
  PriceInterval, TotalPrice, PriceWindow, total_of, calculate_total_price, calculate_total_prices,
  find_cheapest_window,
}
use spot_price.Price.Cheapest.{find_cheapest_window_lem}
use spot_price.Endpoints.{
  ends_by, cheapest_candidates, no_price_data, retain_max, answer_for, cheapest_window,
}

module _ {T F : Type 0} ⦃i : Instant T⦄ ⦃d : Double F⦄ where
  open i use {as_nanosecond as ns, le}

  -- The interval ends at or before the end of the query, if it has one.
  abbrev pub EndsBy : Option T → PriceInterval T F → Type 0
  EndsBy none price = Unit
  EndsBy (some end) price = ns price.period.end ≤ℤ ns end

  -- The total is at or below the highest price, if there is one.
  abbrev pub AtMost : Option F → TotalPrice T F → Type 0
  AtMost none total = Unit
  AtMost (some limit) total = total_of total ≼ limit

  -- A stored interval in the range of the query, from `now` on where the query has no start.
  abbrev pub InRange : CheapestQuery T F → T → PriceInterval T F → Type 0
  InRange query now price =
      (ns (unwrap_or query.start_time (truncate_to_millisecond now)) ≤ℤ ns price.period.start)
      × EndsBy query.end_time price

  module _ {Z : Type 0} ⦃z : Zoned T Z⦄ where
    -- The total of a stored interval in the range, at or below the highest price.
    pub record IsOffered (prices : List (PriceInterval T F)) (s : UserSettings F Z)
        (query : CheapestQuery T F) (now : T) (total : TotalPrice T F) : Type 0 where
      pub price : PriceInterval T F
      pub stored : Exists (λ p. p ≡ price) prices
      pub in_range : InRange query now price
      pub total_eq : total ≡ calculate_total_price price s
      pub allowed : AtMost query.max_price total

    module _ (laws : IsInstant T) (prices : List (PriceInterval T F)) (s : UserSettings F Z) where
      ends_by_iff : (end : Option T) (p : PriceInterval T F) → (ends_by end p ≡ true) ↔ EndsBy end p
      ends_by_iff none p = (λ h. tt, λ h. refl)
      ends_by_iff (some end) p = ground (arith, laws.le-eq p.period.end end)

      IsCandidate : CheapestQuery T F → T → PriceInterval T F → Type 0
      IsCandidate query now p = Exists (λ q. q ≡ p) prices × InRange query now p

      cheapest_candidates-IsCandidate :
          (query : CheapestQuery T F) (now : T)
          → All
              (IsCandidate query now)
              (cheapest_candidates prices now query.start_time query.end_time)
      unfolding cheapest_candidates IsCandidate
      cheapest_candidates-IsCandidate query now =
          let from = unwrap_or query.start_time (truncate_to_millisecond now) in
          let late = filter (λ p. le from p.period.start) prices in
          let started : All (λ p. Exists (λ q. q ≡ p) prices × (ns from ≤ℤ ns p.period.start))
              late =
            All-filter (λ p. le from p.period.start) prices
              (λ p e h. (e, ground (arith, laws.le-eq from p.period.start))) (All-self prices) in
          All-filter (ends_by query.end_time) late
            (λ p e h. (e.0, (e.1, (ends_by_iff query.end_time p).0 h))) started

      IsPriced : CheapestQuery T F → T → TotalPrice T F → Type 0
      IsPriced query now total =
          (p : PriceInterval T F) × IsCandidate query now p × (total ≡ calculate_total_price p s)

      calculate_total_prices-IsPriced :
          (query : CheapestQuery T F) (now : T) (candidates : List (PriceInterval T F))
          → All (IsCandidate query now) candidates
          → All (IsPriced query now) (calculate_total_prices candidates s)
      unfolding calculate_total_prices IsPriced
      calculate_total_prices-IsPriced query now [] h = tt
      calculate_total_prices-IsPriced query now (p ∷ ps) h =
          ((p, h.0, refl), calculate_total_prices-IsPriced query now ps h.1)

      retain_max-AtMost :
          (query : CheapestQuery T F) (now : T) (limit : Option F) (totals : List (TotalPrice T F))
          → All (IsPriced query now) totals
          → All (λ t. IsPriced query now t × AtMost limit t) (retain_max limit totals)
      retain_max-AtMost query now none totals h = All-map totals (λ t p. (p, tt)) h
      retain_max-AtMost query now (some limit) totals h =
          All-filter (λ t. d.le (total_of t) limit) totals (λ t p e. (p, e)) h

      retain_max-IsOffered :
          (query : CheapestQuery T F) (now : T) (totals : List (TotalPrice T F))
          → All (IsPriced query now) totals
          → All (IsOffered prices s query now) (retain_max query.max_price totals)
      unfolding IsPriced IsCandidate
      retain_max-IsOffered query now totals h =
          All-map (retain_max query.max_price totals)
            (λ t p. record {
              price = p.0.0;
              stored = p.0.1.0;
              in_range = p.0.1.1;
              total_eq = p.0.2;
              allowed = p.1;
            })
            (retain_max-AtMost query now query.max_price totals h)

      -- Every interval of an answer is offered: it is a stored interval of the requested range, with
      -- the user's total, at or below the highest price of the query.
      pub cheapest_window-IsOffered :
          IsOrdered F
          → (query : CheapestQuery T F) (now : T) (w : PriceWindow T F)
          → cheapest_window prices s query now ≡ ok w
          → All (IsOffered prices s query now) w.prices
      unfolding cheapest_window
      cheapest_window-IsOffered o query now w h =
          go (cheapest_candidates prices now query.start_time query.end_time)
            (cheapest_candidates-IsCandidate query now) h
        where
          go :
              (candidates : List (PriceInterval T F))
              → All (IsCandidate query now) candidates
              → answer_for s query candidates ≡ ok w
              → All (IsOffered prices s query now) w.prices
          go [] a e = absurd (ground arith)
          go (p ∷ ps) a e =
              let totals = calculate_total_prices (p ∷ ps) s in
              let kept = retain_max query.max_price totals in
              let offered =
                retain_max-IsOffered query now totals
                  (calculate_total_prices-IsPriced query now (p ∷ ps) a) in
              let found : find_cheapest_window kept query.duration_minutes ≡ some w =
                ground arith in
              let (from, count, mean, cheapest, same) =
                find_cheapest_window_lem o kept query.duration_minutes w found in
              rw same (All-take _ count (drop from kept) (All-drop _ from kept offered))

      -- the test of the filters
      in_range : CheapestQuery T F → T → PriceInterval T F → Bool
      in_range query now p =
          le (unwrap_or query.start_time (truncate_to_millisecond now)) p.period.start
          && ends_by query.end_time p

      in_range_iff :
          (query : CheapestQuery T F) (now : T) (p : PriceInterval T F)
          → (in_range query now p ≡ false) ↔ (¬ InRange query now p)
      unfolding in_range
      in_range_iff query now p =
          let from = unwrap_or query.start_time (truncate_to_millisecond now) in
          let starts = laws.le-eq from p.period.start in
          let ends = ends_by_iff query.end_time p in
          (
            λ h r. ground (arith, starts, ends),
            λ n. elim (Bool-cases (in_range query now p)) [
              | inl e ↦ absurd (n (ground (arith, starts), ends.0 (ground arith)))
              | inr e ↦ e
            ],
          )

      candidates-nil_iff :
          (query : CheapestQuery T F) (now : T)
          → (cheapest_candidates prices now query.start_time query.end_time ≡ [])
            ↔ All (λ p. ¬ InRange query now p) prices
      unfolding cheapest_candidates in_range
      candidates-nil_iff query now =
          let test = in_range query now in
          rw (filter-filter (ends_by query.end_time)) (
            λ h.
                All-map prices (λ p e. (in_range_iff query now p).0 e)
                  ((filter-eq-nil_iff test prices).0 h),
            λ h.
                (filter-eq-nil_iff test prices).1
                  (All-map prices (λ p n. (in_range_iff query now p).1 n) h),
          )

      answer_for-no_price_data :
          (query : CheapestQuery T F) (candidates : List (PriceInterval T F))
          → (answer_for s query candidates ≡ err no_price_data) ↔ (candidates ≡ [])
      unfolding answer_for
      answer_for-no_price_data query [] = (λ h. refl, λ h. refl)
      answer_for-no_price_data query (p ∷ ps) =
          (λ h. absurd (ground arith), λ h. absurd (ground arith))

      -- `/price/cheapest` answers that there is no price data exactly when no stored interval lies in
      -- the requested range.
      pub cheapest_window_no_price_data :
          (query : CheapestQuery T F) (now : T)
          → (cheapest_window prices s query now ≡ err no_price_data)
            ↔ All (λ p. ¬ InRange query now p) prices
      unfolding cheapest_window
      cheapest_window_no_price_data query now =
          let candidates = cheapest_candidates prices now query.start_time query.end_time in
          let (there, back) = answer_for-no_price_data query candidates in
          let (nil, empty) = candidates-nil_iff query now in
          (λ h. nil (there h), λ h. back (empty h))
