-- ===== src/Endpoints.antt =====
-- `crates/domain/src/endpoints.rs`: which intervals an answer uses, and the answer without prices.
mod Answers
mod Offers
mod Examples
use spot_price.Prelude.{
  Result, ok, err, ok_or, ℕ, zero, Bool, true, false, String, Option, none, some, List, [], ◌∷◌,
  filter, find, if◌then◌else◌, ◌&&◌, unwrap_or,
}
use spot_price.Float.{Double}
use spot_price.Jiff.{Instant, Zoned}
use spot_price.Time.{truncate_to_millisecond}
use spot_price.Settings.{UserSettings}
use spot_price.Query.{CheapestQuery}
use spot_price.Price.{
  PriceInterval, TotalPrice, PriceWindow, total_of, build_price_window, calculate_total_prices,
  find_cheapest_window,
}

-- The hint of an unpublished `/price/tomorrow`.
abbrev pub tomorrow_expected_at : String
tomorrow_expected_at = "12:00 UTC"

-- The answer of a price-list endpoint.
pub data PriceList (T F : Type 0) : Type 0 where
  available : PriceWindow T F → PriceList T F
  unavailable : Option String → PriceList T F

-- Why `/price/cheapest` has no window.
pub data CheapestError (F : Type 0) : Type 0 where
  no_price_data : CheapestError F
  not_enough_data : ℕ → Option F → CheapestError F

module _ {T F : Type 0} ⦃i : Instant T⦄ ⦃d : Double F⦄ where
  abbrev listed : Option String → Option (PriceWindow T F) → PriceList T F
  listed hint none = unavailable hint
  listed hint (some window) = available window

  unfoldable pub from_totals : List (TotalPrice T F) → PriceList T F
  unfolding build_price_window
  from_totals totals = listed none (build_price_window totals)

  unfoldable pub tomorrow_from_totals : List (TotalPrice T F) → Bool → PriceList T F
  unfolding build_price_window
  tomorrow_from_totals totals complete =
      let hint = some tomorrow_expected_at in
      if complete then listed hint (build_price_window totals) else unavailable hint

module _ {T F : Type 0} ⦃i : Instant T⦄ where
  open i use {le, lt}

  -- The first interval with `start <= now < end`.
  unfoldable pub current_price : List (PriceInterval T F) → T → Option (PriceInterval T F)
  unfolding truncate_to_millisecond
  current_price prices now =
      let at = truncate_to_millisecond now in
      find (λ price. le price.period.start at && lt at price.period.end) prices

  abbrev ends_by : Option T → PriceInterval T F → Bool
  ends_by none price = true
  ends_by (some end) price = le price.period.end end

  -- The intervals that a cheapest window may use.
  unfoldable pub cheapest_candidates :
      List (PriceInterval T F) → T → Option T → Option T → List (PriceInterval T F)
  unfolding truncate_to_millisecond
  cheapest_candidates prices now start_time end_time =
      let earliest = unwrap_or start_time (truncate_to_millisecond now) in
      filter (ends_by end_time) (filter (λ price. le earliest price.period.start) prices)

module _ {T F : Type 0} ⦃i : Instant T⦄ ⦃d : Double F⦄ where
  -- `retain` of the totals at or below the limit.
  abbrev retain_max : Option F → List (TotalPrice T F) → List (TotalPrice T F)
  retain_max none totals = totals
  retain_max (some limit) totals = filter (λ total. d.le (total_of total) limit) totals

  module _ {Z : Type 0} ⦃z : Zoned T Z⦄ where
    pub answer_for :
        UserSettings F Z
        → CheapestQuery T F
        → List (PriceInterval T F)
        → Result (PriceWindow T F) (CheapestError F)
    answer_for s query [] = err no_price_data
    answer_for s query (candidate ∷ candidates) =
        let totals = calculate_total_prices (candidate ∷ candidates) s in
        ok_or (not_enough_data query.duration_minutes query.max_price)
          (find_cheapest_window (retain_max query.max_price totals) query.duration_minutes)

    unfoldable pub cheapest_window :
        List (PriceInterval T F)
        → UserSettings F Z
        → CheapestQuery T F
        → T
        → Result (PriceWindow T F) (CheapestError F)
    unfolding answer_for
    cheapest_window prices s query now =
        answer_for s query (cheapest_candidates prices now query.start_time query.end_time)
