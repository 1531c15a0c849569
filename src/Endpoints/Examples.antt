-- ===== src/Endpoints/Examples.antt =====
-- Runs of the endpoint rules on a small store.
use spot_price.Prelude.{
  ok, err, ℕ, ◌*◌, true, false, none, some, List, [], ◌∷◌, ◌≡◌, refl, All, IsFirst,
}
use spot_price.Prelude.Int.{ℤ, pos, ◌+ℤ◌, ◌-ℤ◌, ◌*ℤ◌, div_euclid, rem_euclid, div_trunc}
use spot_price.Areas.{Area}
use spot_price.Float.Halves.{Num, fin, halves, halves-IsOrdered}
use spot_price.Jiff.Nanos.{nanos, nanos-IsInstant, fixed_zoned}
use spot_price.Fixtures.{terms, hour_period}
use spot_price.Query.{CheapestQuery}
use spot_price.Price.{
  PriceInterval, TotalPrice, PriceWindow, scan, calculate_total_prices, build_price_window,
  find_cheapest_window,
}
use spot_price.Endpoints.{
  unavailable, tomorrow_expected_at, tomorrow_from_totals, current_price, no_price_data,
  cheapest_window, cheapest_candidates,
}
use spot_price.Endpoints.Answers.{IsCurrent, current_price-IsFirst}
use spot_price.Endpoints.Offers.{IsOffered, cheapest_window-IsOffered}

abbrev stored_hour : ℕ → ℕ → PriceInterval ℤ Num
stored_hour k eur = record {
  period = hour_period k;
  price_eur_mwh = fin (pos (2 * eur));
  area = Area.fi;
}

abbrev store : List (PriceInterval ℤ Num)
store = stored_hour 0 90 ∷ stored_hour 1 20 ∷ stored_hour 2 30 ∷ []

abbrev first_hour_past : ℤ
first_hour_past = pos 3_600_000_000_001

current_is_second : current_price store first_hour_past ≡ some (stored_hour 1 20)
unfolding current_price div_trunc ◌*ℤ◌ ◌-ℤ◌
current_is_second = refl

current_price-IsFirst_example :
    IsFirst (IsCurrent first_hour_past) store (current_price store first_hour_past)
unfolding ◌*ℤ◌ div_euclid
current_price-IsFirst_example =
    current_price-IsFirst nanos-IsInstant store first_hour_past (pos 3_600_000_000_000) refl (
      ((pos 0, refl), (pos 3_600_000, refl)),
      (
        ((pos 3_600_000, refl), (pos 7_200_000, refl)),
        (((pos 7_200_000, refl), (pos 10_800_000, refl)), tt),
      ),
    )

abbrev one_hour : CheapestQuery ℤ Num
one_hour = record {
  duration_minutes = 60;
  start_time = none;
  end_time = some (pos 10_800_000_000_000);
  max_price = some (fin (pos 40));
}

abbrev totals : List (TotalPrice ℤ Num)
totals = calculate_total_prices store terms

some_window : (w : PriceWindow ℤ Num) × (cheapest_window store terms one_hour (pos 0) ≡ ok w)
unfolding cheapest_window find_cheapest_window build_price_window scan calculate_total_prices
    div_euclid rem_euclid ◌+ℤ◌ ◌-ℤ◌ ◌*ℤ◌ div_trunc cheapest_candidates
some_window = (_, refl)

no_answer_tomorrow :
    cheapest_window store terms one_hour (pos 90_000_000_000_000) ≡ err no_price_data
unfolding cheapest_window find_cheapest_window scan calculate_total_prices div_euclid rem_euclid
    ◌+ℤ◌ ◌-ℤ◌ ◌*ℤ◌ div_trunc cheapest_candidates
no_answer_tomorrow = refl

cheapest_window-IsOffered_example :
    All (IsOffered store terms one_hour (pos 0)) some_window.0.prices
cheapest_window-IsOffered_example =
    cheapest_window-IsOffered nanos-IsInstant store terms halves-IsOrdered one_hour (pos 0)
      some_window.0 some_window.1

-- a complete day with prices, one without, and one that is not complete
test-tomorrow_incomplete :
    tomorrow_from_totals totals false ≡ unavailable (some tomorrow_expected_at)
unfolding tomorrow_from_totals
test-tomorrow_incomplete = refl

test-tomorrow_empty :
    tomorrow_from_totals {T = ℤ} {F = Num} [] true ≡ unavailable (some tomorrow_expected_at)
unfolding tomorrow_from_totals build_price_window
test-tomorrow_empty = refl
