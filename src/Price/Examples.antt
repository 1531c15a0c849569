-- ===== src/Price/Examples.antt =====
-- Runs of the price rules on concrete numbers.
use spot_price.Prelude.{
  ℕ, zero, suc, ltb, take, drop, ◌*◌, false, none, some, List, [], ◌∷◌, ◌≡◌, refl, arith,
}
use spot_price.Prelude.Int.{ℤ, pos, negsuc, ◌+ℤ◌, ◌-ℤ◌, ◌*ℤ◌, div_euclid, rem_euclid, div_trunc}
use spot_price.Float.{number, ◌≼◌}
use spot_price.Float.Halves.{
  Num, fin, halves, halves-IsOrdered, halves-IsMonotone, halves-IsFloored,
}
use spot_price.Jiff.Nanos.{nanos, fixed_zoned}
use spot_price.Fixtures.{terms, hour_period}
use spot_price.Price.{
  TotalPrice, PriceWindow, is_night_hour, apply_contract_terms, find_cheapest_window,
  build_price_window, minutes, run, scan,
}
use spot_price.Price.Contract.{total, apply_contract_terms_mono, is_night_hour_circle}
use spot_price.Price.Summary.{IsWithin, build_price_window_bounds}
use spot_price.Price.Run.{IsShortest, average}
use spot_price.Price.Cheapest.{IsCheapest, find_cheapest_window_lem, find_cheapest_window_found}

night_total : (apply_contract_terms (fin (pos 10)) terms 23).total_cents_kwh ≡ fin (pos 27)
unfolding apply_contract_terms div_euclid rem_euclid ◌+ℤ◌ ◌-ℤ◌ ◌*ℤ◌
night_total = refl

apply_contract_terms_mono_example :
    (total (fin (negsuc 19)) terms 14 ≼ total (fin (pos 10)) terms 14)
    × (total (number 0) terms 14 ≼ total (fin (negsuc 19)) terms 14)
unfolding div_euclid rem_euclid ◌+ℤ◌ ◌-ℤ◌ ◌*ℤ◌
apply_contract_terms_mono_example =
    apply_contract_terms_mono halves-IsOrdered halves-IsMonotone halves-IsFloored (fin (negsuc 19))
      (fin (pos 10)) terms 14 (ground arith) refl

is_night_hour_circle_example : is_night_hour 3 22 7 ≡ ltb 5 9
is_night_hour_circle_example = is_night_hour_circle 3 22 7 (omega arith) (omega arith) (omega arith)

abbrev entry : ℕ → ℕ → TotalPrice ℤ Num
entry k cents = record {
  period = hour_period k;
  local_start = [];
  local_end = [];
  breakdown = record {
    spot_cents_kwh = fin (pos (2 * cents));
    margin_cents_kwh = fin (pos 0);
    transfer_cents_kwh = fin (pos 0);
    tax_cents_kwh = fin (pos 0);
    vat_cents_kwh = fin (pos 0);
    total_cents_kwh = fin (pos (2 * cents));
    is_night_rate = false;
  };
}

-- five hours with a gap after the second
abbrev hours : List (TotalPrice ℤ Num)
hours = entry 0 9 ∷ entry 1 1 ∷ entry 3 2 ∷ entry 4 4 ∷ entry 5 2 ∷ []

abbrev cheapest_pair : PriceWindow ℤ Num
cheapest_pair = record {
  start = pos (3 * 3_600_000_000_000);
  end = pos (5 * 3_600_000_000_000);
  start_local = [];
  end_local = [];
  min_total_cents_kwh = fin (pos 4);
  max_total_cents_kwh = fin (pos 8);
  average_total_cents_kwh = fin (pos 6);
  prices = entry 3 2 ∷ entry 4 4 ∷ [];
}

cheapest_two_hours : find_cheapest_window hours 120 ≡ some cheapest_pair
unfolding find_cheapest_window build_price_window run scan div_euclid rem_euclid ◌+ℤ◌ ◌-ℤ◌ ◌*ℤ◌
    div_trunc
cheapest_two_hours = refl

find_cheapest_window_lem_example :
    (s : ℕ) × (n : ℕ) × (a : Num) × IsCheapest halves-IsOrdered (number 120) hours s n a
    × (cheapest_pair.prices ≡ take n (drop s hours))
find_cheapest_window_lem_example =
    find_cheapest_window_lem halves-IsOrdered hours 120 cheapest_pair cheapest_two_hours

first_two : IsShortest (number 120) (number 0) none hours 2
unfolding minutes div_euclid rem_euclid ◌+ℤ◌ ◌-ℤ◌ ◌*ℤ◌ div_trunc
first_two = record {
  some_entry = omega arith;
  in_range = omega arith;
  linked = (refl, (refl, tt));
  long_enough = refl;
  no_shorter = elim [
    | zero ↦ λ p q. absurd (omega arith)
    | suc zero ↦ λ p q. refl
    | suc (suc m) ↦ λ p q. absurd (omega arith)
  ];
}

find_cheapest_window_found_example :
    (w : PriceWindow ℤ Num) × (find_cheapest_window hours 120 ≡ some w)
unfolding minutes div_euclid ◌+ℤ◌ ◌-ℤ◌ ◌*ℤ◌ div_trunc
find_cheapest_window_found_example =
    find_cheapest_window_found halves-IsOrdered hours 120 (omega arith) 0 2
      (average (number 0) (number 0) (take 2 hours)) (first_two, refl) refl

build_price_window_bounds_example :
    IsWithin cheapest_pair.min_total_cents_kwh cheapest_pair.max_total_cents_kwh
      cheapest_pair.prices
unfolding build_price_window div_euclid rem_euclid ◌+ℤ◌ ◌-ℤ◌ ◌*ℤ◌ div_trunc
build_price_window_bounds_example =
    build_price_window_bounds halves-IsOrdered halves-IsMonotone halves-IsFloored
      (entry 3 2 ∷ entry 4 4 ∷ []) cheapest_pair refl (refl, (refl, tt)) refl
