-- ===== src/PriceJob/Examples.antt =====
-- Runs of the price job in a world that counts the requests to Nord Pool, of which the first two fail.
use spot_price.Prelude.{ℕ, zero, suc, true, false, some, [], ◌∷◌, ◌≡◌, ◌↔◌, refl, length, ok, err}
use spot_price.Prelude.Int.{ℤ, pos, ◌+ℤ◌}
use spot_price.Areas.{all_areas}
use spot_price.Jiff.{Date}
use spot_price.Jiff.Nanos.{nanos, gregorian}
use spot_price.PriceJob.{
  Attempt, prices, failed, drift, PriceWorld, fetch_day_ahead_prices, utc_date_range,
  all_areas_present, fetch_for_date, run_fetch_job,
}
use spot_price.PriceJob.Retry.{IsFetch, fetch_day_ahead_prices-IsFetch}
use spot_price.PriceJob.Presence.{IsComplete, all_areas_present_iff}

abbrev epoch_day : ℕ → Date
epoch_day n = record { year = pos 1970; month = 1; day = n }

abbrev nth_attempt : ℕ → Attempt ℕ ℕ
nth_attempt zero = failed 503
nth_attempt (suc zero) = drift
nth_attempt (suc (suc n)) = prices (40 ∷ 41 ∷ [])

-- `n` prices are stored for every area
abbrev world : ℕ → PriceWorld ℕ ℤ ℕ ℕ
world n = record {
  count_prices_by_range = λ w start end area. ok n;
  store_prices = λ w ps. (ok (length ps), w);
  attempt = λ w date areas. (nth_attempt w, suc w);
  utc_date = λ t. epoch_day 1;
  utc_start = λ date. some (pos 0);
  invalid_row = 0;
}

test-third_attempt :
    fetch_day_ahead_prices (world 0) 3 0 (epoch_day 1) all_areas ≡ (ok (40 ∷ 41 ∷ []), 3)
unfolding fetch_day_ahead_prices
test-third_attempt = refl

test-two_attempts : fetch_day_ahead_prices (world 0) 2 0 (epoch_day 1) all_areas ≡ (ok [], 2)
unfolding fetch_day_ahead_prices
test-two_attempts = refl

test-no_attempts : fetch_day_ahead_prices (world 0) 0 0 (epoch_day 1) all_areas ≡ (err 503, 1)
unfolding fetch_day_ahead_prices
test-no_attempts = refl

test-run_fetch_job : run_fetch_job (world 22) 3 0 (pos 0) ≡ (
  ok (record {
    results =
        record { date = epoch_day 1; stored = 2; skipped = false }
        ∷ record { date = epoch_day 2; stored = 2; skipped = false }
        ∷ [];
    tomorrow_available = true;
  }),
  4,
)
unfolding run_fetch_job fetch_for_date all_areas_present fetch_day_ahead_prices ◌+ℤ◌
test-run_fetch_job = refl

test_complete : all_areas_present (world 23) 0 (epoch_day 1) ≡ ok true
unfolding all_areas_present ◌+ℤ◌
test_complete = refl

test_complete_next : all_areas_present (world 23) 0 (epoch_day 2) ≡ ok true
unfolding all_areas_present ◌+ℤ◌
test_complete_next = refl

fetch_day_ahead_prices-IsFetch_example :
    IsFetch
      (world 0)
      (epoch_day 1)
      all_areas
      3
      0
      (fetch_day_ahead_prices (world 0) 3 0 (epoch_day 1) all_areas)
fetch_day_ahead_prices-IsFetch_example =
    fetch_day_ahead_prices-IsFetch (world 0) (epoch_day 1) all_areas 3 0

all_areas_present_iff_example :
    (all_areas_present (world 23) 0 (epoch_day 1) ≡ ok true)
    ↔ IsComplete (world 23) 0 (utc_date_range (world 23) (epoch_day 1))
all_areas_present_iff_example = all_areas_present_iff (world 23) 0 (epoch_day 1)
