-- ===== src/RateLimit/Examples.antt =====
-- Runs of a limiter of two requests per minute.
use spot_price.Prelude.{
  Bool, ◌≤◌, String, true, false, none, some, List, [], ◌∷◌, ◌≡◌, ◌⊎◌, inl, refl, arith, map,
  filter,
}
use spot_price.Prelude.Int.{saturate, ℤ, pos, negsuc, ◌+ℤ◌, ◌-ℤ◌, ◌≤ℤ◌, div_euclid, rem_euclid}
use spot_price.RateLimit.{
  Limiter, Decision, new_limiter, max_keys, ceil_seconds, get?, check, check_all, decide,
  rate_limits, is_live,
}
use spot_price.RateLimit.Capacity.{IsWellFormed, check_all-IsWellFormed, check-drops, EndsFirst}
use spot_price.RateLimit.Counts.{check_window}

abbrev two_a_minute : Limiter
two_a_minute = new_limiter 2 (pos 60_000) "slow down"

abbrev some_requests : List (String × ℤ)
some_requests = ("b", pos 1_000_000) ∷ ("a", pos 1_000_001) ∷ []

abbrev allowed_of : Decision → Bool
allowed_of d = d.allowed

test-check_all :
    map allowed_of
      (check_all two_a_minute (
        ("a", pos 1_000_000)
        ∷ ("a", pos 1_000_001)
        ∷ ("a", pos 1_001_500)
        ∷ ("b", pos 1_000_000)
        ∷ ("a", pos 1_060_000)
        ∷ [])).0
    ≡ true ∷ true ∷ false ∷ true ∷ true ∷ []
unfolding check_all saturate ◌+ℤ◌
test-check_all = refl

test-check : (check two_a_minute "a" (pos 1_000_000)).0 ≡ record {
  allowed = true;
  limit = 2;
  remaining = 1;
  reset_seconds = pos 60;
  window_seconds = pos 60;
}
unfolding check decide saturate ceil_seconds ◌+ℤ◌ ◌-ℤ◌ div_euclid rem_euclid
test-check = refl

test-ceil_seconds : ceil_seconds (negsuc 1_499) ≡ negsuc 0
unfolding ceil_seconds ◌+ℤ◌ div_euclid rem_euclid
test-ceil_seconds = refl

check_all-IsWellFormed_example : IsWellFormed (check_all rate_limits.login some_requests).1.windows
check_all-IsWellFormed_example =
    check_all-IsWellFormed rate_limits.login some_requests (tt, omega arith)

abbrev after_two : Limiter
after_two = (check_all (check two_a_minute "a" (pos 1_000_000)).1 some_requests).1

check_window_example : (check after_two "a" (pos 1_000_002)).0.allowed ≡ false
unfolding saturate ◌+ℤ◌
check_window_example =
    check_window two_a_minute "a" (pos 1_000_000) (pos 1_000_002) some_requests (inl refl)
      (omega arith, (omega arith, tt)) (omega arith) (omega arith) (omega arith)

abbrev one_window : Limiter
one_window = record {
  limit = 2;
  window_ms = pos 60_000;
  message = "slow down";
  windows = ("b", record { hits = 1; reset_at_ms = pos 5 }) ∷ [];
}

check-drops_example :
    (get? "b" (check one_window "a" (pos 9)).1.windows
      ≡ some (record { hits = 1; reset_at_ms = pos 5 }))
    ⊎ (max_keys ≤ 1)
      × (get? "a" one_window.windows ≡ none)
      × ((pos 5 ≤ℤ pos 9)
          ⊎ EndsFirst
              (record { hits = 1; reset_at_ms = pos 5 })
              (filter (is_live (pos 9)) one_window.windows))
check-drops_example =
    check-drops one_window "a" "b" (pos 9) (record { hits = 1; reset_at_ms = pos 5 })
      ((refl, tt), omega arith) refl refl
