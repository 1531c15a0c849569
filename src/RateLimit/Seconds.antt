-- ===== src/RateLimit/Seconds.antt =====
-- The rounding of `ceil_seconds`.
use spot_price.Prelude.{◌↔◌, arith}
use spot_price.Prelude.Int.{ℤ, pos, negsuc, ◌+ℤ◌, ◌*ℤ◌, ◌≤ℤ◌, div_euclid, rem_euclid}
use spot_price.RateLimit.{ceil_seconds}

-- The whole seconds of a time are the fewest that last at least as long.
pub ceil_seconds_iff : (ms s : ℤ) → (ceil_seconds ms ≤ℤ s) ↔ (ms ≤ℤ s *ℤ pos 1000)
unfolding ceil_seconds ◌+ℤ◌ ◌*ℤ◌ div_euclid rem_euclid
ceil_seconds_iff (pos m) (pos s) = ground arith
ceil_seconds_iff (pos m) (negsuc s) = ground arith
ceil_seconds_iff (negsuc m) (pos s) = ground arith
ceil_seconds_iff (negsuc m) (negsuc s) = ground arith
