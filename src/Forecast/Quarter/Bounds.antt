-- ===== src/Forecast/Quarter/Bounds.antt =====
-- Where a quarter stands against the instants that it is the quarter of.
use spot_price.Prelude.{◌≡◌, arith}
use spot_price.Prelude.Int.{ℤ, pos, negsuc, ◌+ℤ◌, ◌-ℤ◌, ◌≤ℤ◌, ◌<ℤ◌, rem_euclid, saturate}
use spot_price.Forecast.Quarter.{quarter_from_millisecond, quarter_ms}

-- `i64`, without its first quarter of an hour.
abbrev pub IsMillisecond : ℤ → Type 0
IsMillisecond ms = (negsuc 9_223_372_036_853_875_807 ≤ℤ ms) × (ms ≤ℤ pos 9_223_372_036_854_775_807)

-- A quarter starts at a multiple of 15 minutes, at or before its millisecond, and ends after it. The
-- millisecond is an `i64` behind the first 15 minutes of the type.
pub quarter_from_millisecond-bounds :
    (ms : ℤ)
    → IsMillisecond ms
    → (rem_euclid (quarter_from_millisecond ms).start quarter_ms ≡ 0)
      × ((quarter_from_millisecond ms).start ≤ℤ ms)
      × (ms <ℤ (quarter_from_millisecond ms).start +ℤ pos quarter_ms)
unfolding quarter_from_millisecond saturate rem_euclid ◌-ℤ◌ ◌+ℤ◌
quarter_from_millisecond-bounds (pos n) h = ground arith
quarter_from_millisecond-bounds (negsuc n) h = ground arith
