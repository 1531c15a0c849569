-- ===== src/Time/Examples.antt =====
-- Runs of the time rules.
use spot_price.Prelude.{◌≡◌, ◌↔◌, refl, true, false, some, List, [], ◌∷◌}
use spot_price.Prelude.Int.{ℤ, pos, negsuc, ◌+ℤ◌, ◌-ℤ◌, ◌*ℤ◌, div_euclid}
use spot_price.Prelude.Text.{codes}
use spot_price.Jiff.Nanos.{nanos, nanos-IsInstant, fixed_zoned, gregorian}
use spot_price.Fixtures.{helsinki}
use spot_price.Time.{
  UtcRange, covers_range, format_date_time_in_time_zone, utc_range_for_local_date,
}
use spot_price.Time.Coverage.{IsCovered, covers_range_iff}

abbrev day_range : UtcRange ℤ
day_range = record { start = pos 0; end = pos 90 }

abbrev shuffled : List (ℤ × ℤ)
shuffled = (pos 30, pos 95) ∷ (negsuc 4, pos 20) ∷ (pos 10, pos 30) ∷ []

covered : covers_range shuffled day_range ≡ true
unfolding covers_range
covered = refl

not_covered : covers_range ((pos 31, pos 95) ∷ (pos 0, pos 30) ∷ []) day_range ≡ false
unfolding covers_range
not_covered = refl

covers_range_iff_example : (covers_range shuffled day_range ≡ true) ↔ IsCovered shuffled day_range
covers_range_iff_example = covers_range_iff nanos-IsInstant shuffled day_range

winter_text :
    format_date_time_in_time_zone (pos 1_771_934_400_999_000_000) helsinki
    ≡ codes "2026-02-24T14:00:00+02:00"
unfolding format_date_time_in_time_zone div_euclid ◌+ℤ◌
winter_text = refl

one_day :
    utc_range_for_local_date (record { year = pos 2026; month = 2; day = 28 }) helsinki
    ≡ some (record { start = pos 1_772_229_600_000_000_000; end = pos 1_772_316_000_000_000_000 })
unfolding utc_range_for_local_date ◌+ℤ◌ ◌-ℤ◌ ◌*ℤ◌
one_day = refl
