-- ===== src/Forecast/Quarter.antt =====
-- `crates/domain/src/forecast/quarter.rs`: the UTC quarters of an hour, the time key of every series.
pub mod Bounds
pub mod Points
use spot_price.Prelude.{
  ℕ, ◌+◌, ◌*◌, ◌/◌, ◌%◌, ◌^◌, Bool, true, false, Option, none, some, List, [], ◌∷◌, if◌then◌else◌,
}
use spot_price.Prelude.Int.{ℤ, pos, ◌+ℤ◌, ◌-ℤ◌, ◌*ℤ◌, div_euclid, rem_euclid, ltb_ℤ, eq_ℤ, saturate}
use spot_price.Jiff.{Instant}

abbrev pub quarter_ms : ℕ
quarter_ms = 900_000

abbrev pub hour_ms : ℕ
hour_ms = 3_600_000

abbrev pub day_ms : ℕ
day_ms = 86_400_000

abbrev pub week_ms : ℕ
week_ms = 604_800_000

-- The start of a quarter, in epoch milliseconds.
pub record QuarterStart : Type 0 where
  pub start : ℤ

-- The quarter that contains a millisecond.
unfoldable pub quarter_from_millisecond : ℤ → QuarterStart
unfolding saturate
quarter_from_millisecond ms = record { start = saturate (ms -ℤ pos (rem_euclid ms quarter_ms)) }

unfoldable pub quarter_floor : {T : Type 0} ⦃i : Instant T⦄ → T → QuarterStart
unfolding quarter_from_millisecond
quarter_floor ⦃i⦄ at = quarter_from_millisecond (i.as_millisecond at)

unfoldable pub quarter_offset : QuarterStart → ℤ → QuarterStart
unfolding quarter_from_millisecond saturate
quarter_offset quarter ms = quarter_from_millisecond (saturate (quarter.start +ℤ ms))

-- `none` is `OutOfRange`.
unfoldable pub quarter_timestamp : {T : Type 0} ⦃i : Instant T⦄ → QuarterStart → Option T
quarter_timestamp ⦃i⦄ quarter = i.from_millisecond quarter.start

-- The UTC hour, and the UTC weekday with Sunday as 0, each cast to a `u8`.
unfoldable pub utc_hour : QuarterStart → ℕ
utc_hour quarter = rem_euclid quarter.start day_ms / hour_ms % 2 ^ 8

unfoldable pub utc_weekday : QuarterStart → ℕ
utc_weekday quarter = rem_euclid (div_euclid quarter.start day_ms +ℤ pos 4) 7 % 2 ^ 8

-- A product outside `i64` stands here as itself; the first day of the type is the only such case.
unfoldable pub utc_day_start_ms : QuarterStart → ℤ
utc_day_start_ms quarter = div_euclid quarter.start day_ms *ℤ pos day_ms

-- A `BTreeMap` from quarters: its entries, in the order of their keys.
abbrev pub QuarterMap : Type 0 → Type 0
QuarterMap F = List (QuarterStart × F)

module _ {F : Type 0} where
  abbrev pub insert_quarter : QuarterStart → F → QuarterMap F → QuarterMap F
  insert_quarter quarter value [] = (quarter, value) ∷ []
  insert_quarter quarter value ((q, v) ∷ entries) =
      let rest = insert_quarter quarter value entries in
      if ltb_ℤ quarter.start q.start
      then (quarter, value) ∷ (q, v) ∷ entries
      else if eq_ℤ quarter.start q.start
      then (quarter, value) ∷ entries
      else (q, v) ∷ rest

  abbrev pub get_quarter : QuarterStart → QuarterMap F → Option F
  get_quarter quarter [] = none
  get_quarter quarter ((q, v) ∷ entries) =
      let rest = get_quarter quarter entries in if eq_ℤ q.start quarter.start then some v else rest

  module _ {T : Type 0} ⦃i : Instant T⦄ where
    -- `collect`: the points are inserted in their order.
    abbrev pub insert_points : QuarterMap F → List (T × F) → QuarterMap F
    insert_points entries [] = entries
    insert_points entries ((at, value) ∷ points) =
        insert_points (insert_quarter (quarter_floor at) value entries) points

    unfoldable pub quarter_map : List (T × F) → QuarterMap F
    unfolding quarter_floor
    quarter_map points = insert_points [] points
