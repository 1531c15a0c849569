-- ===== src/Forecast/Series/Gaps.antt =====
-- `extend_with_last_week` and `fill_gaps_from_earlier_weeks`.
pub mod Lookup
pub mod Equal
use spot_price.Prelude.{
  ℕ, zero, suc, ◌+◌, ◌*◌, max, Bool, true, false, Option, none, some, List, [], ◌∷◌, first?, last?,
  if◌then◌else◌, ltb, ◌==◌,
}
use spot_price.Prelude.Int.{ℤ, pos, ◌+ℤ◌, ◌-ℤ◌, ltb_ℤ, div_euclid, pos_part, saturate}
use spot_price.Float.{Double}
use spot_price.Forecast.Quarter.{
  QuarterStart, QuarterMap, quarter_from_millisecond, insert_quarter, get_quarter, quarter_ms,
  week_ms,
}
use spot_price.Forecast.Series.{tally, no_tally, mean}
use spot_price.Forecast.Series.Buckets.{is_some}

-- The cursors of `while cursor < end { … cursor += QUARTER_MS; }`, on fuel.
abbrev pub cursors_from : ℕ → ℤ → ℤ → List ℤ
cursors_from zero cursor end = []
cursors_from (suc fuel) cursor end =
    let rest = cursors_from fuel (cursor +ℤ pos quarter_ms) end in
    if ltb_ℤ cursor end then cursor ∷ rest else []

-- As many as the quarters that the distance has begun.
abbrev pub quarters_between : ℤ → ℤ → ℕ
quarters_between cursor end = pos_part (div_euclid (end -ℤ cursor +ℤ pos 899_999) quarter_ms)

unfoldable pub cursors : ℤ → ℤ → List ℤ
cursors cursor end = cursors_from (quarters_between cursor end) cursor end

abbrev pub first_key : {F : Type 0} → QuarterMap F → Option QuarterStart
first_key [] = none
first_key ((quarter, value) ∷ entries) = some quarter

abbrev pub last_key : {F : Type 0} → QuarterMap F → Option QuarterStart
last_key [] = none
last_key ((quarter, value) ∷ []) = some quarter
last_key ((quarter, value) ∷ entry ∷ entries) = last_key (entry ∷ entries)

-- The values that one loop inserts, in the order of its cursors.
module _ {F : Type 0} (value : ℤ → Option F) where
  abbrev pub inserted : Option F → ℤ → QuarterMap F → QuarterMap F
  inserted none cursor out = out
  inserted (some v) cursor out = insert_quarter (quarter_from_millisecond cursor) v out

  abbrev pub fill : List ℤ → QuarterMap F → QuarterMap F
  fill [] out = out
  fill (cursor ∷ rest) out = fill rest (inserted (value cursor) cursor out)

-- The most weeks back that `fill_gaps_from_earlier_weeks` reads.
abbrev pub gap_fill_lookback_weeks : ℕ
gap_fill_lookback_weeks = 4

abbrev pub week_back : ℤ → ℕ → QuarterStart
week_back cursor week = quarter_from_millisecond (cursor -ℤ pos (week * week_ms))

module _ {F : Type 0} ⦃d : Double F⦄ where
  abbrev pub add_found : Option F → F × ℕ → F × ℕ
  add_found none sums = sums
  add_found (some value) sums = tally value sums

  -- The mean of what was found.
  abbrev pub mean_of : F × ℕ → Option F
  mean_of (sum, count) = if ltb 0 count then some (mean (sum, count)) else none

  -- The loop of `extend_with_last_week` over `weeks` weeks from `week`.
  abbrev pub week_sums : QuarterMap F → ℤ → ℕ → ℕ → F × ℕ → F × ℕ
  week_sums actual cursor zero week sums = sums
  week_sums actual cursor (suc weeks) week sums =
      week_sums actual cursor weeks (week + 1)
        (add_found (get_quarter (week_back cursor week) actual) sums)

  abbrev pub week_value : QuarterMap F → ℕ → ℤ → Option F
  week_value actual weeks cursor = mean_of (week_sums actual cursor weeks 1 no_tally)

  abbrev pub extend_after : Option QuarterStart → QuarterMap F → QuarterMap F → ℤ → ℕ → QuarterMap F
  extend_after none forecast actual series_end_ms weeks = forecast
  extend_after (some last_known) forecast actual series_end_ms weeks =
      fill (week_value actual weeks)
        (cursors (saturate (last_known.start +ℤ pos quarter_ms)) series_end_ms) forecast

  unfoldable pub extend_with_last_week : QuarterMap F → QuarterMap F → ℤ → ℕ → QuarterMap F
  extend_with_last_week forecast actual series_end_ms weeks =
      extend_after (last_key forecast) forecast actual series_end_ms weeks

  -- The same loop of `fill_gaps_from_earlier_weeks`, which ends when enough weeks are found.
  abbrev pub gap_sums : QuarterMap F → ℤ → ℕ → ℕ → ℕ → F × ℕ → F × ℕ
  gap_sums actual cursor wanted zero week sums = sums
  gap_sums actual cursor wanted (suc lookback) week sums =
      let rest =
        gap_sums actual cursor wanted lookback (week + 1)
          (add_found (get_quarter (week_back cursor week) actual) sums) in
      if sums.1 == wanted then sums else rest

  abbrev pub gap_value : QuarterMap F → QuarterMap F → ℕ → ℤ → Option F
  gap_value known actual weeks cursor =
      if is_some (get_quarter (quarter_from_millisecond cursor) known)
      then none
      else mean_of (gap_sums actual cursor weeks (max weeks gap_fill_lookback_weeks) 1 no_tally)

  abbrev pub fill_from : Option QuarterStart → QuarterMap F → QuarterMap F → ℤ → ℕ → QuarterMap F
  fill_from none known actual series_end_ms weeks = []
  fill_from (some first) known actual series_end_ms weeks =
      if weeks == 0
      then []
      else fill (gap_value known actual weeks) (cursors first.start series_end_ms) []

  unfoldable pub fill_gaps_from_earlier_weeks : QuarterMap F → QuarterMap F → ℤ → ℕ → QuarterMap F
  fill_gaps_from_earlier_weeks known actual series_end_ms weeks =
      fill_from (first_key actual) known actual series_end_ms weeks
