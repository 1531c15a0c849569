-- ===== src/Forecast/Series/Gaps/Equal.antt =====
-- The two fills at one quarter.
use spot_price.Prelude.{
  ℕ, zero, suc, ◌+◌, ◌≤◌, ◌<◌, max, true, false, Option, none, some, [], ◌≡◌, refl, sym, ap, ◌∙◌,
  arith, or_else, ◌==◌,
}
use spot_price.Prelude.Int.{ℤ, pos, negsuc, ◌+ℤ◌, ◌≤ℤ◌, ◌<ℤ◌, saturate, +ℤ_parts, rem_euclid}
use spot_price.Float.{Double}
use spot_price.Forecast.Quarter.{
  QuarterStart, QuarterMap, quarter_from_millisecond, get_quarter, quarter_ms,
}
use spot_price.Forecast.Series.{no_tally}
use spot_price.Forecast.Series.Buckets.{is_some}
use spot_price.Forecast.Series.Gaps.{
  cursors, first_key, last_key, extend_with_last_week, fill_gaps_from_earlier_weeks, week_back,
  week_sums, gap_sums, week_value, gap_value, add_found, mean_of, gap_fill_lookback_weeks,
}
use spot_price.Forecast.Series.Gaps.Lookup.{
  saturate-IsMillisecond, IsQuarter, IsQuarter-next, quarter_from_millisecond-IsQuarter,
  cursors-visits, cursors-before, cursors-IsQuarter, get_quarter-fill,
}

-- The end of a series leaves room for one more quarter in the type.
abbrev pub IsSeriesEnd : ℤ → Type 0
IsSeriesEnd end = end +ℤ pos quarter_ms ≤ℤ pos 9_223_372_036_854_775_807

-- The quarter has its weeks and stands between the bounds of both fills.
abbrev pub IsFilled : QuarterStart → QuarterStart → QuarterStart → ℤ → Type 0
IsFilled first last q end =
    IsQuarter first.start
    × IsQuarter last.start
    × IsQuarter q.start
    × IsSeriesEnd end
    × (first.start ≤ℤ q.start)
    × (last.start <ℤ q.start)
    × (q.start <ℤ end)

quarter_same : (q : QuarterStart) → IsQuarter q.start → quarter_from_millisecond q.start ≡ q
quarter_same q h = ap (λ s. record { start = s }) (quarter_from_millisecond-IsQuarter q.start h)

-- The first cursor of the extension.
next_start :
    (last q : QuarterStart) (end : ℤ)
    → IsQuarter last.start
    → last.start <ℤ q.start
    → q.start <ℤ end
    → IsSeriesEnd end
    → (saturate (last.start +ℤ pos quarter_ms) ≡ last.start +ℤ pos quarter_ms)
      × IsQuarter (last.start +ℤ pos quarter_ms)
next_start last q end h l u e =
    let next = +ℤ_parts last.start (pos quarter_ms) in
    let room = +ℤ_parts end (pos quarter_ms) in
    let is_next = IsQuarter-next last.start h (omega (arith, next, room, l, u, e)) in
    (saturate-IsMillisecond _ is_next.1, is_next)

-- A quarter that is behind another is so by a quarter of an hour.
quarter_step :
    (a b : ℤ)
    → rem_euclid a quarter_ms ≡ 0
    → rem_euclid b quarter_ms ≡ 0
    → a <ℤ b
    → a +ℤ pos quarter_ms ≤ℤ b
unfolding rem_euclid ◌+ℤ◌
quarter_step (pos m) (pos n) p q h = ground arith
quarter_step (pos m) (negsuc n) p q h = absurd (omega arith)
quarter_step (negsuc m) (pos n) p q h = ground arith
quarter_step (negsuc m) (negsuc n) p q h = ground arith

module _ {F : Type 0} ⦃d : Double F⦄ where
  -- `actual` has the quarter of each of `weeks` weeks back, from `week`.
  abbrev pub HasWeeks : QuarterMap F → ℤ → ℕ → ℕ → Type 0
  HasWeeks actual cursor zero week = Unit
  HasWeeks actual cursor (suc weeks) week =
      (is_some (get_quarter (week_back cursor week) actual) ≡ true)
      × HasWeeks actual cursor weeks (week + 1)

  add_found_count : (o : Option F) (s : F × ℕ) → is_some o ≡ true → (add_found o s).1 ≡ s.1 + 1
  add_found_count none s h = ground arith
  add_found_count (some v) s h = refl

  -- The loop that stops at enough weeks does the same where the first weeks all have a value.
  gap_sums-week :
      (actual : QuarterMap F) (cursor : ℤ) (wanted lookback weeks week : ℕ) (s : F × ℕ)
      → weeks ≤ lookback
      → s.1 + weeks ≡ wanted
      → HasWeeks actual cursor weeks week
      → gap_sums actual cursor wanted lookback week s ≡ week_sums actual cursor weeks week s
  gap_sums-week actual cursor wanted zero zero week s l e h = refl
  gap_sums-week actual cursor wanted (suc lookback) zero week s l e h = ground arith
  gap_sums-week actual cursor wanted zero (suc weeks) week s l e h = absurd (omega arith)
  gap_sums-week actual cursor wanted (suc lookback) (suc weeks) week s l e (h, hs) =
      let next = add_found (get_quarter (week_back cursor week) actual) s in
      let count = add_found_count (get_quarter (week_back cursor week) actual) s h in
      let rest =
        gap_sums-week actual cursor wanted lookback weeks (week + 1) next (omega arith)
          (omega (arith, e, count)) hs in
      ground (arith, rest)

  gap_value-week :
      (known actual : QuarterMap F) (weeks : ℕ) (cursor : ℤ)
      → get_quarter (quarter_from_millisecond cursor) known ≡ none
      → HasWeeks actual cursor weeks 1
      → gap_value known actual weeks cursor ≡ week_value actual weeks cursor
  gap_value-week known actual weeks cursor u h =
      let same =
        gap_sums-week actual cursor weeks (max weeks gap_fill_lookback_weeks) weeks 1 no_tally
          (omega arith) (omega arith) h in
      rw u (ap mean_of same)

  get_quarter-extend :
      (forecast actual : QuarterMap F) (first last q : QuarterStart) (end : ℤ) (weeks : ℕ)
      → IsFilled first last q end
      → last_key forecast ≡ some last
      → get_quarter q (extend_with_last_week forecast actual end weeks)
        ≡ or_else (week_value actual weeks q.start) (get_quarter q forecast)
  unfolding extend_with_last_week
  get_quarter-extend forecast actual first last q end weeks (hf, hl, hq, he, lf, ll, lq) k =
      let (sat, is_next) = next_start last q end hl ll lq he in
      let visited =
        cursors-visits (last.start +ℤ pos quarter_ms) end q.start is_next.0 hq.0
          (quarter_step last.start q.start hl.0 hq.0 ll) lq in
      rw k (
        rw sat (
          get_quarter-fill (week_value actual weeks) q (cursors (last.start +ℤ pos quarter_ms) end)
            forecast (cursors-IsQuarter _ end is_next he)
          ∙ rw visited refl))

  get_quarter-fill_gaps :
      (known actual : QuarterMap F) (first last q : QuarterStart) (end : ℤ) (weeks : ℕ)
      → 0 < weeks
      → IsFilled first last q end
      → first_key actual ≡ some first
      → get_quarter q (fill_gaps_from_earlier_weeks known actual end weeks)
        ≡ or_else (gap_value known actual weeks q.start) none
  unfolding fill_gaps_from_earlier_weeks
  get_quarter-fill_gaps known actual first last q end weeks w (hf, hl, hq, he, lf, ll, lq) k =
      let visited = cursors-visits first.start end q.start hf.0 hq.0 lf lq in
      let some_weeks : (weeks == 0) ≡ false = ground arith in
      rw k (
        rw some_weeks (
          get_quarter-fill (gap_value known actual weeks) q (cursors first.start end) []
            (cursors-IsQuarter _ end hf he)
          ∙ rw visited refl))

  -- At a quarter whose first `weeks` weeks back all have a value, one at least, the two fills agree.
  -- The quarter is in neither map, from the first actual quarter on, behind the last of the
  -- forecast and before the end of the series, which is behind the last quarter of the type.
  pub fill_gaps-extend :
      (known forecast actual : QuarterMap F) (first last q : QuarterStart) (end : ℤ) (weeks : ℕ)
      → 0 < weeks
      → IsFilled first last q end
      → first_key actual ≡ some first
      → last_key forecast ≡ some last
      → get_quarter q known ≡ none
      → get_quarter q forecast ≡ none
      → HasWeeks actual q.start weeks 1
      → get_quarter q (fill_gaps_from_earlier_weeks known actual end weeks)
        ≡ get_quarter q (extend_with_last_week forecast actual end weeks)
  fill_gaps-extend known forecast actual first last q end weeks w h kf kl uk uf hw =
      let (_, _, hq, _, _, _, _) = h in
      let same = quarter_same q hq in
      let unknown = ap (λ k. get_quarter k known) same ∙ uk in
      get_quarter-fill_gaps known actual first last q end weeks w h kf
      ∙ ap (λ v. or_else v none) (gap_value-week known actual weeks q.start unknown hw)
      ∙ ap (or_else (week_value actual weeks q.start)) (sym uf)
      ∙ sym (get_quarter-extend forecast actual first last q end weeks h kl)

  -- An extension leaves the quarters up to the last of the forecast as they are; that quarter is a
  -- multiple of a quarter of an hour, and one more quarter behind it and behind the end is an i64.
  pub extend_with_last_week-keeps :
      (forecast actual : QuarterMap F) (last q : QuarterStart) (end : ℤ) (weeks : ℕ)
      → last_key forecast ≡ some last
      → IsQuarter last.start
      → IsSeriesEnd last.start
      → IsSeriesEnd end
      → q.start ≤ℤ last.start
      → get_quarter q (extend_with_last_week forecast actual end weeks) ≡ get_quarter q forecast
  unfolding extend_with_last_week
  extend_with_last_week-keeps forecast actual last q end weeks k hl room he l =
      let next = +ℤ_parts last.start (pos quarter_ms) in
      let is_next = IsQuarter-next last.start hl room in
      let sat = saturate-IsMillisecond _ is_next.1 in
      let unvisited =
        cursors-before (last.start +ℤ pos quarter_ms) end q.start (omega (arith, next, l)) in
      rw k (
        rw sat (
          get_quarter-fill (week_value actual weeks) q (cursors (last.start +ℤ pos quarter_ms) end)
            forecast (cursors-IsQuarter _ end is_next he)
          ∙ rw unvisited refl))
