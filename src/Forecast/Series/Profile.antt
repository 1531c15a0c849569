-- ===== src/Forecast/Series/Profile.antt =====
-- The profile prices: `profile_values` and what it calls.
pub mod Memo
use spot_price.Prelude.{
  ℕ, zero, suc, ◌+◌, ◌*◌, Bool, true, false, Option, none, some, List, [], ◌∷◌, all, if◌then◌else◌,
  ◌==◌, Result, ok, err, and_then, ok_or, or_else, ◌&&◌,
}
use spot_price.Prelude.Int.{ℤ, pos, ◌-ℤ◌, ltb_ℤ, eq_ℤ}
use spot_price.Float.{Double, number}
use spot_price.Jiff.{
  same_date, Instant, Date, DateTime, Calendar, Weekdays, Zoned, Ambiguity, AmbiguousOffset,
  unambiguous, gap, fold,
}
use spot_price.Time.{start_of_local_day_utc, next_calendar_day}
use spot_price.Forecast.Quarter.{
  QuarterStart, QuarterMap, quarter_from_millisecond, quarter_floor, quarter_offset,
  quarter_timestamp, insert_quarter, get_quarter, day_ms, week_ms,
}
use spot_price.Forecast.Series.Buckets.{is_some}
use spot_price.Forecast.Series.Gaps.{cursors}

-- `persistence_at`: the price one day earlier, else one week earlier.
abbrev pub persistence_at : {F : Type 0} → QuarterStart → QuarterMap F → Option F
persistence_at key spot_prices =
    or_else (get_quarter (quarter_offset key (pos 0 -ℤ pos day_ms)) spot_prices)
      (get_quarter (quarter_offset key (pos 0 -ℤ pos week_ms)) spot_prices)

abbrev pub previous_published_day_lookback_days : ℕ
previous_published_day_lookback_days = 7

pub data ShapeProfile (Z : Type 0) : Type 0 where
  persistence : ShapeProfile Z
  previous_published_day : Z → ShapeProfile Z
  -- the zone and the weeks, a `u8`
  weekday_mean : Z → ℕ → ShapeProfile Z

pub record ProfileValues (F : Type 0) : Type 0 where
  pub values : QuarterMap F
  pub missing : ℕ
  pub dst_gap : ℕ

-- Why a quarter has no source quarter on an earlier local day.
pub data SourceMiss : Type 0 where
  skipped : SourceMiss  -- `Gap`
  out_of_range : SourceMiss

-- The memo of `previous_published_day_at`, a map from dates.
abbrev pub CompleteDays : Type 0
CompleteDays = List (Date × Bool)

abbrev pub date_entry : Date → CompleteDays → Option Bool
date_entry date [] = none
date_entry date ((known, complete) ∷ days) =
    let rest = date_entry date days in if same_date known date then some complete else rest

abbrev pub lookup_source :
    {F : Type 0} → QuarterMap F → Result QuarterStart SourceMiss → Result (Option F) SourceMiss
lookup_source spot_prices source = and_then source (λ quarter. ok (get_quarter quarter spot_prices))

-- What the loop does with the day: it stops, or it goes on.
abbrev pub decided {ℓ} : {A : Type ℓ} → Option Bool → A → A → A → A
decided none refused found rest = refused
decided (some true) refused found rest = found
decided (some false) refused found rest = rest

abbrev pub record_value :
    {F : Type 0} → Result (Option F) SourceMiss → QuarterStart → ProfileValues F → ProfileValues F
record_value (ok (some price)) key out = record out { values = insert_quarter key price out.values }
record_value (err skipped) key out = record out {
  missing = out.missing + 1;
  dst_gap = out.dst_gap + 1;
}
record_value _ key out = record out { missing = out.missing + 1 }

-- `?`, and `let Some(price) = … else { return Ok(None) }`.
abbrev pub with_price :
    {F : Type 0}
    → Result (Option F) SourceMiss
    → (F → Result (Option F) SourceMiss)
    → Result (Option F) SourceMiss
with_price (err e) rest = err e
with_price (ok none) rest = ok none
with_price (ok (some price)) rest = rest price

module _ {F : Type 0} ⦃d : Double F⦄ where
  open d use {div}

  abbrev pub mean_price : ℕ → Option F → Option F
  mean_price weeks none = none
  mean_price weeks (some sum) = some (div sum (number weeks))

module _ {T F : Type 0} ⦃i : Instant T⦄ where
  abbrev pub has_quarters : Option T → Option T → QuarterMap F → Bool
  has_quarters (some start) (some end) prices =
      all (λ cursor. is_some (get_quarter (quarter_from_millisecond cursor) prices))
        (cursors (i.as_millisecond start) (i.as_millisecond end))
      && ltb_ℤ (i.as_millisecond start) (i.as_millisecond end)
  has_quarters _ _ prices = false

abbrev pub start_of_next : {T Z : Type 0} ⦃z : Zoned T Z⦄ → Option Date → Z → Option T
start_of_next none zone = none
start_of_next (some next) zone = start_of_local_day_utc next zone

module _ (T : Type 0) {Z : Type 0} ⦃i : Instant T⦄ ⦃c : Calendar⦄ ⦃w : Weekdays⦄ ⦃z : Zoned T Z⦄
    ⦃a : Ambiguity T Z⦄ where
  -- The instant of a civil time, by how often it stands on the clocks.
  abbrev pub source_instant : AmbiguousOffset → Z → DateTime → ℤ → Result T SourceMiss
  source_instant unambiguous zone civil offset = ok_or out_of_range (a.compatible zone civil)
  source_instant gap zone civil offset = err skipped
  source_instant (fold after) zone civil offset =
      ok_or out_of_range (if eq_ℤ after offset then a.later zone civil else a.earlier zone civil)

  abbrev pub source_on : Option Date → T → Z → Result QuarterStart SourceMiss
  source_on none at zone = err out_of_range
  source_on (some date) at zone =
      let civil : DateTime = record (z.to_datetime zone at) { date = date } in
      and_then (source_instant (a.offset zone civil) zone civil (z.to_offset zone at))
        (λ source. ok (quarter_floor source))

  unfoldable pub same_local_time_days_back : QuarterStart → Z → ℕ → Result QuarterStart SourceMiss
  same_local_time_days_back key zone days_back =
      and_then (ok_or out_of_range (quarter_timestamp key))
        (λ at. source_on (w.add_days (z.to_datetime zone at).date (pos 0 -ℤ pos days_back)) at zone)

  module _ {F : Type 0} ⦃d : Double F⦄ where
    open d use {add, div}

    unfoldable pub complete_local_day : Date → Z → QuarterMap F → Bool
    complete_local_day date zone prices =
        has_quarters {T = T} (start_of_local_day_utc date zone)
          (start_of_next (next_calendar_day date) zone) prices

    -- `entry(date).or_insert_with(…)`: the answer and the memo after it.
    abbrev pub memo_entry :
        Option Bool → Date → Z → QuarterMap F → CompleteDays → Bool × CompleteDays
    memo_entry (some complete) date zone spot_prices days = (complete, days)
    memo_entry none date zone spot_prices days =
        let complete = complete_local_day date zone spot_prices in
        (complete, (date, complete) ∷ days)

    -- Whether an earlier day is complete; `none` is a date outside the calendar.
    abbrev pub day_complete :
        Option Date → Z → QuarterMap F → CompleteDays → Option Bool × CompleteDays
    day_complete none zone spot_prices days = (none, days)
    day_complete (some date) zone spot_prices days =
        let (complete, after) = memo_entry (date_entry date days) date zone spot_prices days in
        (some complete, after)

    -- The loop of `previous_published_day_at` over `fuel` days, from `days_back`.
    abbrev pub published_from :
        ℕ
        → ℕ
        → QuarterStart
        → Z
        → QuarterMap F
        → Date
        → CompleteDays
        → Result (Option F) SourceMiss × CompleteDays
    published_from zero days_back key zone spot_prices target days = (ok none, days)
    published_from (suc fuel) days_back key zone spot_prices target days =
        let date = w.add_days target (pos 0 -ℤ pos days_back) in
        let (complete, after) = day_complete date zone spot_prices days in
        let rest = published_from fuel (days_back + 1) key zone spot_prices target after in
        let found = lookup_source spot_prices (same_local_time_days_back key zone days_back) in
        decided complete (err out_of_range, after) (found, after) rest

    abbrev pub published_at :
        Option T
        → QuarterStart
        → Z
        → QuarterMap F
        → CompleteDays
        → Result (Option F) SourceMiss × CompleteDays
    published_at none key zone spot_prices days = (err out_of_range, days)
    published_at (some at) key zone spot_prices days =
        published_from previous_published_day_lookback_days 1 key zone spot_prices
          (z.to_datetime zone at).date days

    unfoldable pub previous_published_day_at :
        QuarterStart → Z → QuarterMap F → CompleteDays → Result (Option F) SourceMiss × CompleteDays
    previous_published_day_at key zone spot_prices days =
        published_at (quarter_timestamp key) key zone spot_prices days

    -- The sum of `weeks` weeks from `week`; every week must have a price.
    abbrev pub weekday_sum :
        ℕ → ℕ → QuarterStart → Z → QuarterMap F → F → Result (Option F) SourceMiss
    weekday_sum zero week key zone spot_prices sum = ok (some sum)
    weekday_sum (suc weeks) week key zone spot_prices sum =
        with_price (lookup_source spot_prices (same_local_time_days_back key zone (7 * week)))
          (λ price. weekday_sum weeks (week + 1) key zone spot_prices (add sum price))

    unfoldable pub weekday_mean_at :
        QuarterStart → Z → ℕ → QuarterMap F → Result (Option F) SourceMiss
    weekday_mean_at key zone weeks spot_prices =
        if weeks == 0
        then ok none
        else and_then (weekday_sum weeks 1 key zone spot_prices (number 0))
            (λ sum. ok (mean_price weeks sum))

    -- One key of the loop of `profile_values`.
    abbrev pub profile_value :
        ShapeProfile Z
        → QuarterStart
        → QuarterMap F
        → CompleteDays
        → Result (Option F) SourceMiss × CompleteDays
    profile_value persistence key spot_prices days = (ok (persistence_at key spot_prices), days)
    profile_value (previous_published_day zone) key spot_prices days =
        previous_published_day_at key zone spot_prices days
    profile_value (weekday_mean zone weeks) key spot_prices days =
        (weekday_mean_at key zone weeks spot_prices, days)

    abbrev pub profile_loop :
        ShapeProfile Z
        → List QuarterStart
        → QuarterMap F
        → CompleteDays
        → ProfileValues F
        → ProfileValues F
    profile_loop profile [] spot_prices days out = out
    profile_loop profile (key ∷ keys) spot_prices days out =
        let (value, after) = profile_value profile key spot_prices days in
        profile_loop profile keys spot_prices after (record_value value key out)

    unfoldable pub profile_values :
        ShapeProfile Z → List QuarterStart → QuarterMap F → ProfileValues F
    profile_values profile keys spot_prices =
        profile_loop profile keys spot_prices [] (record { values = []; missing = 0; dst_gap = 0 })
