-- ===== src/Time.antt =====
-- `crates/domain/src/time.rs`: local calendar days, ranges of instants and their coverage.
mod Coverage
pub mod Truncation
mod Examples
use spot_price.Prelude.{
  ℕ, zero, suc, ◌/◌, ◌%◌, ◌++◌, ◌==◌, String, Bool, true, false, Option, none, some, List, [], ◌∷◌,
  map, find, str_eq, if◌then◌else◌, unwrap_or, ◌&&◌, ◌||◌,
}
use spot_price.Prelude.Int.{ℤ, pos, ◌-ℤ◌, ltb_ℤ, unsigned_abs}
use spot_price.Prelude.Text.{Text, decimal_ℤ, padded}
use spot_price.Areas.{Area, all_areas, timezone}
use spot_price.Jiff.{Instant, Date, DateTime, Calendar, ZoneDatabase, Zoned}

-- `YYYY-MM-DD`; the year has no zero padding.
unfoldable pub format_date : Date → Text
unfolding decimal_ℤ padded
format_date date = decimal_ℤ date.year ++ (b'-' ∷ (padded date.month ++ (b'-' ∷ padded date.day)))

-- `±HH:MM`, or `±HH:MM:SS` when the offset has seconds.
unfoldable pub format_offset : ℤ → Text
unfolding padded
format_offset offset =
    let sign = if ltb_ℤ offset (pos 0) then b'-' else b'+' in
    let total = unsigned_abs offset in
    let hours = padded (total / 3600) in
    let minutes = padded (total / 60 % 60) in
    if total % 60 == 0
    then sign ∷ (hours ++ (b':' ∷ minutes))
    else sign ∷ (hours ++ (b':' ∷ (minutes ++ (b':' ∷ padded (total % 60)))))

infixl 5 ◌>>=◌
abbrev pub ◌>>=◌ {ℓ κ} : {A : Type ℓ} {B : Type κ} → Option A → (A → Option B) → Option B
none >>= f = none
some a >>= f = f a

-- A time zone that the setup UI offers.
pub record UserTimeZone (Z : Type 0) : Type 0 where
  pub name : String
  pub zone : Z

-- A half-open range of instants.
pub record UtcRange (T : Type 0) : Type 0 where
  pub start : T
  pub end : T

pub record CurrentAndNextDate : Type 0 where
  pub today : Date
  pub tomorrow : Date

module _ {Z : Type 0} ⦃z : ZoneDatabase Z⦄ where
  -- `UserTimeZone::parse`; `none` is `UnsupportedTimeZone`.
  unfoldable pub parse_zone : String → Option (UserTimeZone Z)
  parse_zone text = do
    name ← find (λ name. str_eq name text) (map timezone all_areas)
    zone ← z.get name
    some (record { name = name; zone = zone })

  unfoldable pub for_area : Area → Option (UserTimeZone Z)
  unfolding parse_zone
  for_area area = parse_zone (timezone area)

-- `none` is `OutOfRange` from here on.
unfoldable pub next_calendar_day : ⦃c : Calendar⦄ → Date → Option Date
next_calendar_day ⦃c⦄ date = c.tomorrow date

module _ {T Z : Type 0} ⦃z : Zoned T Z⦄ where
  unfoldable pub local_date : T → Z → Date
  local_date instant zone = (z.to_datetime zone instant).date

  unfoldable pub local_hour : T → Z → ℕ
  local_hour instant zone = (z.to_datetime zone instant).hour

  unfoldable pub start_of_local_day_utc : Date → Z → Option T
  start_of_local_day_utc date zone = z.start_of_day date zone

  unfoldable pub format_date_in_time_zone : T → Z → Text
  unfolding format_date local_date
  format_date_in_time_zone instant zone = format_date (local_date instant zone)

  -- `YYYY-MM-DDTHH:MM:SS±HH:MM`.
  unfoldable pub format_date_time_in_time_zone : T → Z → Text
  unfolding format_date format_offset padded
  format_date_time_in_time_zone instant zone =
      let local = z.to_datetime zone instant in
      let clock =
        padded local.hour ++ (b':' ∷ (padded local.minute ++ (b':' ∷ padded local.second))) in
      format_date local.date ++ (b'T' ∷ (clock ++ format_offset (z.to_offset zone instant)))

  module _ ⦃c : Calendar⦄ where
    unfoldable pub current_and_next_date : T → Z → Option CurrentAndNextDate
    unfolding local_date next_calendar_day
    current_and_next_date now zone = do
      let today = local_date now zone
      tomorrow ← next_calendar_day today
      some (record { today = today; tomorrow = tomorrow })

    unfoldable pub utc_range_for_local_date_span : Date → Date → Z → Option (UtcRange T)
    unfolding start_of_local_day_utc next_calendar_day
    utc_range_for_local_date_span from to zone = do
      start ← start_of_local_day_utc from zone
      after ← next_calendar_day to
      end ← start_of_local_day_utc after zone
      some (record { start = start; end = end })

    unfoldable pub utc_range_for_local_date : Date → Z → Option (UtcRange T)
    unfolding utc_range_for_local_date_span
    utc_range_for_local_date date zone = utc_range_for_local_date_span date date zone

module _ {T : Type 0} ⦃i : Instant T⦄ where
  open i use {as_millisecond, from_millisecond, le, lt, eq}

  -- `sort_unstable` on pairs of instants: by the start, and by the end where the starts are equal.
  abbrev le_period : T × T → T × T → Bool
  le_period (s, e) (s', e') = lt s s' || (eq s s' && le e e')

  insert_period : T × T → List (T × T) → List (T × T)
  insert_period p [] = p ∷ []
  insert_period p (q ∷ qs) = if le_period p q then p ∷ q ∷ qs else q ∷ insert_period p qs

  sort_periods : List (T × T) → List (T × T)
  unfolding insert_period
  sort_periods [] = []
  sort_periods (p ∷ ps) = insert_period p (sort_periods ps)

  -- `Ord::max`: the second where both are equal.
  abbrev later : T → T → T
  later a b = if le a b then b else a

  -- The loop over the sorted periods, and the test behind it.
  sweep : T → T → List (T × T) → Bool
  sweep end covered_to [] = le end covered_to
  sweep end covered_to ((s, e) ∷ periods) =
      let rest = sweep end (later covered_to e) periods in
      if le end covered_to then true else if lt covered_to s then false else rest

  unfoldable pub covers_range : List (T × T) → UtcRange T → Bool
  unfolding sort_periods sweep
  covers_range periods range = sweep range.end range.start (sort_periods periods)

  -- An instant without its part below one millisecond, toward the past.
  unfoldable pub truncate_to_millisecond : T → T
  truncate_to_millisecond instant =
      let ms = as_millisecond instant in
      let earlier = unwrap_or (from_millisecond (ms -ℤ pos 1)) instant in
      elim (from_millisecond ms) [
        | none ↦ earlier
        | some truncated ↦ if le truncated instant then truncated else earlier
      ]
