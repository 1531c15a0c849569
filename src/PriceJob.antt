-- ===== src/PriceJob.antt =====
-- `crates/server/src/jobs/prices.rs` and the retry loop of `crates/server/src/upstream/nordpool.rs`: the
-- fetch of the day-ahead prices. `W` is the world outside: the database and Nord Pool.
pub mod Retry
pub mod Presence
mod Examples
use spot_price.Prelude.{
  ℕ, zero, suc, ◌+◌, ◌-◌, max, Bool, true, false, ◌||◌, Option, none, some, List, [], ◌∷◌, ltb,
  if◌then◌else◌, length, Result, ok, err,
}
use spot_price.Prelude.Int.{ℤ, pos}
use spot_price.Areas.{Area, all_areas}
use spot_price.Jiff.{Date, Calendar, Instant}

abbrev pub min_entries_per_area : ℕ
min_entries_per_area = 23

-- How one request to Nord Pool ended.
pub data Attempt (P E : Type 0) : Type 0 where
  prices : List P → Attempt P E
  failed : E → Attempt P E
  drift : Attempt P E

-- The calls that leave the service: the two statements of the store, one request, the UTC date of an
-- instant, and the start of a UTC date. The error of the store for a date out of range is `invalid_row`.
pub record PriceWorld (W T P E : Type 0) : Type 0 where
  pub count_prices_by_range : W → T → T → Area → Result ℕ E
  pub store_prices : W → List P → Result ℕ E × W
  pub attempt : W → Date → List Area → Attempt P E × W
  pub utc_date : T → Date
  pub utc_start : Date → Option T
  pub invalid_row : E

pub record FetchResult : Type 0 where
  pub date : Date
  pub stored : ℕ
  pub skipped : Bool

pub record FetchJobResult : Type 0 where
  pub results : List FetchResult
  pub tomorrow_available : Bool

-- What the last attempt gives.
abbrev pub result_of : {P E : Type 0} → Attempt P E → Result (List P) E
result_of (prices found) = ok found
result_of (failed e) = err e
result_of drift = ok []

-- After an attempt that is not the last: its prices, or what the attempts after it give.
abbrev pub or_retry :
    {W P E : Type 0} → Attempt P E → W → Result (List P) E × W → Result (List P) E × W
or_retry (prices found) w retried = (ok found, w)
or_retry (failed e) w retried = retried
or_retry drift w retried = retried

-- One step of the loop over the areas: the count of an area, and the areas after it.
abbrev pub counted : {E : Type 0} → Result ℕ E → Result Bool E → Result Bool E
counted (err e) rest = err e
counted (ok n) rest = if ltb n min_entries_per_area then ok false else rest

-- An error, else the date is skipped when it is complete, and fetched when it is not.
abbrev pub unless_present :
    {W A E : Type 0} → Result Bool E → W → A → Result A E × W → Result A E × W
unless_present (err e) w skipped fetched = (err e, w)
unless_present (ok present) w skipped fetched = if present then (ok skipped, w) else fetched

module _ {W T P E : Type 0} (o : PriceWorld W T P E) where
  -- The loop of `fetch_day_ahead_prices`, with the attempts that are left after this one.
  abbrev pub fetch_from : ℕ → W → Date → List Area → Result (List P) E × W
  fetch_from zero w date areas =
      let (outcome, w') = o.attempt w date areas in (result_of outcome, w')
  fetch_from (suc left) w date areas =
      let (outcome, w') = o.attempt w date areas in
      or_retry outcome w' (fetch_from left w' date areas)

  unfoldable pub fetch_day_ahead_prices : ℕ → W → Date → List Area → Result (List P) E × W
  fetch_day_ahead_prices attempts w date areas = fetch_from (max attempts 1 - 1) w date areas

  module _ ⦃i : Instant T⦄ where
    -- `[00:00, 23:59:59.999)` of a UTC date.
    abbrev pub utc_date_range : Date → Result (T × T) E
    utc_date_range date = elim (o.utc_start date) [
      | none ↦ err o.invalid_row
      | some start ↦ elim (i.checked_add start (pos 86_399_999_000_000)) [
        | none ↦ err o.invalid_row
        | some end ↦ ok (start, end)
      ]
    ]

    -- The loop over the areas.
    abbrev pub present_in : W → T → T → List Area → Result Bool E
    present_in w start end [] = ok true
    present_in w start end (area ∷ areas) =
        counted (o.count_prices_by_range w start end area) (present_in w start end areas)

    abbrev pub range_present : W → Result (T × T) E → Result Bool E
    range_present w (err e) = err e
    range_present w (ok (start, end)) = present_in w start end all_areas

    unfoldable pub all_areas_present : W → Date → Result Bool E
    all_areas_present w date = range_present w (utc_date_range date)

    -- The store of the fetched prices.
    abbrev stored_result : Date → Result (List P) E × W → Result FetchResult E × W
    stored_result date (err e, w) = (err e, w)
    stored_result date (ok [], w) = (ok (record { date = date; stored = 0; skipped = false }), w)
    stored_result date (ok (p ∷ ps), w) =
        let (outcome, w') = o.store_prices w (p ∷ ps) in
        elim outcome [
          | err e ↦ (err e, w')
          | ok n ↦ (ok (record { date = date; stored = n; skipped = false }), w')
        ]

    unfoldable pub fetch_for_date : ℕ → W → Date → Result FetchResult E × W
    unfolding all_areas_present fetch_day_ahead_prices
    fetch_for_date attempts w date =
        let skipped : FetchResult = record { date = date; stored = 0; skipped = true } in
        let fetched = stored_result date (fetch_day_ahead_prices attempts w date all_areas) in
        unless_present (all_areas_present w date) w skipped fetched

    -- What the run adds for tomorrow.
    abbrev with_tomorrow : FetchResult → Result FetchResult E → FetchJobResult
    with_tomorrow today (err e) = record { results = today ∷ []; tomorrow_available = false }
    with_tomorrow today (ok tomorrow) = record {
      results = today ∷ tomorrow ∷ [];
      tomorrow_available = tomorrow.skipped || ltb 0 tomorrow.stored;
    }

    -- The second fetch of a run, after the first.
    abbrev pub then_tomorrow : ℕ → Date → Result FetchResult E × W → Result FetchJobResult E × W
    then_tomorrow attempts tomorrow (err e, w) = (err e, w)
    then_tomorrow attempts tomorrow (ok today, w) =
        let (second, w') = fetch_for_date attempts w tomorrow in
        (ok (with_tomorrow today second), w')

    abbrev pub run_dates : ℕ → W → Date → Option Date → Result FetchJobResult E × W
    run_dates attempts w today none = (err o.invalid_row, w)
    run_dates attempts w today (some tomorrow) =
        then_tomorrow attempts tomorrow (fetch_for_date attempts w today)

    unfoldable pub run_fetch_job : ⦃c : Calendar⦄ → ℕ → W → T → Result FetchJobResult E × W
    unfolding fetch_for_date
    run_fetch_job ⦃c⦄ attempts w now =
        let today = o.utc_date now in run_dates attempts w today (c.tomorrow today)
