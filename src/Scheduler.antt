-- ===== src/Scheduler.antt =====
-- `crates/server/src/jobs/scheduler.rs`: the schedules, and the two price tasks with their lock.
pub mod Fires
pub mod Tasks
pub mod Exclusive
pub mod Captured
mod Examples
use spot_price.Prelude.{Bool, true, false, Option, none, some, if◌then◌else◌}
use spot_price.Prelude.Int.{pos, negsuc, ℤ, ◌-ℤ◌, pos_part}
use spot_price.Prelude.{ℕ, List, [], ◌∷◌}
use spot_price.Jiff.{Instant, Date, Calendar, same_date}

abbrev pub price_deadline_ms : ℕ
price_deadline_ms = 300_000

abbrev pub hourly_deadline_ms : ℕ
hourly_deadline_ms = 120_000

-- A schedule of the `croner` crate in its zone: the first schedule time after an instant.
pub record Schedule (S T : Type 0) : Type 0 where
  pub next_after : S → T → Option T

-- How a run ended.
pub data Outcome (A : Type 0) : Type 0 where
  finished : A → Outcome A
  deadline : Outcome A
  panicked : Outcome A

-- `guarded`.
unfoldable pub guarded : {A : Type 0} → Outcome A → Option A
guarded (finished value) = some value
guarded deadline = none
guarded panicked = none

-- One turn of the loop of `run_schedule`: how long it sleeps, in nanoseconds, and the time it fires.
pub record Fire (T : Type 0) : Type 0 where
  pub delay : ℕ
  pub at : T

-- Whether tomorrow is captured.
abbrev pub is_captured : Option Date → Option Date → Bool
is_captured (some captured) (some tomorrow) = same_date captured tomorrow
is_captured _ _ = false

module _ {T : Type 0} ⦃i : Instant T⦄ where
  -- `last_fire.map_or(now, |fire| fire.max(now))`; of equal instants `max` gives the second.
  abbrev pub after_last : Option T → T → T
  after_last none now = now
  after_last (some fire) now = if i.lt now fire then fire else now

  abbrev pub fired : Option T → T → List (Fire T) → List (Fire T)
  fired none now rest = []
  fired (some next) now rest =
      record { delay = pos_part (i.as_nanosecond next -ℤ i.as_nanosecond now); at = next } ∷ rest

  module _ {S : Type 0} ⦃c : Schedule S T⦄ where
    -- The fires of the loop, by the readings of the clock at its turns; it stops when there is no
    -- next time, and with the last reading it is shut down.
    abbrev pub fires : S → Option T → List T → List (Fire T)
    fires schedule last [] = []
    fires schedule last (now ∷ nows) =
        let next = c.next_after schedule (after_last last now) in
        fired next now (fires schedule next nows)

    unfoldable pub run_loop : S → List T → List (Fire T)
    run_loop schedule nows = fires schedule none nows

-- `burst_can_skip`, with the UTC date of an instant.
unfoldable pub burst_can_skip : {T : Type 0} ⦃c : Calendar⦄ → (T → Date) → T → Option Date → Bool
burst_can_skip ⦃c⦄ utc_date now last_captured =
    is_captured last_captured (c.tomorrow (utc_date now))
