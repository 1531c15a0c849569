-- ===== src/Scheduler/Examples.antt =====
-- Runs of the schedules and of the price tasks.
use spot_price.Prelude.{true, false, none, some, [], ◌∷◌, ◌≡◌, refl, arith, ◌+◌, ◌*◌, ◌/◌}
use spot_price.Prelude.Int.{ℤ, pos, ◌-ℤ◌, pos_part, ltb_ℤ}
use spot_price.Jiff.{Date}
use spot_price.Jiff.Nanos.{nanos, nanos-IsInstant, gregorian}
use spot_price.Scheduler.{guarded, Schedule, finished, run_loop, burst_can_skip}
use spot_price.Scheduler.Fires.{AreFires, run_loop-AreFires}
use spot_price.Scheduler.Tasks.{
  PriceTasks, started, baseline_tick, burst_tick, burst_end, baseline_ticks, burst_ticks, Steps,
  no_step, next_step,
}
use spot_price.Scheduler.Exclusive.{IsExclusive, started-IsExclusive}
use spot_price.Scheduler.Captured.{burst_end_quiet}

-- a schedule of every ten nanoseconds from the epoch on
instance abbrev every_ten : Schedule Unit ℤ
every_ten = record { next_after = λ s now. some (pos ((pos_part now / 10 + 1) * 10)) }

-- the clock reads a little before a fire, and then before that again
test-run_loop :
    run_loop tt (pos 3 ∷ pos 9 ∷ pos 31 ∷ [])
    ≡ record { delay = 7; at = pos 10 }
      ∷ record { delay = 11; at = pos 20 }
      ∷ record { delay = 9; at = pos 40 }
      ∷ []
unfolding run_loop ◌-ℤ◌
test-run_loop = refl

next_after_lem : (a b : ℤ) → some (pos ((pos_part a / 10 + 1) * 10)) ≡ some b → ltb_ℤ a b ≡ true
next_after_lem a b h = ground (arith, h)

run_loop-AreFires_example : AreFires none (pos 3 ∷ pos 9 ∷ []) (run_loop tt (pos 3 ∷ pos 9 ∷ []))
run_loop-AreFires_example = run_loop-AreFires nanos-IsInstant tt (pos 3 ∷ pos 9 ∷ []) next_after_lem

-- every instant is on one date
abbrev a_date : ℤ → Date
a_date now = record { year = pos 2026; month = 5; day = 31 }

abbrev next_date : Date
next_date = record { year = pos 2026; month = 6; day = 1 }

test-burst_can_skip : burst_can_skip a_date (pos 0) (some next_date) ≡ true
unfolding burst_can_skip
test-burst_can_skip = refl

-- a baseline run is active, and a burst tick comes
abbrev busy : PriceTasks ℤ
busy = record { price_lock = true; captured = none; baseline = true; burst = none }

busy-Steps : Steps a_date (λ now. Unit) started busy
unfolding baseline_tick burst_tick burst_can_skip
busy-Steps =
    next_step started busy busy (baseline_ticks started refl)
      (next_step busy busy busy (burst_ticks busy (pos 1) refl tt) (no_step busy))

started-IsExclusive_example : IsExclusive busy
started-IsExclusive_example = started-IsExclusive a_date (λ now. Unit) busy busy-Steps

abbrev bursting : PriceTasks ℤ
bursting = record { price_lock = true; captured = none; baseline = false; burst = some (pos 0) }

abbrev captured : PriceTasks ℤ
captured = record { price_lock = false; captured = some next_date; baseline = false; burst = none }

captured-Steps :
    Steps a_date
      (λ tick. a_date tick ≡ a_date (pos 0))
      (burst_end a_date (pos 0) (finished true) bursting)
      captured
unfolding burst_end guarded burst_tick burst_can_skip
captured-Steps =
    next_step captured captured captured (burst_ticks captured (pos 5) refl refl) (no_step captured)

burst_end_quiet_example : captured.burst ≡ none
burst_end_quiet_example =
    burst_end_quiet a_date bursting captured (pos 0) next_date refl captured-Steps
