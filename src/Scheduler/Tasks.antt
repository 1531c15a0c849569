-- ===== src/Scheduler/Tasks.antt =====
-- The two price tasks of `start`: their shared lock and the date that the burst task has captured.
-- Each task awaits its run, so it has at most one.
use spot_price.Prelude.{Bool, true, false, Option, none, some, if◌then◌else◌, ◌≡◌}
use spot_price.Jiff.{Date, Calendar}
use spot_price.Scheduler.{Outcome, guarded, burst_can_skip}

pub record PriceTasks (T : Type 0) : Type 0 where
  -- the `try_lock` of the two tasks
  pub price_lock : Bool
  pub captured : Option Date
  -- a run of the baseline task, and the instant of the tick that a burst run belongs to
  pub baseline : Bool
  pub burst : Option T

abbrev pub started : {T : Type 0} → PriceTasks T
started = record { price_lock = false; captured = none; baseline = false; burst = none }

module _ {T : Type 0} where
  -- A baseline tick, and the end of its run, however it ends.
  unfoldable pub baseline_tick : PriceTasks T → PriceTasks T
  baseline_tick s = if s.price_lock then s else record s { price_lock = true; baseline = true }

  unfoldable pub baseline_end : PriceTasks T → PriceTasks T
  baseline_end s = record s { price_lock = false; baseline = false }

  abbrev pub capture : Option Date → PriceTasks T → PriceTasks T
  capture none s = s
  capture (some tomorrow) s = record s { captured = some tomorrow }

  abbrev pub capture_if : Option Bool → Option Date → PriceTasks T → PriceTasks T
  capture_if (some true) tomorrow s = capture tomorrow s
  capture_if _ tomorrow s = s

module _ {T : Type 0} ⦃c : Calendar⦄ (utc_date : T → Date) where
  -- A burst tick at `now`, and the end of its run.
  unfoldable pub burst_tick : T → PriceTasks T → PriceTasks T
  unfolding burst_can_skip
  burst_tick now s =
      if burst_can_skip utc_date now s.captured
      then s
      else if s.price_lock
      then s
      else record s { price_lock = true; burst = some now }

  unfoldable pub burst_end : T → Outcome Bool → PriceTasks T → PriceTasks T
  unfolding guarded
  burst_end now outcome s =
      let after = capture_if (guarded outcome) (c.tomorrow (utc_date now)) s in
      record after { price_lock = false; burst = none }

  -- A step of either task. The burst ticks are at instants of `P`.
  pub data Step (P : T → Type 0) : PriceTasks T → PriceTasks T → Type 0 where
    baseline_ticks : (s : PriceTasks T) → s.baseline ≡ false → Step P s (baseline_tick s)
    baseline_ends : (s : PriceTasks T) → s.baseline ≡ true → Step P s (baseline_end s)
    burst_ticks :
        (s : PriceTasks T) (now : T) → s.burst ≡ none → P now → Step P s (burst_tick now s)
    burst_ends :
        (s : PriceTasks T) (now : T) (outcome : Outcome Bool)
        → s.burst ≡ some now
        → Step P s (burst_end now outcome s)

  -- The steps from one state to another.
  pub data Steps (P : T → Type 0) : PriceTasks T → PriceTasks T → Type 0 where
    no_step : (s : PriceTasks T) → Steps P s s
    next_step : (s t u : PriceTasks T) → Step P s t → Steps P t u → Steps P s u
