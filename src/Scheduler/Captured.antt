-- ===== src/Scheduler/Captured.antt =====
-- The burst task after it has captured tomorrow's prices.
use spot_price.Prelude.{
  true, none, some, if◌then◌else◌, ◌≡◌, refl, sym, ap, ◌∙◌, subst, arith, inl, inr, Bool-cases,
}
use spot_price.Jiff.{Date, Calendar, same_date_refl}
use spot_price.Scheduler.{finished, guarded, is_captured, burst_can_skip}
use spot_price.Scheduler.Tasks.{
  PriceTasks, baseline_tick, baseline_end, capture, burst_tick, burst_end, Step, baseline_ticks,
  baseline_ends, burst_ticks, burst_ends, Steps, no_step, next_step,
}

module _ {T : Type 0} ⦃c : Calendar⦄ (utc_date : T → Date) where
  -- No burst run is active, and the date is captured.
  abbrev IsQuiet : Date → PriceTasks T → Type 0
  IsQuiet tomorrow s = (s.burst ≡ none) × (s.captured ≡ some tomorrow)

  baseline_tick-IsQuiet :
      (tomorrow : Date) (s : PriceTasks T) → IsQuiet tomorrow s → IsQuiet tomorrow (baseline_tick s)
  unfolding baseline_tick
  baseline_tick-IsQuiet tomorrow s (u, k) = elim (Bool-cases s.price_lock) [
    | inl e ↦
        subst
          (λ b. IsQuiet tomorrow (if b then s else record s { price_lock = true; baseline = true }))
          (sym e) (u, k)
    | inr e ↦
        subst
          (λ b. IsQuiet tomorrow (if b then s else record s { price_lock = true; baseline = true }))
          (sym e) (u, k)
  ]

  burst_tick-IsQuiet :
      (tomorrow : Date) (s : PriceTasks T) (now : T)
      → c.tomorrow (utc_date now) ≡ some tomorrow
      → IsQuiet tomorrow s
      → IsQuiet tomorrow (burst_tick utc_date now s)
  unfolding burst_tick burst_can_skip
  burst_tick-IsQuiet tomorrow s now e (u, k) =
      let skips : is_captured s.captured (c.tomorrow (utc_date now)) ≡ true =
        ap (λ o. is_captured o (c.tomorrow (utc_date now))) k
        ∙ ap (is_captured (some tomorrow)) e
        ∙ same_date_refl tomorrow in
      subst
        (λ b. IsQuiet tomorrow (
          if b
          then s
          else if s.price_lock
          then s
          else record s { price_lock = true; burst = some now }))
        (sym skips) (u, k)

  module _ (P : T → Type 0) where
    Step-IsQuiet :
        (tomorrow : Date) (s t : PriceTasks T)
        → ((now : T) → P now → c.tomorrow (utc_date now) ≡ some tomorrow)
        → Step utc_date P s t
        → IsQuiet tomorrow s
        → IsQuiet tomorrow t
    unfolding baseline_end
    Step-IsQuiet tomorrow s t p (baseline_ticks _ e) h = baseline_tick-IsQuiet tomorrow s h
    Step-IsQuiet tomorrow s t p (baseline_ends _ e) h = h
    Step-IsQuiet tomorrow s t p (burst_ticks _ now e q) h =
        burst_tick-IsQuiet tomorrow s now (p now q) h
    Step-IsQuiet tomorrow s t p (burst_ends _ now outcome e) (u, k) = ground (arith, e, u)

    Steps-IsQuiet :
        (tomorrow : Date) (s t : PriceTasks T)
        → ((now : T) → P now → c.tomorrow (utc_date now) ≡ some tomorrow)
        → Steps utc_date P s t
        → IsQuiet tomorrow s
        → IsQuiet tomorrow t
    Steps-IsQuiet tomorrow s t p (no_step _) h = h
    Steps-IsQuiet tomorrow s t p (next_step _ u _ step rest) h =
        Steps-IsQuiet tomorrow u t p rest (Step-IsQuiet tomorrow s u p step h)

  -- Behind a burst run that has stored tomorrow's prices, no burst run is active as long as the burst
  -- ticks are on the UTC date of the tick that the run belongs to, whatever the baseline task does.
  pub burst_end_quiet :
      (s t : PriceTasks T) (now : T) (tomorrow : Date)
      → c.tomorrow (utc_date now) ≡ some tomorrow
      → Steps utc_date
          (λ tick. utc_date tick ≡ utc_date now)
          (burst_end utc_date now (finished true) s)
          t
      → t.burst ≡ none
  unfolding burst_end guarded
  burst_end_quiet s t now tomorrow e steps =
      let captured : (capture (c.tomorrow (utc_date now)) s).captured ≡ some tomorrow =
        ap (λ o. (capture o s).captured) e in
      (Steps-IsQuiet (λ tick. utc_date tick ≡ utc_date now) tomorrow _ t
        (λ tick q. ap c.tomorrow q ∙ e) steps (refl, captured)).0
