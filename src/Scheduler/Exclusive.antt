-- ===== src/Scheduler/Exclusive.antt =====
-- What every run of the two price tasks keeps.
use spot_price.Prelude.{
  Bool, true, false, Option, none, some, if◌then◌else◌, ◌≡◌, ◌⊎◌, refl, sym, ap, ◌∙◌, subst, arith,
  inl, inr, Bool-cases,
}
use spot_price.Jiff.{Date, Calendar}
use spot_price.Scheduler.{Outcome, guarded, burst_can_skip}
use spot_price.Scheduler.Tasks.{
  PriceTasks, started, baseline_tick, baseline_end, capture_if, burst_tick, burst_end, Step,
  baseline_ticks, baseline_ends, burst_ticks, burst_ends, Steps, no_step, next_step,
}

module _ {T : Type 0} where
  -- A run is active exactly when the lock is held, and only one is.
  abbrev pub IsExclusive : PriceTasks T → Type 0
  IsExclusive s =
      ((s.price_lock ≡ false) × (s.baseline ≡ false) × (s.burst ≡ none))
      ⊎ ((s.price_lock ≡ true) × (s.baseline ≡ true) × (s.burst ≡ none))
      ⊎ ((s.price_lock ≡ true) × (s.baseline ≡ false) × ((now : T) × (s.burst ≡ some now)))

  baseline_tick-IsExclusive : (s : PriceTasks T) → IsExclusive s → IsExclusive (baseline_tick s)
  unfolding baseline_tick
  baseline_tick-IsExclusive s (inl (l, b, u)) = rw l (inr (inl (refl, refl, u)))
  baseline_tick-IsExclusive s (inr (inl (l, b, u))) = rw l (inr (inl (refl, b, u)))
  baseline_tick-IsExclusive s (inr (inr (l, b, u))) = rw l (inr (inr (refl, b, u)))

  baseline_end-IsExclusive :
      (s : PriceTasks T) → s.baseline ≡ true → IsExclusive s → IsExclusive (baseline_end s)
  unfolding baseline_end
  baseline_end-IsExclusive s e (inl (l, b, u)) = ground (arith, e, b)
  baseline_end-IsExclusive s e (inr (inl (l, b, u))) = inl (refl, refl, u)
  baseline_end-IsExclusive s e (inr (inr (l, b, u))) = ground (arith, e, b)

  -- The captured date alone changes.
  capture_if-rest :
      (o : Option Bool) (tomorrow : Option Date) (s : PriceTasks T)
      → (capture_if o tomorrow s).baseline ≡ s.baseline
  capture_if-rest none tomorrow s = refl
  capture_if-rest (some false) tomorrow s = refl
  capture_if-rest (some true) none s = refl
  capture_if-rest (some true) (some date) s = refl

module _ {T : Type 0} ⦃c : Calendar⦄ (utc_date : T → Date) where
  burst_tick-IsExclusive :
      (s : PriceTasks T) (now : T) → IsExclusive s → IsExclusive (burst_tick utc_date now s)
  unfolding burst_tick
  burst_tick-IsExclusive s now h = elim (Bool-cases (burst_can_skip utc_date now s.captured)) [
    | inl e ↦
        subst IsExclusive
          (sym (
            ap
              (λ b.
                if b
                then s
                else if s.price_lock
                then s
                else record s { price_lock = true; burst = some now })
              e))
          h
    | inr e ↦
        subst IsExclusive
          (sym (
            ap
              (λ b.
                if b
                then s
                else if s.price_lock
                then s
                else record s { price_lock = true; burst = some now })
              e))
          (locked h)
  ]
    where
      locked :
          IsExclusive s
          → IsExclusive
              (if s.price_lock then s else record s { price_lock = true; burst = some now })
      locked (inl (l, b, u)) = rw l (inr (inr (refl, b, (now, refl))))
      locked (inr (inl (l, b, u))) = rw l (inr (inl (refl, b, u)))
      locked (inr (inr (l, b, u))) = rw l (inr (inr (refl, b, u)))

  burst_end-IsExclusive :
      (s : PriceTasks T) (now : T) (outcome : Outcome Bool)
      → s.burst ≡ some now
      → IsExclusive s
      → IsExclusive (burst_end utc_date now outcome s)
  unfolding burst_end
  burst_end-IsExclusive s now outcome e (inl (l, b, u)) = ground (arith, e, u)
  burst_end-IsExclusive s now outcome e (inr (inl (l, b, u))) = ground (arith, e, u)
  burst_end-IsExclusive s now outcome e (inr (inr (l, b, u))) =
      inl (refl, capture_if-rest (guarded outcome) (c.tomorrow (utc_date now)) s ∙ b, refl)

  module _ (P : T → Type 0) where
    Step-IsExclusive : (s t : PriceTasks T) → Step utc_date P s t → IsExclusive s → IsExclusive t
    Step-IsExclusive s t (baseline_ticks _ e) h = baseline_tick-IsExclusive s h
    Step-IsExclusive s t (baseline_ends _ e) h = baseline_end-IsExclusive s e h
    Step-IsExclusive s t (burst_ticks _ now e p) h = burst_tick-IsExclusive s now h
    Step-IsExclusive s t (burst_ends _ now outcome e) h = burst_end-IsExclusive s now outcome e h

    Steps-IsExclusive : (s t : PriceTasks T) → Steps utc_date P s t → IsExclusive s → IsExclusive t
    Steps-IsExclusive s t (no_step _) h = h
    Steps-IsExclusive s t (next_step _ u _ step rest) h =
        Steps-IsExclusive u t rest (Step-IsExclusive s u step h)

    -- In every state that the price tasks come to, the lock is held exactly when a run is active,
    -- and the two tasks never run at once.
    pub started-IsExclusive : (s : PriceTasks T) → Steps utc_date P started s → IsExclusive s
    started-IsExclusive s steps = Steps-IsExclusive started s steps (inl (refl, refl, refl))
