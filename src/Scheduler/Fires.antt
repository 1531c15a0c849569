-- ===== src/Scheduler/Fires.antt =====
-- The times at which a schedule fires.
use spot_price.Prelude.{true, Option, none, some, List, [], ◌∷◌, ◌≡◌, arith, inl, inr, Option-cases}
use spot_price.Prelude.Int.{
  ℤ, pos, ◌+ℤ◌, ◌-ℤ◌, ◌<ℤ◌, pos_part, neg_part, +ℤ_parts, -ℤ_parts, eq_of_parts,
}
use spot_price.Jiff.{Instant, IsInstant}
use spot_price.Scheduler.{Schedule, Fire, after_last, fires, run_loop}

minus_pos : (a b : ℤ) → b <ℤ a → neg_part (a -ℤ b) ≡ 0
unfolding ◌-ℤ◌
minus_pos a b h = ground arith

module _ {T : Type 0} ⦃i : Instant T⦄ where
  open i use {as_nanosecond, lt}

  abbrev pub IsBehind : Option T → T → Type 0
  IsBehind none at = Unit
  IsBehind (some last) at = lt last at ≡ true

  -- Each fire is behind the one before it and behind its reading of the clock, and the loop sleeps
  -- from that reading until the fire.
  abbrev pub AreFires : Option T → List T → List (Fire T) → Type 0
  AreFires last nows [] = Unit
  AreFires last [] (fire ∷ rest) = ⊥
  AreFires last (now ∷ nows) (fire ∷ rest) =
      IsBehind last fire.at
      × (lt now fire.at ≡ true)
      × (as_nanosecond fire.at ≡ as_nanosecond now +ℤ pos fire.delay)
      × AreFires (some fire.at) nows rest

module _ {T : Type 0} ⦃i : Instant T⦄ (l : IsInstant T) where
  open i use {as_nanosecond, lt}

  after_last-IsBehind :
      (last : Option T) (now next : T)
      → lt (after_last last now) next ≡ true
      → IsBehind last next × (lt now next ≡ true)
  after_last-IsBehind none now next h = (tt, h)
  after_last-IsBehind (some fire) now next h =
      ground (arith, h, l.lt-eq now fire, l.lt-eq fire next, l.lt-eq now next)

  slept :
      (now next : T)
      → lt now next ≡ true
      → as_nanosecond next
        ≡ as_nanosecond now +ℤ pos (pos_part (as_nanosecond next -ℤ as_nanosecond now))
  slept now next h =
      let later : as_nanosecond now <ℤ as_nanosecond next = ground (arith, h, l.lt-eq now next) in
      let gap = as_nanosecond next -ℤ as_nanosecond now in
      eq_of_parts _ _ (
        omega (
          arith,
          later,
          minus_pos (as_nanosecond next) (as_nanosecond now) later,
          -ℤ_parts (as_nanosecond next) (as_nanosecond now),
          +ℤ_parts (as_nanosecond now) (pos (pos_part gap)),
        ))

module _ {T S : Type 0} ⦃i : Instant T⦄ ⦃c : Schedule S T⦄ (l : IsInstant T) where
  open i use {lt}

  -- A schedule time is behind the instant that it is searched from.
  abbrev pub IsSchedule : S → Type 0
  IsSchedule schedule = (a b : T) → c.next_after schedule a ≡ some b → lt a b ≡ true

  fires-AreFires :
      (schedule : S) (last : Option T) (nows : List T)
      → IsSchedule schedule
      → AreFires last nows (fires schedule last nows)
  fires-AreFires schedule last [] h = tt
  fires-AreFires schedule last (now ∷ nows) h =
      elim (Option-cases (c.next_after schedule (after_last last now))) [
        | inl e ↦ rw e tt
        | inr (next, e) ↦
            let (behind, later) =
              after_last-IsBehind l last now next (h (after_last last now) next e) in
            rw e (behind, later, slept l now next later, fires-AreFires schedule (some next) nows h)
      ]

  -- A schedule never fires twice at one time, whatever the clock reads: each fire is behind the one
  -- before it and behind the reading that it waits from, and the wait is what lies between. A next
  -- time is behind the instant that it is searched from.
  pub run_loop-AreFires :
      (schedule : S) (nows : List T)
      → IsSchedule schedule
      → AreFires none nows (run_loop schedule nows)
  unfolding run_loop
  run_loop-AreFires schedule nows h = fires-AreFires schedule none nows h
