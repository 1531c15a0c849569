-- ===== src/Session/Runs.antt =====
-- The steps and the runs of the table against those of the plain map.
use spot_price.Prelude.{
  Bool, true, false, not, ◌&&◌, ◌||◌, Option, none, some, List, [], ◌∷◌, any, find, filter, ok, ◌≡◌,
  refl, ap, ◌∙◌, arith, inl, inr, Bool-cases, Option-cases,
}
use spot_price.Prelude.Int.{pos}
use spot_price.Prelude.Text.{Text}
use spot_price.Jiff.{Instant, IsInstant}
use spot_price.Session.{
  Row, UserRow, SessionRow, user_of, has_hash, is_unexpired, is_absent, joined_row, create_session,
  find_session, extend_session, delete_session,
}
use spot_price.Session.Handlers.{
  session_lifetime, renewal, start_until, start_session, renewed_until, renewed_row,
  current_session, end_session,
}
use spot_price.Session.Rows.{lookup, IsKeyed, kept, lookup-filter, find-kept}
use spot_price.Session.Steps.{
  Event, sign_in, request, sign_out, Answer, signed_in, active, Sessions, step, live, is_taken,
  opened, moved, used, plain_step, run_events, plain_run_events,
}
use spot_price.Session.Refinement.{
  Refines, le_refl, Refines-later, Refines-set, Refines-drop, kept-some, Refines-move,
}

module _ {T : Type 0} ⦃i : Instant T⦄ where
  -- The times of the events ascend from `now`.
  abbrev pub IsOrderly : T → List (T × Event) → Type 0
  IsOrderly now [] = Unit
  IsOrderly now ((at, event) ∷ events) = (i.le now at ≡ true) × IsOrderly at events

module _ {T : Type 0} where
  any-find : (p : Row T → Bool) (rows : List (Row T)) → any p rows ≡ is_taken (find p rows)
  any-find p [] = refl
  any-find p (row ∷ rows) = ground (arith, any-find p rows)

  not_taken : (o : Option (Row T)) → is_taken o ≡ false → o ≡ none
  not_taken none h = refl
  not_taken (some row) h = ground (arith, h)

module _ {T : Type 0} ⦃i : Instant T⦄ (l : IsInstant T) (users : List (UserRow T)) where
  open i use {le, checked_add}

  -- An answer of the table is that of the map, and the table after it shows the map after it.
  abbrev IsStep :
      {A : Type 0} → (A → Answer T) → T → A × List (Row T) → Answer T × Sessions T → Type 0
  IsStep f now (answer, rows) (plain, sessions) = (f answer ≡ plain) × Refines now rows sessions

  start_until-IsStep :
      (o : Option T) (reached : Bool) (hash user_id : Text) (now : T) (rows : List (Row T))
      (sessions : Sessions T)
      → Refines now rows sessions
      → IsStep signed_in now
          (start_until o reached users hash user_id now rows)
          (opened users o reached hash user_id now sessions)
  unfolding create_session
  start_until-IsStep none reached hash user_id now rows sessions h = (refl, h)
  start_until-IsStep (some e) reached hash user_id now rows sessions (keyed, same) =
      let row : Row T = record {
        token_hash = hash;
        user_id = user_id;
        created_at = now;
        expires_at = e;
      } in
      let rest = filter (is_unexpired now) rows in
      let shown =
        lookup-filter (is_unexpired now) hash rows keyed ∙ same now hash (le_refl l now) in
      let taken = any-find (has_hash hash) rest ∙ ap is_taken shown in
      let refused =
        not reached
        || (is_taken (live now hash sessions) || is_absent (user_of user_id users) || le e now) in
      rw taken (elim (Bool-cases refused) [
        | inl p ↦ rw p (refl, (keyed, same))
        | inr p ↦
            let free : is_taken (live now hash sessions) ≡ false = ground (arith, p) in
            rw p
              (refl, Refines-set l now row rows sessions (shown ∙ not_taken _ free) (keyed, same))
      ])

  any-extend :
      (hash : Text) (p : Row T → Bool) (rows : List (Row T)) (row : Row T)
      → IsKeyed rows
      → lookup hash rows ≡ some row
      → any (λ r. has_hash hash r && p r) rows ≡ p row
  any-extend hash p rows row keyed e =
      any-find (λ r. has_hash hash r && p r) rows
      ∙ ap is_taken (find-kept p hash rows keyed ∙ ap (kept p) e)
      ∙ ground arith

  renewed_until-IsStep :
      (o : Option T) (reached : Bool) (hash : Text) (now : T) (row : Row T) (found : SessionRow T)
      (rows : List (Row T)) (sessions : Sessions T)
      → live now hash sessions ≡ some row
      → Refines now rows sessions
      → IsStep active now
          (renewed_until o reached hash found rows)
          (moved o reached hash row found sessions)
  unfolding extend_session
  renewed_until-IsStep none reached hash now row found rows sessions e h = (refl, h)
  renewed_until-IsStep (some t) reached hash now row found rows sessions e (keyed, same) =
      let table = kept-some l now (lookup hash rows) row (same now hash (le_refl l now) ∙ e) in
      let broken = any-extend hash (λ r. le t r.created_at) rows row keyed table in
      rw broken (elim (Bool-cases (not reached || le t row.created_at)) [
        | inl p ↦ rw p (refl, (keyed, same))
        | inr p ↦ rw p (refl, Refines-move l now hash t rows sessions row e (keyed, same))
      ])

  renewed_row-IsStep :
      (o : Option (Row T)) (reached : Bool) (hash : Text) (now : T) (rows : List (Row T))
      (sessions : Sessions T)
      → live now hash sessions ≡ o
      → Refines now rows sessions
      → IsStep active now
          (renewed_row (ok (joined_row users o)) reached hash now rows)
          (used reached hash now o (joined_row users o) sessions)
  renewed_row-IsStep none reached hash now rows sessions e h = (refl, h)
  renewed_row-IsStep (some row) reached hash now rows sessions e h =
      elim (Option-cases (user_of row.user_id users)) [
        | inl u ↦ rw u (refl, h)
        | inr (user, u) ↦
            let found : SessionRow T = record {
              user = user;
              created_at = row.created_at;
              expires_at = row.expires_at;
            } in
            rw u (
              renewed_until-IsStep (renewal row.expires_at now) reached hash now row found rows
                sessions e h)
      ]

  step-IsStep :
      (now : T) (event : Event) (rows : List (Row T)) (sessions : Sessions T)
      → Refines now rows sessions
      → ((step users now event rows).0 ≡ (plain_step users now event sessions).0)
        × Refines now (step users now event rows).1 (plain_step users now event sessions).1
  unfolding start_session current_session end_session find_session delete_session
  step-IsStep now (sign_in reached hash user_id) rows sessions h =
      start_until-IsStep (checked_add now (pos session_lifetime)) reached hash user_id now rows
        sessions h
  step-IsStep now (request (true, extended) hash) rows sessions (keyed, same) =
      let shown = find-kept (is_unexpired now) hash rows keyed ∙ same now hash (le_refl l now) in
      rw shown (
        renewed_row-IsStep (live now hash sessions) extended hash now rows sessions refl
          (keyed, same))
  step-IsStep now (request (false, extended) hash) rows sessions h = (refl, h)
  step-IsStep now (sign_out true hash) rows sessions h =
      (refl, Refines-drop l now hash rows sessions h)
  step-IsStep now (sign_out false hash) rows sessions h = (refl, h)

  run_events-plain :
      (now : T) (events : List (T × Event)) (rows : List (Row T)) (sessions : Sessions T)
      → IsOrderly now events
      → Refines now rows sessions
      → run_events users events rows ≡ plain_run_events users events sessions
  run_events-plain now [] rows sessions o h = refl
  run_events-plain now ((at, event) ∷ events) rows sessions (later, o) h =
      let (answer, after) =
        step-IsStep at event rows sessions (Refines-later l now at rows sessions later h) in
      let rest =
        run_events-plain at events (step users at event rows).1
          (plain_step users at event sessions).1 o after in
      ap (λ a. a ∷ run_events users events (step users at event rows).1) answer
      ∙ ap (λ r. (plain_step users at event sessions).0 ∷ r) rest

  -- The table of sessions refines a plain map in which no session is removed for its age: from an
  -- empty table, sign-ins, requests and sign-outs at times in order, with statements that fail or
  -- not, have the answers of the map.
  pub run_events-Refines :
      (now : T) (events : List (T × Event))
      → IsOrderly now events
      → run_events users events [] ≡ plain_run_events users events (λ hash. none)
  run_events-Refines now events o =
      run_events-plain now events [] (λ hash. none) o (tt, λ t hash k. refl)
