-- ===== src/Session/Steps.antt =====
-- The operations on the table as steps, and the same steps on a plain map of sessions, in which
-- nothing is removed for its age.
use spot_price.Prelude.{
  Bool, true, false, not, ◌||◌, Option, none, some, List, [], ◌∷◌, if◌then◌else◌, Result, ok, err,
}
use spot_price.Prelude.Int.{pos}
use spot_price.Prelude.Text.{Text, text_eq}
use spot_price.Jiff.{Instant}
use spot_price.Session.{Row, UserRow, SessionRow, user_of, is_unexpired, joined_row, is_absent}
use spot_price.Session.Handlers.{
  ActiveSession, SessionError, session_error, session_lifetime, renewal, start_session,
  current_session, end_session,
}
use spot_price.Session.Rows.{kept, mapped}

-- What a client does, with the hash of its token and whether the statements reach the database.
pub data Event : Type 0 where
  sign_in : Bool → Text → Text → Event
  request : Bool × Bool → Text → Event
  sign_out : Bool → Text → Event

pub data Answer (T : Type 0) : Type 0 where
  signed_in : Result Unit SessionError → Answer T
  active : Result (Option (ActiveSession T)) SessionError → Answer T
  signed_out : Result Unit SessionError → Answer T

-- The sessions by the hashes of their tokens.
abbrev pub Sessions : Type 0 → Type 0
Sessions T = Text → Option (Row T)

module _ {T : Type 0} where
  abbrev pub is_taken : Option (Row T) → Bool
  is_taken none = false
  is_taken (some row) = true

  abbrev pub set_session : Row T → Sessions T → Sessions T
  set_session row sessions k = if text_eq row.token_hash k then some row else sessions k

  abbrev pub drop_session : Text → Sessions T → Sessions T
  drop_session hash sessions k = if text_eq k hash then none else sessions k

  abbrev pub move_expiry : Text → T → Sessions T → Sessions T
  move_expiry hash expires_at sessions k =
      if text_eq k hash
      then mapped (λ row. record row { expires_at = expires_at }) (sessions k)
      else sessions k

module _ {T : Type 0} ⦃i : Instant T⦄ where
  open i use {le}

  -- The session of a hash that has not expired.
  abbrev pub live : T → Text → Sessions T → Option (Row T)
  live now hash sessions = kept (is_unexpired now) (sessions hash)

  -- A request moves the expiry of its live session, when that is due.
  abbrev pub moved :
      Option T → Bool → Text → Row T → SessionRow T → Sessions T → Answer T × Sessions T
  moved none reached hash row found sessions =
      (active (ok (some (record { row = found; renewed = false }))), sessions)
  moved (some expires_at) reached hash row found sessions =
      if not reached || le expires_at row.created_at
      then (active (err session_error), sessions)
      else (
        active
            (ok (some (record { row = record found { expires_at = expires_at }; renewed = true }))),
        move_expiry hash expires_at sessions,
      )

  abbrev pub used :
      Bool → Text → T → Option (Row T) → Option (SessionRow T) → Sessions T → Answer T × Sessions T
  used reached hash now (some row) (some found) sessions =
      moved (renewal row.expires_at now) reached hash row found sessions
  used reached hash now _ _ sessions = (active (ok none), sessions)

module _ {T : Type 0} ⦃i : Instant T⦄ (users : List (UserRow T)) where
  open i use {le, checked_add}

  abbrev pub step : T → Event → List (Row T) → Answer T × List (Row T)
  step now (sign_in reached hash user_id) rows =
      let (answer, after) = start_session reached users hash user_id now rows in
      (signed_in answer, after)
  step now (request reached hash) rows =
      let (answer, after) = current_session reached users hash now rows in (active answer, after)
  step now (sign_out reached hash) rows =
      let (answer, after) = end_session reached hash rows in (signed_out answer, after)

  -- A sign-in opens a session, unless one of its hash is live.
  abbrev pub opened : Option T → Bool → Text → Text → T → Sessions T → Answer T × Sessions T
  opened none reached hash user_id now sessions = (signed_in (err session_error), sessions)
  opened (some expires_at) reached hash user_id now sessions =
      let row : Row T = record {
        token_hash = hash;
        user_id = user_id;
        created_at = now;
        expires_at = expires_at;
      } in
      if not reached
        || (is_taken (live now hash sessions)
            || is_absent (user_of user_id users)
            || le expires_at now)
      then (signed_in (err session_error), sessions)
      else (signed_in (ok tt), set_session row sessions)

  -- The steps of the plain map.
  abbrev pub plain_step : T → Event → Sessions T → Answer T × Sessions T
  plain_step now (sign_in reached hash user_id) sessions =
      opened (checked_add now (pos session_lifetime)) reached hash user_id now sessions
  plain_step now (request (found, extended) hash) sessions =
      if found
      then used extended hash now (live now hash sessions)
          (joined_row users (live now hash sessions)) sessions
      else (active (err session_error), sessions)
  plain_step now (sign_out reached hash) sessions =
      if reached
      then (signed_out (ok tt), drop_session hash sessions)
      else (signed_out (err session_error), sessions)

  -- Runs of steps at their times, with the answers in order.
  abbrev pub run_events : List (T × Event) → List (Row T) → List (Answer T)
  run_events [] rows = []
  run_events ((now, event) ∷ events) rows =
      let (answer, after) = step now event rows in answer ∷ run_events events after

  abbrev pub plain_run_events : List (T × Event) → Sessions T → List (Answer T)
  plain_run_events [] sessions = []
  plain_run_events ((now, event) ∷ events) sessions =
      let (answer, after) = plain_step now event sessions in answer ∷ plain_run_events events after
