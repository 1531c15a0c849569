-- ===== src/Session/Handlers.antt =====
-- `crates/server/src/http/session.rs`: how a session starts, is used and ends, by the hash of its token.
use spot_price.Prelude.{
  ℕ, Bool, true, false, Option, none, some, List, if◌then◌else◌, Result, ok, err,
}
use spot_price.Prelude.Int.{pos, ◌-ℤ◌}
use spot_price.Prelude.Text.{Text}
use spot_price.Jiff.{Instant}
use spot_price.Session.{
  Row, UserRow, SessionRow, StoreError, create_session, find_session, extend_session,
  delete_session,
}

-- The lifetime of a session, and the age after which it is renewed, in nanoseconds.
abbrev pub session_lifetime : ℕ
session_lifetime = 604_800_000_000_000

abbrev pub session_update_age : ℕ
session_update_age = 86_400_000_000_000

pub data SessionError : Type 0 where
  session_error : SessionError

-- The session of a request, and whether it has been renewed.
pub record ActiveSession (T : Type 0) : Type 0 where
  pub row : SessionRow T
  pub renewed : Bool

module _ {T : Type 0} where
  -- An answer with the table after it, by the outcome of a statement on the table.
  abbrev pub session_stored :
      {A : Type 0}
      → Result (List (Row T)) StoreError
      → A
      → List (Row T)
      → Result A SessionError × List (Row T)
  session_stored (err e) answer rows = (err session_error, rows)
  session_stored (ok after) answer rows = (ok answer, after)

module _ {T : Type 0} ⦃i : Instant T⦄ where
  open i use {le, checked_add}

  abbrev pub day_after : Option T → Option T
  day_after none = none
  day_after (some issued) = checked_add issued (pos session_update_age)

  -- `renew_at`: a day behind the last renewal; out of range, it is the first instant.
  abbrev pub renew_at : T → Option T
  renew_at expires_at = day_after (checked_add expires_at (pos 0 -ℤ pos session_lifetime))

  abbrev pub is_due : Option T → T → Bool
  is_due none now = true
  is_due (some at) now = le at now

  -- The new expiry of a session that is due.
  unfoldable pub renewal : T → T → Option T
  renewal expires_at now =
      if is_due (renew_at expires_at) now then checked_add now (pos session_lifetime) else none

  abbrev pub start_until :
      Option T
      → Bool
      → List (UserRow T)
      → Text
      → Text
      → T
      → List (Row T)
      → Result Unit SessionError × List (Row T)
  start_until none reached users hash user_id now rows = (err session_error, rows)
  start_until (some expires_at) reached users hash user_id now rows =
      let row : Row T = record {
        token_hash = hash;
        user_id = user_id;
        created_at = now;
        expires_at = expires_at;
      } in
      session_stored (create_session reached users row rows) tt rows

  -- `start`, behind the random token and in front of its cookie.
  unfoldable pub start_session :
      Bool
      → List (UserRow T)
      → Text
      → Text
      → T
      → List (Row T)
      → Result Unit SessionError × List (Row T)
  start_session reached users hash user_id now rows =
      start_until (checked_add now (pos session_lifetime)) reached users hash user_id now rows

  -- The renewal of a session that is found, if it is due.
  abbrev pub renewed_until :
      Option T
      → Bool
      → Text
      → SessionRow T
      → List (Row T)
      → Result (Option (ActiveSession T)) SessionError × List (Row T)
  renewed_until none reached hash row rows =
      (ok (some (record { row = row; renewed = false })), rows)
  renewed_until (some expires_at) reached hash row rows =
      let active : ActiveSession T = record {
        row = record row { expires_at = expires_at };
        renewed = true;
      } in
      session_stored (extend_session reached hash expires_at rows) (some active) rows

  abbrev pub renewed_row :
      Result (Option (SessionRow T)) StoreError
      → Bool
      → Text
      → T
      → List (Row T)
      → Result (Option (ActiveSession T)) SessionError × List (Row T)
  renewed_row (err e) reached hash now rows = (err session_error, rows)
  renewed_row (ok none) reached hash now rows = (ok none, rows)
  renewed_row (ok (some row)) reached hash now rows =
      renewed_until (renewal row.expires_at now) reached hash row rows

  -- `current`, for the hash of a token. The flags are whether the two statements reach the database.
  unfoldable pub current_session :
      Bool × Bool
      → List (UserRow T)
      → Text
      → T
      → List (Row T)
      → Result (Option (ActiveSession T)) SessionError × List (Row T)
  current_session (found, extended) users hash now rows =
      renewed_row (find_session found users hash now rows) extended hash now rows

  -- `end`, for the hash of a token.
  unfoldable pub end_session : Bool → Text → List (Row T) → Result Unit SessionError × List (Row T)
  end_session reached hash rows = session_stored (delete_session reached hash rows) tt rows
