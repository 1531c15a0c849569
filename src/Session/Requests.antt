-- ===== src/Session/Requests.antt =====
-- `crates/server/src/http/session.rs`: sessions by the cookies of requests. SHA-256 is a parameter.
use spot_price.Prelude.{ℕ, Bool, Option, none, some, List, Result, ok, err}
use spot_price.Prelude.Text.{Text}
use spot_price.Jiff.{Instant}
use spot_price.Session.{Row, UserRow}
use spot_price.Session.Handlers.{
  ActiveSession, SessionError, session_error, start_session, current_session, end_session,
}
use spot_price.Session.Cookies.{SessionConfig, cookie_name, cookie, read_token}

-- What the middleware does with a request; an admitted one may set a new cookie.
pub data Admission (T : Type 0) : Type 0 where
  unauthorized : Admission T
  internal_error : Admission T
  admitted : UserRow T → Bool → Admission T

-- `require_session`, of the outcome of `current`.
unfoldable pub require_session :
    {T : Type 0} → Result (Option (ActiveSession T)) SessionError → Admission T
require_session (ok (some session)) = admitted session.row.user session.renewed
require_session (ok none) = unauthorized
require_session (err e) = internal_error

module _ {T : Type 0} ⦃i : Instant T⦄ (sha256 : List ℕ → Text) where
  abbrev pub with_cookie :
      SessionConfig
      → List ℕ
      → Result Unit SessionError × List (Row T)
      → Result Text SessionError × List (Row T)
  with_cookie config token (ok done, rows) = (ok (cookie config token), rows)
  with_cookie config token (err e, rows) = (err e, rows)

  -- `start`, with the random token, if there are random bytes.
  unfoldable pub start :
      SessionConfig
      → Option (List ℕ)
      → Bool
      → List (UserRow T)
      → Text
      → T
      → List (Row T)
      → Result Text SessionError × List (Row T)
  unfolding start_session cookie
  start config none reached users user_id now rows = (err session_error, rows)
  start config (some token) reached users user_id now rows =
      with_cookie config token (start_session reached users (sha256 token) user_id now rows)

  abbrev pub current_of :
      Option (List ℕ)
      → Bool × Bool
      → List (UserRow T)
      → T
      → List (Row T)
      → Result (Option (ActiveSession T)) SessionError × List (Row T)
  current_of none reached users now rows = (ok none, rows)
  current_of (some token) reached users now rows =
      current_session reached users (sha256 token) now rows

  -- `current`, of the `Cookie` headers.
  unfoldable pub current :
      SessionConfig
      → List Text
      → Bool × Bool
      → List (UserRow T)
      → T
      → List (Row T)
      → Result (Option (ActiveSession T)) SessionError × List (Row T)
  unfolding current_session read_token cookie_name
  current config headers reached users now rows =
      current_of (read_token headers (cookie_name config)) reached users now rows

  abbrev pub end_of :
      Option (List ℕ) → Bool → List (Row T) → Result Unit SessionError × List (Row T)
  end_of none reached rows = (ok tt, rows)
  end_of (some token) reached rows = end_session reached (sha256 token) rows

  -- `end`.
  unfoldable pub end :
      SessionConfig → List Text → Bool → List (Row T) → Result Unit SessionError × List (Row T)
  unfolding end_session read_token cookie_name
  end config headers reached rows = end_of (read_token headers (cookie_name config)) reached rows
