-- ===== src/Session.antt =====
-- `crates/server/src/store/sessions.rs`: the table of the sessions of the setup UI. A statement that
-- breaks a constraint of the table changes nothing.
pub mod Handlers
pub mod Cookies
pub mod Requests
pub mod Rows
pub mod Steps
pub mod Refinement
pub mod Runs
pub mod Renewal
pub mod Attended
mod Examples
use spot_price.Prelude.{
  ℕ, Bool, true, false, not, ◌&&◌, ◌||◌, Option, none, some, List, [], ◌∷◌, any, find, filter, map,
  if◌then◌else◌, Result, ok, err,
}
use spot_price.Prelude.Int.{ℤ, pos, ◌+ℤ◌, ◌-ℤ◌}
use spot_price.Prelude.Text.{Text, text_eq}
use spot_price.Jiff.{Instant}

-- A row of `app_sessions`.
pub record Row (T : Type 0) : Type 0 where
  pub token_hash : Text
  pub user_id : Text
  pub created_at : T
  pub expires_at : T

pub record UserRow (T : Type 0) : Type 0 where
  pub id : Text
  pub name : Text
  pub email : Text
  pub email_verified : Bool
  pub image : Option Text
  pub created_at : T
  pub updated_at : T

-- A session that has not expired, with its user.
pub record SessionRow (T : Type 0) : Type 0 where
  pub user : UserRow T
  pub created_at : T
  pub expires_at : T

-- A statement that the database refuses, or that does not reach it, is a `StoreError`.
pub data StoreError : Type 0 where
  query : StoreError

abbrev pub user_of : {T : Type 0} → Text → List (UserRow T) → Option (UserRow T)
user_of id users = find (λ u. text_eq u.id id) users

abbrev pub is_absent : {T : Type 0} → Option (UserRow T) → Bool
is_absent none = true
is_absent (some user) = false

abbrev pub has_hash : {T : Type 0} → Text → Row T → Bool
has_hash hash row = text_eq row.token_hash hash

-- The new expiry of a row.
abbrev pub extend_row : {T : Type 0} → Text → T → Row T → Row T
extend_row hash expires_at row =
    if has_hash hash row then record row { expires_at = expires_at } else row

-- `JOIN`: the row with its user.
abbrev pub with_user : {T : Type 0} → Row T → Option (UserRow T) → Option (SessionRow T)
with_user row none = none
with_user row (some user) =
    some (record { user = user; created_at = row.created_at; expires_at = row.expires_at })

abbrev pub joined_row : {T : Type 0} → List (UserRow T) → Option (Row T) → Option (SessionRow T)
joined_row users none = none
joined_row users (some row) = with_user row (user_of row.user_id users)

module _ {T : Type 0} ⦃i : Instant T⦄ where
  open i use {le}

  -- `expires_at > now`.
  abbrev pub is_unexpired : T → Row T → Bool
  is_unexpired now row = not (le row.expires_at now)

  -- The constraints of the table: a new hash, a user that exists, and an expiry behind the creation.
  abbrev pub is_refused : List (UserRow T) → Row T → List (Row T) → Bool
  is_refused users row rows =
      any (has_hash row.token_hash) rows
      || is_absent (user_of row.user_id users)
      || le row.expires_at row.created_at

  -- `create_session`: the two statements of one transaction. `reached` is whether they reach the
  -- database.
  unfoldable pub create_session :
      Bool → List (UserRow T) → Row T → List (Row T) → Result (List (Row T)) StoreError
  create_session reached users row rows =
      let kept = filter (is_unexpired row.created_at) rows in
      if not reached || is_refused users row kept then err query else ok (row ∷ kept)

  -- `find_session`.
  unfoldable pub find_session :
      Bool → List (UserRow T) → Text → T → List (Row T) → Result (Option (SessionRow T)) StoreError
  find_session reached users hash now rows =
      if reached
      then ok (joined_row users (find (λ row. has_hash hash row && is_unexpired now row) rows))
      else err query

  -- `extend_session`.
  unfoldable pub extend_session : Bool → Text → T → List (Row T) → Result (List (Row T)) StoreError
  extend_session reached hash expires_at rows =
      if not reached || any (λ row. has_hash hash row && le expires_at row.created_at) rows
      then err query
      else ok (map (extend_row hash expires_at) rows)

  -- `delete_session`.
  unfoldable pub delete_session : Bool → Text → List (Row T) → Result (List (Row T)) StoreError
  delete_session reached hash rows =
      if reached then ok (filter (λ row. not (has_hash hash row)) rows) else err query
