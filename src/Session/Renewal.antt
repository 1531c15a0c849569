-- ===== src/Session/Renewal.antt =====
-- How long a session lasts that is in use.
use spot_price.Prelude.{
  ℕ, true, false, Option, none, some, List, ok, ◌≡◌, refl, sym, ap, subst, arith, inl, inr,
  Bool-cases, Option-cases,
}
use spot_price.Prelude.Int.{ℤ, pos, pos_part, neg_part, ◌+ℤ◌, ◌-ℤ◌, ◌≤ℤ◌, ◌<ℤ◌, +ℤ_parts, -ℤ_parts}
use spot_price.Prelude.Text.{Text, text_eq_refl}
use spot_price.Jiff.{Instant, IsInstant}
use spot_price.Session.{Row, UserRow, SessionRow, user_of, is_unexpired}
use spot_price.Session.Handlers.{
  session_lifetime, session_update_age, renewal, renew_at, day_after, is_due,
}
use spot_price.Session.Rows.{mapped}
use spot_price.Session.Steps.{request, Answer, active, Sessions, moved, plain_step}

-- Six days: what is left of the lifetime when a renewal falls due.
abbrev pub six_days : ℕ
six_days = 518_400_000_000_000

module _ {T : Type 0} where
  -- The request has a session.
  abbrev pub IsSignedIn : Answer T → Type 0
  IsSignedIn (active (ok (some session))) = Unit
  IsSignedIn _ = ⊥

module _ {T : Type 0} ⦃i : Instant T⦄ (l : IsInstant T) (users : List (UserRow T)) where
  open i use {as_nanosecond, le, checked_add}

  -- More than six days are left.
  abbrev pub IsFresh : T → Row T → Type 0
  IsFresh now row =
      (le row.created_at now ≡ true)
      × (as_nanosecond now +ℤ pos six_days <ℤ as_nanosecond row.expires_at)

  due_after :
      (issued : Option T) (expires_at now : T)
      → checked_add expires_at (pos 0 -ℤ pos session_lifetime) ≡ issued
      → is_due (day_after issued) now ≡ false
      → as_nanosecond now +ℤ pos six_days <ℤ as_nanosecond expires_at
  due_after none expires_at now e h = ground (arith, h)
  due_after (some issued) expires_at now e h =
      elim (Option-cases (checked_add issued (pos session_update_age))) [
        | inl k ↦ absurd (ground (arith, k, h))
        | inr (at, k) ↦
            let ahead : le at now ≡ false = ground (arith, k, h) in
            let start = l.checked_add-eq expires_at (pos 0 -ℤ pos session_lifetime) issued e in
            let due = l.checked_add-eq issued (pos session_update_age) at k in
            let behind : as_nanosecond now <ℤ as_nanosecond at =
              ground (arith, ahead, l.le-eq at now) in
            six (as_nanosecond expires_at) (as_nanosecond issued) (as_nanosecond at)
              (as_nanosecond now) start due behind
      ]
    where
      six :
          (e s d n : ℤ)
          → s ≡ e +ℤ (pos 0 -ℤ pos session_lifetime)
          → d ≡ s +ℤ pos session_update_age
          → n <ℤ d
          → n +ℤ pos six_days <ℤ e
      six e s d n p q h = omega (
        arith,
        h,
        +ℤ_parts e (pos 0 -ℤ pos session_lifetime),
        -ℤ_parts (pos 0) (pos session_lifetime),
        +ℤ_parts s (pos session_update_age),
        +ℤ_parts n (pos six_days),
        ap pos_part p,
        ap neg_part p,
        ap pos_part q,
        ap neg_part q,
      )

  -- A session that starts or is renewed at an instant is fresh.
  pub renewed_fresh :
      (t end : T)
      → checked_add t (pos session_lifetime) ≡ some end
      → as_nanosecond t +ℤ pos six_days <ℤ as_nanosecond end
  renewed_fresh t end e =
      let sum = l.checked_add-eq t (pos session_lifetime) end e in
      omega (
        arith,
        ap pos_part sum,
        ap neg_part sum,
        +ℤ_parts (as_nanosecond t) (pos session_lifetime),
        +ℤ_parts (as_nanosecond t) (pos six_days),
      )

  fresh_live :
      (now t : T) (row : Row T)
      → as_nanosecond now +ℤ pos six_days <ℤ as_nanosecond row.expires_at
      → as_nanosecond t ≤ℤ as_nanosecond now +ℤ pos six_days
      → is_unexpired t row ≡ true
  fresh_live now t row h g =
      let later : as_nanosecond t <ℤ as_nanosecond row.expires_at = omega (arith, h, g) in
      ground (arith, later, l.le-eq row.expires_at t)

  -- The answer of a request on a fresh session, and the session after it.
  abbrev pub IsServed : T → Text → Answer T × Sessions T → Type 0
  IsServed t hash (answer, sessions) =
      IsSignedIn answer
      × ((row : Row T) × (sessions hash ≡ some row)
          × IsFresh t row
          × ((user : UserRow T) × (user_of row.user_id users ≡ some user)))

  moved-IsServed :
      (o : Option T) (t end : T) (hash : Text) (row : Row T) (found : SessionRow T)
      (sessions : Sessions T) (user : UserRow T)
      → sessions hash ≡ some row
      → user_of row.user_id users ≡ some user
      → le row.created_at t ≡ true
      → checked_add t (pos session_lifetime) ≡ some end
      → (o ≡ none → as_nanosecond t +ℤ pos six_days <ℤ as_nanosecond row.expires_at)
      → ((e : T) → o ≡ some e → e ≡ end)
      → IsServed t hash (moved o true hash row found sessions)
  moved-IsServed none t end hash row found sessions user s u c e fresh k =
      (tt, (row, s, (c, fresh refl), (user, u)))
  moved-IsServed (some at) t end hash row found sessions user s u c e fresh k =
      let left =
        subst (λ x. as_nanosecond t +ℤ pos six_days <ℤ as_nanosecond x) (sym (k at refl))
          (renewed_fresh t end e) in
      let sum = +ℤ_parts (as_nanosecond t) (pos six_days) in
      let created : as_nanosecond row.created_at ≤ℤ as_nanosecond t =
        ground (arith, c, l.le-eq row.created_at t) in
      let ahead : as_nanosecond row.created_at <ℤ as_nanosecond at =
        omega (arith, left, sum, created) in
      let allowed : le at row.created_at ≡ false =
        ground (arith, ahead, l.le-eq at row.created_at) in
      rw allowed (
        tt,
        (
          record row { expires_at = at },
          rw (text_eq_refl hash) (ap (mapped (λ r. record r { expires_at = at })) s),
          (c, left),
          (user, u),
        ),
      )

  -- The renewal of a fresh session.
  renewal_lem :
      (expires_at now end : T)
      → checked_add now (pos session_lifetime) ≡ some end
      → (renewal expires_at now ≡ none
          → as_nanosecond now +ℤ pos six_days <ℤ as_nanosecond expires_at)
        × ((e : T) → renewal expires_at now ≡ some e → e ≡ end)
  unfolding renewal
  renewal_lem expires_at now end k = elim (Bool-cases (is_due (renew_at expires_at) now)) [
    | inl d ↦ rw d ((λ n. ground (arith, n, k)), (λ e n. ground (arith, n, k)))
    | inr d ↦
        let left =
          due_after (checked_add expires_at (pos 0 -ℤ pos session_lifetime)) expires_at now refl
            d in
        rw d ((λ n. left), (λ e n. ground (arith, n)))
  ]

  pub request-IsServed :
      (now t end : T) (hash : Text) (row : Row T) (user : UserRow T) (sessions : Sessions T)
      → sessions hash ≡ some row
      → IsFresh now row
      → user_of row.user_id users ≡ some user
      → le now t ≡ true
      → as_nanosecond t ≤ℤ as_nanosecond now +ℤ pos six_days
      → checked_add t (pos session_lifetime) ≡ some end
      → IsServed t hash (plain_step users t (request (true, true) hash) sessions)
  request-IsServed now t end hash row user sessions s (c, fresh) u later gap k =
      let found : SessionRow T = record {
        user = user;
        created_at = row.created_at;
        expires_at = row.expires_at;
      } in
      let created : le row.created_at t ≡ true =
        ground
          (arith, c, later, l.le-eq row.created_at now, l.le-eq now t, l.le-eq row.created_at t) in
      let (unmoved, to) = renewal_lem row.expires_at t end k in
      rw s (
        rw (fresh_live now t row fresh gap) (
          rw u (
            moved-IsServed (renewal row.expires_at t) t end hash row found sessions user s u created
              k unmoved to)))
