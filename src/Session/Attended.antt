-- ===== src/Session/Attended.antt =====
-- A session that is in use, among the sessions of others.
use spot_price.Prelude.{
  Bool, true, false, not, ◌||◌, Option, none, some, List, [], ◌∷◌, ◌++◌, length, All, ok, ◌≡◌, ◌⊎◌,
  refl, sym, ap, ◌∙◌, subst, arith, inl, inr, Bool-cases,
}
use spot_price.Prelude.Int.{pos, ◌+ℤ◌, ◌≤ℤ◌, ◌<ℤ◌, +ℤ_parts}
use spot_price.Prelude.Text.{Text, text_eq, text_eq_refl, text_eq_sound}
use spot_price.Jiff.{Instant, IsInstant}
use spot_price.Session.{Row, UserRow, SessionRow, user_of, is_absent, joined_row}
use spot_price.Session.Handlers.{session_lifetime, renewal}
use spot_price.Session.Steps.{
  Event, sign_in, request, sign_out, Answer, signed_in, Sessions, is_taken, live, set_session,
  moved, used, opened, plain_step, plain_run_events, run_events,
}
use spot_price.Session.Refinement.{le_refl, le_trans}
use spot_price.Session.Runs.{IsOrderly, run_events-Refines}
use spot_price.Session.Renewal.{six_days, IsSignedIn, IsFresh, renewed_fresh, request-IsServed}

abbrev pub event_hash : Event → Text
event_hash (sign_in reached hash user_id) = hash
event_hash (request reached hash) = hash
event_hash (sign_out reached hash) = hash

text_eq-false : (a b : Text) → text_eq a b ≡ false → text_eq b a ≡ false
text_eq-false a b h = elim (Bool-cases (text_eq b a)) [
  | inl e ↦
      absurd
        (ground (arith, h, subst (λ x. text_eq x b ≡ true) (text_eq_sound b a e) (text_eq_refl b)))
  | inr e ↦ e
]

module _ {T : Type 0} ⦃i : Instant T⦄ (hash other : Text) where
  open i use {le}

  set_session-other :
      (row : Row T) (sessions : Sessions T)
      → text_eq row.token_hash hash ≡ false
      → set_session row sessions hash ≡ sessions hash
  set_session-other row sessions h = rw h refl

  moved-other :
      (o : Option T) (reached : Bool) (row : Row T) (found : SessionRow T) (sessions : Sessions T)
      → text_eq other hash ≡ false
      → (moved o reached other row found sessions).1 hash ≡ sessions hash
  moved-other none reached row found sessions h = refl
  moved-other (some t) reached row found sessions h =
      let apart = text_eq-false other hash h in
      elim (Bool-cases (not reached || le t row.created_at)) [
        | inl e ↦ rw e refl
        | inr e ↦ rw e (rw apart refl)
      ]

  used-other :
      (reached : Bool) (now : T) (row : Option (Row T)) (found : Option (SessionRow T))
      (sessions : Sessions T)
      → text_eq other hash ≡ false
      → (used reached other now row found sessions).1 hash ≡ sessions hash
  used-other reached now (some row) (some found) sessions h =
      moved-other (renewal row.expires_at now) reached row found sessions h
  used-other reached now none found sessions h = refl
  used-other reached now (some row) none sessions h = refl

module _ {T : Type 0} ⦃i : Instant T⦄ (users : List (UserRow T)) where
  open i use {le, checked_add, as_nanosecond}

  opened-other :
      (o : Option T) (reached : Bool) (hash other user_id : Text) (now : T) (sessions : Sessions T)
      → text_eq other hash ≡ false
      → (opened users o reached other user_id now sessions).1 hash ≡ sessions hash
  opened-other none reached hash other user_id now sessions h = refl
  opened-other (some t) reached hash other user_id now sessions h =
      let refused =
        not reached
        || (is_taken (live now other sessions) || is_absent (user_of user_id users) || le t now) in
      elim (Bool-cases refused) [ inl e ↦ rw e refl | inr e ↦ rw e (rw h refl) ]

  -- An event of another hash leaves a session as it is.
  plain_step-other :
      (hash : Text) (now : T) (event : Event) (sessions : Sessions T)
      → text_eq (event_hash event) hash ≡ false
      → (plain_step users now event sessions).1 hash ≡ sessions hash
  plain_step-other hash now (sign_in reached other user_id) sessions h =
      opened-other (checked_add now (pos session_lifetime)) reached hash other user_id now sessions
        h
  plain_step-other hash now (request (true, extended) other) sessions h =
      used-other hash other extended now (live now other sessions)
        (joined_row users (live now other sessions)) sessions h
  plain_step-other hash now (request (false, extended) other) sessions h = refl
  plain_step-other hash now (sign_out true other) sessions h =
      let apart = text_eq-false other hash h in rw apart refl
  plain_step-other hash now (sign_out false other) sessions h = refl

  -- The map after events.
  abbrev after_events : List (T × Event) → Sessions T → Sessions T
  after_events [] sessions = sessions
  after_events ((now, event) ∷ events) sessions =
      after_events events (plain_step users now event sessions).1

  after_events-other :
      (hash : Text) (events : List (T × Event)) (sessions : Sessions T)
      → All (λ e. text_eq (event_hash e.1) hash ≡ false) events
      → after_events events sessions hash ≡ sessions hash
  after_events-other hash [] sessions h = refl
  after_events-other hash ((now, event) ∷ events) sessions (h, hs) =
      after_events-other hash events (plain_step users now event sessions).1 hs
      ∙ plain_step-other hash now event sessions h

  plain_run_events-append :
      (events rest : List (T × Event)) (sessions : Sessions T)
      → plain_run_events users (events ++ rest) sessions
        ≡ plain_run_events users events sessions
          ++ plain_run_events users rest (after_events events sessions)
  plain_run_events-append [] rest sessions = refl
  plain_run_events-append ((now, event) ∷ events) rest sessions =
      ap (λ l. (plain_step users now event sessions).0 ∷ l)
        (plain_run_events-append events rest (plain_step users now event sessions).1)

  plain_run_events-length :
      (events : List (T × Event)) (sessions : Sessions T)
      → length (plain_run_events users events sessions) ≡ length events
  plain_run_events-length [] sessions = refl
  plain_run_events-length ((now, event) ∷ events) sessions =
      omega (arith, plain_run_events-length events (plain_step users now event sessions).1)

module _ {T : Type 0} ⦃i : Instant T⦄ where
  open i use {checked_add, as_nanosecond}

  -- The requests of a hash each come at most six days after the one before it, reach the database, and
  -- a lifetime after each is in the range of an instant. The other events are of other hashes.
  abbrev pub IsAttended : Text → T → List (T × Event) → Type 0
  IsAttended hash now [] = Unit
  IsAttended hash now ((t, event) ∷ events) =
      ((event ≡ request (true, true) hash)
        × (as_nanosecond t ≤ℤ as_nanosecond now +ℤ pos six_days)
        × ((end : T) × (checked_add t (pos session_lifetime) ≡ some end))
        × IsAttended hash t events)
      ⊎ ((text_eq (event_hash event) hash ≡ false) × IsAttended hash now events)

module _ {T : Type 0} where
  -- The answers of the requests of a hash have its session.
  abbrev pub AreServed : Text → List (T × Event) → List (Answer T) → Type 0
  AreServed hash [] [] = Unit
  AreServed hash ((t, event) ∷ events) (answer ∷ answers) =
      (event ≡ request (true, true) hash → IsSignedIn answer) × AreServed hash events answers
  AreServed hash _ _ = ⊥

module _ {T : Type 0} ⦃i : Instant T⦄ (l : IsInstant T) (users : List (UserRow T)) where
  open i use {le, checked_add, as_nanosecond}

  attended-AreServed :
      (now at : T) (events : List (T × Event)) (hash : Text) (row : Row T) (user : UserRow T)
      (sessions : Sessions T)
      → le now at ≡ true
      → IsOrderly at events
      → IsAttended hash now events
      → sessions hash ≡ some row
      → IsFresh l users now row
      → user_of row.user_id users ≡ some user
      → AreServed hash events (plain_run_events users events sessions)
  attended-AreServed now at [] hash row user sessions past o a s f u = tt
  attended-AreServed now at ((t, event) ∷ events) hash row user sessions past (later, o)
        (inl (about, gap, (end, k), a)) s f u =
      let since = le_trans l now at t past later in
      let (served, (row', s', f', (user', u'))) =
        request-IsServed l users now t end hash row user sessions s f u since gap k in
      let after = (plain_step users t (request (true, true) hash) sessions).1 in
      let rest = attended-AreServed t t events hash row' user' after (le_refl l t) o a s' f' u' in
      subst
        (λ x. AreServed hash ((t, x) ∷ events) (plain_run_events users ((t, x) ∷ events) sessions))
        (sym about) ((λ q. served), rest)
  attended-AreServed now at ((t, event) ∷ events) hash row user sessions past (later, o)
        (inr (other, a)) s f u =
      let since = le_trans l now at t past later in
      let kept = plain_step-other users hash t event sessions other in
      (
        λ q.
            absurd
              (ground (arith, other, ap (λ e. text_eq (event_hash e) hash) q, text_eq_refl hash)),
        attended-AreServed now t events hash row user (plain_step users t event sessions).1 since o
            a (kept ∙ s) f u,
      )

  opened-attended :
      (now end : T) (later : List (T × Event)) (hash user_id : Text) (user : UserRow T)
      (sessions : Sessions T)
      → user_of user_id users ≡ some user
      → checked_add now (pos session_lifetime) ≡ some end
      → IsOrderly now later
      → IsAttended hash now later
      → sessions hash ≡ none
      → (answers : List (Answer T)) × (plain_run_events users
            ((now, sign_in true hash user_id) ∷ later)
            sessions
          ≡ signed_in (ok tt) ∷ answers)
        × AreServed hash later answers
  opened-attended now end later hash user_id user sessions u k o a free =
      let row : Row T = record {
        token_hash = hash;
        user_id = user_id;
        created_at = now;
        expires_at = end;
      } in
      let first = set_session row sessions in
      let fresh = renewed_fresh l users now end k in
      let self = le_refl l now in
      let sum = +ℤ_parts (as_nanosecond now) (pos six_days) in
      let ahead : as_nanosecond now <ℤ as_nanosecond end = omega (arith, fresh, sum) in
      let allowed : le end now ≡ false = ground (arith, ahead, l.le-eq end now) in
      let opened_lem : plain_step users now (sign_in true hash user_id) sessions
          ≡ (signed_in (ok tt), first) =
        rw k (rw free (rw u (rw allowed refl))) in
      let served =
        attended-AreServed now now later hash row user first self o a (rw (text_eq_refl hash) refl)
          (self, fresh) u in
      (
        plain_run_events users later first,
        ap (λ r. r.0 ∷ plain_run_events users later r.1) opened_lem,
        served,
      )

  IsOrderly-drop :
      (start now : T) (event : Event) (earlier later : List (T × Event))
      → IsOrderly start (earlier ++ ((now, event) ∷ later))
      → IsOrderly now later
  IsOrderly-drop start now event [] later (h, o) = o
  IsOrderly-drop start now event ((t, e) ∷ earlier) later (h, o) =
      IsOrderly-drop t now event earlier later o

  -- A session does not end while it is used, whatever others do: events of other hashes come first
  -- from an empty table, then a known user signs in with the hash. The events behind it are of other
  -- hashes, or requests of this one, each at most six days after the one before it; all of those
  -- have the session. The times are in order, a lifetime after the sign-in and after each request of
  -- the hash is in range, and the statements of these reach the database.
  pub attended-IsSignedIn :
      (start now end : T) (earlier later : List (T × Event)) (hash user_id : Text)
      (user : UserRow T)
      → IsOrderly start (earlier ++ ((now, sign_in true hash user_id) ∷ later))
      → All (λ e. text_eq (event_hash e.1) hash ≡ false) earlier
      → user_of user_id users ≡ some user
      → checked_add now (pos session_lifetime) ≡ some end
      → IsAttended hash now later
      → (before : List (Answer T)) × (answers : List (Answer T)) × (run_events users
            (earlier ++ ((now, sign_in true hash user_id) ∷ later))
            []
          ≡ before ++ (signed_in (ok tt) ∷ answers))
        × (length before ≡ length earlier)
        × AreServed hash later answers
  attended-IsSignedIn start now end earlier later hash user_id user o others u k a =
      let nothing : Sessions T = λ h. none in
      let rest = (now, sign_in true hash user_id) ∷ later in
      let before = plain_run_events users earlier nothing in
      let (answers, opens, served) =
        opened-attended now end later hash user_id user (after_events users earlier nothing) u k
          (IsOrderly-drop start now (sign_in true hash user_id) earlier later o) a
          (after_events-other users hash earlier nothing others) in
      (
        before,
        answers,
        run_events-Refines l users start (earlier ++ rest) o
            ∙ plain_run_events-append users earlier rest nothing
            ∙ ap (λ x. before ++ x) opens,
        plain_run_events-length users earlier nothing,
        served,
      )
