-- ===== src/Session/Examples.antt =====
-- Runs of sessions and cookies.
use spot_price.Prelude.{
  ℕ, zero, suc, ◌*◌, Bool, true, false, none, some, List, [], ◌∷◌, ◌++◌, length, inl, inr, ok, err,
  ◌≡◌, refl, arith,
}
use spot_price.Prelude.Int.{ℤ, pos, ◌+ℤ◌, ◌-ℤ◌}
use spot_price.Prelude.Text.{codes}
use spot_price.Jiff.Nanos.{nanos, nanos-IsInstant}
use spot_price.Auth.Random.{from_hex}
use spot_price.Session.{UserRow, create_session, find_session, extend_session, delete_session}
use spot_price.Session.Handlers.{
  session_error, renewal, start_session, current_session, end_session,
}
use spot_price.Session.Steps.{
  Event, sign_in, sign_out, request, Answer, signed_in, active, run_events, plain_run_events,
}
use spot_price.Session.Runs.{run_events-Refines}
use spot_price.Session.Attended.{AreServed, attended-IsSignedIn}
use spot_price.Session.Cookies.{
  SessionConfig, cookie_name, cookie, read_token, session_config, clear_cookie,
}
use spot_price.Session.Cookies.Read.{sent_pair, read_token-cookie}

abbrev user : UserRow ℤ
user = record {
  id = codes "u1";
  name = codes "anna";
  email = codes "anna@internal";
  email_verified = false;
  image = none;
  created_at = pos 0;
  updated_at = pos 0;
}

-- A day, in nanoseconds.
abbrev days : ℕ → ℤ
days n = pos (n * 86_400_000_000_000)

-- a sign-in, a request within a day, one that renews, and one after the end
abbrev events : List (ℤ × Event)
events =
    (pos 0, sign_in true (codes "h") (codes "u1"))
    ∷ (pos 1, request (true, true) (codes "h"))
    ∷ (days 6, request (true, true) (codes "h"))
    ∷ (days 12, sign_in true (codes "h") (codes "u1"))
    ∷ (days 14, request (true, true) (codes "h"))
    ∷ []

abbrev session_until : ℤ → Bool → Answer ℤ
session_until expires_at renewed = active (
    ok (
      some (record {
        row = record { user = user; created_at = pos 0; expires_at = expires_at };
        renewed = renewed;
      })))

test-run_events :
    run_events (user ∷ []) events []
    ≡ signed_in (ok tt)
      ∷ session_until (days 7) false
      ∷ session_until (days 13) true
      ∷ signed_in (err session_error)
      ∷ active (ok none)
      ∷ []
unfolding start_session current_session end_session create_session find_session extend_session
    delete_session renewal ◌+ℤ◌ ◌-ℤ◌
test-run_events = refl

run_events-Refines_example :
    run_events (user ∷ []) events [] ≡ plain_run_events (user ∷ []) events (λ hash. none)
unfolding ◌+ℤ◌
run_events-Refines_example =
    run_events-Refines nanos-IsInstant (user ∷ []) (pos 0) events
      (refl, (refl, (refl, (refl, (refl, tt)))))

-- another user comes first, and signs out between the requests
abbrev others : List (ℤ × Event)
others = (pos 0, sign_in true (codes "g") (codes "u1")) ∷ []

abbrev later : List (ℤ × Event)
later =
    (days 6, request (true, true) (codes "h"))
    ∷ (days 7, sign_out true (codes "g"))
    ∷ (days 12, request (true, true) (codes "h"))
    ∷ []

attended-IsSignedIn_example :
    (before : List (Answer ℤ)) × (answers : List (Answer ℤ)) × (run_events
        (user ∷ [])
        (others ++ ((pos 0, sign_in true (codes "h") (codes "u1")) ∷ later))
        []
      ≡ before ++ (signed_in (ok tt) ∷ answers))
    × (length before ≡ length others)
    × AreServed (codes "h") later answers
unfolding ◌+ℤ◌
attended-IsSignedIn_example =
    attended-IsSignedIn nanos-IsInstant (user ∷ []) (pos 0) (pos 0) (days 7) others later
      (codes "h") (codes "u1") user (refl, (refl, (refl, (refl, (refl, tt))))) (refl, tt) refl refl
      (inl (
        refl,
        ground arith,
        (days 13, refl),
        inr (refl, inl (refl, ground arith, (days 19, refl), tt)),
      ))

abbrev config : SessionConfig
config = record { origin = codes "http://localhost:3000"; secure = false }

abbrev copies : ℕ → List ℕ
copies zero = []
copies (suc n) = 15 ∷ copies n

-- thirty-two times the byte 0x0f
abbrev token : List ℕ
token = copies 32

read_token-cookie_example :
    read_token (sent_pair (cookie config token) ∷ []) (cookie_name config) ≡ some token
read_token-cookie_example = read_token-cookie config token [] (ground arith) refl

test-read_token :
    read_token (codes "other=1; spot_session=short; x=y" ∷ []) (codes "spot_session") ≡ none
unfolding read_token from_hex
test-read_token = refl

test-clear_cookie :
    clear_cookie (session_config (codes "https://spot.example") (codes "https"))
    ≡ codes "__Host-spot_session=; Max-Age=0; Path=/; HttpOnly; Secure; SameSite=Lax"
unfolding clear_cookie cookie_name session_config
test-clear_cookie = refl
