-- ===== src/RateLimit.antt =====
-- `crates/server/src/http/rate_limit.rs`: the fixed-window rate limits in the memory of the process.
pub mod Capacity
mod Counts
mod Seconds
mod Examples
use spot_price.Prelude.{
  ℕ, zero, suc, ◌+◌, ◌-◌, min, String, Bool, true, false, not, ◌&&◌, Option, none, some, List, [],
  ◌∷◌, str_eq, ltb, leb, if◌then◌else◌, length, filter, unwrap_or,
}
use spot_price.Prelude.Int.{
  saturate, ℤ, pos, negsuc, ◌+ℤ◌, ◌-ℤ◌, leb_ℤ, ltb_ℤ, div_euclid, rem_euclid,
}

-- The most keys of one limiter.
abbrev pub max_keys : ℕ
max_keys = 10_000

-- `u32::MAX`.
abbrev pub u32_max : ℕ
u32_max = 4_294_967_295

pub record Window : Type 0 where
  pub hits : ℕ
  -- the end of the window, in Unix milliseconds
  pub reset_at_ms : ℤ

-- The hash map of a limiter. The order of the list is that of the map's iteration.
abbrev pub Windows : Type 0
Windows = List (String × Window)

pub record Limiter : Type 0 where
  pub limit : ℕ
  pub window_ms : ℤ
  pub message : String
  pub windows : Windows

pub record Decision : Type 0 where
  pub allowed : Bool
  pub limit : ℕ
  pub remaining : ℕ
  pub reset_seconds : ℤ
  pub window_seconds : ℤ

abbrev pub new_limiter : ℕ → ℤ → String → Limiter
new_limiter limit window_ms message = record {
  limit = limit;
  window_ms = window_ms;
  message = message;
  windows = [];
}

-- Whole seconds, rounded up.
unfoldable pub ceil_seconds : ℤ → ℤ
ceil_seconds ms = div_euclid ms 1000 +ℤ (if ltb 0 (rem_euclid ms 1000) then pos 1 else pos 0)

-- `HashMap::get` and the write to an entry.
abbrev pub get? : String → Windows → Option Window
get? key [] = none
get? key ((k, window) ∷ windows) =
    let rest = get? key windows in if str_eq k key then some window else rest

abbrev pub store : String → Window → Windows → Windows
store key window [] = (key, window) ∷ []
store key window ((k, w) ∷ windows) =
    let rest = store key window windows in
    if str_eq k key then (k, window) ∷ windows else (k, w) ∷ rest

abbrev contains_key : String → Windows → Bool
contains_key key windows = elim (get? key windows) [ none ↦ false | some w ↦ true ]

abbrev pub is_live : ℤ → String × Window → Bool
is_live now_ms entry = ltb_ℤ now_ms entry.1.reset_at_ms

abbrev sooner : String × Window → String × Window → Bool
sooner entry best = ltb_ℤ entry.1.reset_at_ms best.1.reset_at_ms

-- `min_by_key`: the first entry whose window ends first.
abbrev earliest : String × Window → Windows → String × Window
earliest best [] = best
earliest best (entry ∷ windows) = earliest (if sooner entry best then entry else best) windows

abbrev remove_earliest : Windows → Windows
remove_earliest [] = []
remove_earliest (entry ∷ windows) =
    let first = earliest entry windows in filter (λ e. not (str_eq e.0 first.0)) (entry ∷ windows)

-- The expired windows go first, and then the window that ends first.
pub evict : ℤ → Windows → Windows
evict now_ms windows =
    let kept = filter (is_live now_ms) windows in
    if leb max_keys (length kept) then remove_earliest kept else kept

pub make_room : String → ℤ → Windows → Windows
unfolding evict
make_room key now_ms windows =
    if not (contains_key key windows) && leb max_keys (length windows)
    then evict now_ms windows
    else windows

-- The window of a request, with the request counted.
unfoldable pub count_hit : ℤ → ℤ → Option Window → Window
unfolding saturate
count_hit window_ms now_ms found =
    let fresh : Window = record { hits = 0; reset_at_ms = saturate (now_ms +ℤ window_ms) } in
    let entered = unwrap_or found fresh in
    let current = if leb_ℤ entered.reset_at_ms now_ms then fresh else entered in
    record { hits = min (current.hits + 1) u32_max; reset_at_ms = current.reset_at_ms }

unfoldable pub decide : Limiter → Window → ℤ → Decision
unfolding saturate ceil_seconds
decide limiter window now_ms = record {
  allowed = leb window.hits limiter.limit;
  limit = limiter.limit;
  remaining = limiter.limit - window.hits;
  reset_seconds = ceil_seconds (saturate (window.reset_at_ms -ℤ now_ms));
  window_seconds = ceil_seconds limiter.window_ms;
}

-- `Limiter::check`, with the limiter after the request.
unfoldable pub check : Limiter → String → ℤ → Decision × Limiter
unfolding make_room count_hit decide
check limiter key now_ms =
    let room = make_room key now_ms limiter.windows in
    let window = count_hit limiter.window_ms now_ms (get? key room) in
    (
      decide limiter window now_ms,
      record {
        limit = limiter.limit;
        window_ms = limiter.window_ms;
        message = limiter.message;
        windows = store key window room;
      },
    )

-- A sequence of requests, each a key and a time, with their decisions.
unfoldable pub check_all : Limiter → List (String × ℤ) → List Decision × Limiter
unfolding check
check_all limiter [] = ([], limiter)
check_all limiter ((key, now_ms) ∷ requests) =
    let step = check limiter key now_ms in
    let rest = check_all step.1 requests in (step.0 ∷ rest.0, rest.1)

-- The three limiters of the service.
pub record RateLimits : Type 0 where
  pub global : Limiter
  pub login : Limiter
  pub api_key : Limiter

abbrev pub rate_limits : RateLimits
rate_limits = record {
  global = new_limiter 120 (pos 60_000) "Too many requests. Try again later.";
  login = new_limiter 10 (pos 900_000) "Too many login attempts. Try again in 15 minutes.";
  api_key = new_limiter 60 (pos 60_000) "Rate limit exceeded. Try again later.";
}
