-- ===== src/RateLimit/Capacity.antt =====
-- The hash map of `Limiter::check`: its keys stay distinct, its size stays bounded, and what a full
-- map drops.
use spot_price.Prelude.{
  suc, ◌≤◌, ◌<◌, String, Bool, true, false, not, none, some, List, [], ◌∷◌, ◌≡◌, ◌⊎◌, inl, inr,
  refl, arith, str_eq, eq_iff, eq_refl, ◌∙◌, subst, ap, some-injective, Exists-map, sym,
  if◌then◌else◌, length, filter, All, Exists, Bool-cases, Option-cases, length-filter_le,
  length-filter_lt,
}
use spot_price.Prelude.Int.{ℤ, ◌≤ℤ◌, ltb_ℤ}
use spot_price.RateLimit.{
  Window, Windows, Limiter, max_keys, get?, store, is_live, earliest, sooner, remove_earliest,
  evict, make_room, check, check_all,
}

-- No key has two windows.
abbrev HasUniqueKeys : Windows → Type 0
HasUniqueKeys [] = Unit
HasUniqueKeys ((key, window) ∷ windows) = (get? key windows ≡ none) × HasUniqueKeys windows

abbrev pub IsWellFormed : Windows → Type 0
IsWellFormed windows = HasUniqueKeys windows × (length windows ≤ max_keys)

pub get?-store : (key : String) (w : Window) (ws : Windows) → get? key (store key w ws) ≡ some w
get?-store key w [] = rw (eq_refl key) refl
get?-store key w ((k, v) ∷ ws) = elim (Bool-cases (str_eq k key)) [
  | inl e ↦ rw e (rw e refl)
  | inr e ↦ rw e (rw e (get?-store key w ws))
]

pub get?-store_other :
    (key other : String) (w : Window) (ws : Windows)
    → str_eq key other ≡ false
    → get? other (store key w ws) ≡ get? other ws
get?-store_other key other w [] h = rw h refl
get?-store_other key other w ((k, v) ∷ ws) h =
    ground (arith, get?-store_other key other w ws h, eq_iff k key, eq_iff key other)

pub length-store_le :
    (key : String) (w : Window) (ws : Windows) → length (store key w ws) ≤ suc (length ws)
length-store_le key w [] = omega arith
length-store_le key w ((k, v) ∷ ws) = ground (arith, length-store_le key w ws)

length-store_same :
    (key : String) (w v : Window) (ws : Windows)
    → get? key ws ≡ some v
    → length (store key w ws) ≡ length ws
length-store_same key w v [] h = ground arith
length-store_same key w v ((k, u) ∷ ws) h = ground (arith, length-store_same key w v ws)

HasUniqueKeys-store :
    (key : String) (w : Window) (ws : Windows) → HasUniqueKeys ws → HasUniqueKeys (store key w ws)
HasUniqueKeys-store key w [] h = (refl, tt)
HasUniqueKeys-store key w ((k, v) ∷ ws) (none_k, h) = elim (Bool-cases (str_eq k key)) [
  | inl e ↦ rw e (none_k, h)
  | inr e ↦
      let different : str_eq key k ≡ false = ground (arith, eq_iff k key, eq_iff key k) in
      rw e (get?-store_other key k w ws different ∙ none_k, HasUniqueKeys-store key w ws h)
]

get?-filter-none :
    (p : String × Window → Bool) (key : String) (ws : Windows)
    → get? key ws ≡ none
    → get? key (filter p ws) ≡ none
get?-filter-none p key [] h = refl
get?-filter-none p key ((k, v) ∷ ws) h = ground (arith, get?-filter-none p key ws)

HasUniqueKeys-filter :
    (p : String × Window → Bool) (ws : Windows) → HasUniqueKeys ws → HasUniqueKeys (filter p ws)
HasUniqueKeys-filter p [] h = tt
HasUniqueKeys-filter p ((k, v) ∷ ws) (n, h) = elim (Bool-cases (p (k, v))) [
  | inl e ↦ rw e (get?-filter-none p k ws n, HasUniqueKeys-filter p ws h)
  | inr e ↦ rw e (HasUniqueKeys-filter p ws h)
]

-- A window that the filter keeps is still found.
get?-filter :
    (p : String × Window → Bool) (key : String) (w : Window) (ws : Windows)
    → p (key, w) ≡ true
    → get? key ws ≡ some w
    → get? key (filter p ws) ≡ some w
get?-filter p key w [] h e = ground arith
get?-filter p key w ((k, v) ∷ ws) h e = elim (Bool-cases (str_eq k key)) [
  | inl q ↦
      let same_key : k ≡ key = (eq_iff k key).0 q in
      let same : v ≡ w =
        some-injective v w (subst (λ b. (if b then some v else get? key ws) ≡ some w) q e) in
      let kept : p (k, v) ≡ true = rw same_key (rw same h) in rw kept (rw q (ap some same))
  | inr q ↦
      let later : get? key ws ≡ some w =
        subst (λ b. (if b then some v else get? key ws) ≡ some w) q e in
      elim (Bool-cases (p (k, v))) [
        | inl r ↦ rw r (rw q (get?-filter p key w ws h later))
        | inr r ↦ rw r (get?-filter p key w ws h later)
      ]
]

-- The entry of a key that occurs once.
get?-entry :
    (entry : String × Window) (ws : Windows)
    → HasUniqueKeys ws
    → Exists (λ e. e ≡ entry) ws
    → get? entry.0 ws ≡ some entry.1
get?-entry entry [] u h = elim h [ ]
get?-entry entry ((k, v) ∷ ws) (n, u) (inl e) =
    subst (λ x. get? x.0 ((k, v) ∷ ws) ≡ some x.1) e (rw (eq_refl k) refl)
get?-entry entry ((k, v) ∷ ws) (n, u) (inr e) =
    let later = get?-entry entry ws u e in ground (arith, eq_iff k entry.0)

earliest-IsMember :
    (best : String × Window) (ws : Windows) → Exists (λ e. e ≡ earliest best ws) (best ∷ ws)
earliest-IsMember best [] = inl refl
earliest-IsMember best (entry ∷ ws) = elim (Bool-cases (sooner entry best)) [
  | inl e ↦ subst (λ b. Goal b) (sym e) (inr (earliest-IsMember entry ws))
  | inr e ↦ subst (λ b. Goal b) (sym e) (skip (earliest-IsMember best ws))
]
  where
    Goal : Bool → Type 0
    Goal b = Exists (λ e. e ≡ earliest (if b then entry else best) ws) (best ∷ entry ∷ ws)

    skip : Exists (λ e. e ≡ earliest best ws) (best ∷ ws) → Goal false
    skip (inl q) = inl q
    skip (inr q) = inr (inr q)

earliest-IsLeast :
    (best : String × Window) (ws : Windows)
    → All (λ e. (earliest best ws).1.reset_at_ms ≤ℤ e.1.reset_at_ms) (best ∷ ws)
earliest-IsLeast best [] = (omega arith, tt)
earliest-IsLeast best (entry ∷ ws) = elim (Bool-cases (sooner entry best)) [
  | inl e ↦
      let h = earliest-IsLeast entry ws in
      subst (λ b. Goal b) (sym e) (ground (arith, h.0, e), (h.0, h.1))
  | inr e ↦
      let h = earliest-IsLeast best ws in
      subst (λ b. Goal b) (sym e) (h.0, (ground (arith, h.0, e), h.1))
]
  where
    Goal : Bool → Type 0
    Goal b =
        All (λ e. (earliest (if b then entry else best) ws).1.reset_at_ms ≤ℤ e.1.reset_at_ms)
          (best ∷ entry ∷ ws)

-- Removing the entry that ends first makes room for one key.
length-remove_earliest :
    (ws : Windows) → max_keys ≤ length ws → suc (length (remove_earliest ws)) ≤ length ws
length-remove_earliest [] h = absurd (omega arith)
length-remove_earliest (entry ∷ ws) h =
    let first = earliest entry ws in
    length-filter_lt (λ e. not (str_eq e.0 first.0)) (entry ∷ ws)
      (Exists-map (entry ∷ ws)
        (λ e q. ap (λ x. not (str_eq x.0 first.0)) q ∙ ap not (eq_refl first.0))
        (earliest-IsMember entry ws))

length-evict : (now : ℤ) (ws : Windows) → length ws ≤ max_keys → length (evict now ws) < max_keys
unfolding evict
length-evict now ws h =
    ground
      (arith, length-remove_earliest (filter (is_live now) ws), length-filter_le (is_live now) ws)

HasUniqueKeys-remove_earliest :
    (ws : Windows) → HasUniqueKeys ws → HasUniqueKeys (remove_earliest ws)
HasUniqueKeys-remove_earliest [] h = tt
HasUniqueKeys-remove_earliest (entry ∷ ws) h =
    HasUniqueKeys-filter (λ e. not (str_eq e.0 (earliest entry ws).0)) (entry ∷ ws) h

HasUniqueKeys-make_room :
    (key : String) (now : ℤ) (ws : Windows)
    → HasUniqueKeys ws
    → HasUniqueKeys (make_room key now ws)
unfolding make_room evict
HasUniqueKeys-make_room key now ws h =
    let kept = HasUniqueKeys-filter (is_live now) ws h in
    ground (arith, h, kept, HasUniqueKeys-remove_earliest (filter (is_live now) ws) kept)

-- The branches of `make_room`.
make_room-cases :
    (key : String) (now : ℤ) (ws : Windows)
    → ((make_room key now ws ≡ ws)
        × (((v : Window) × (get? key ws ≡ some v)) ⊎ (length ws < max_keys)))
      ⊎ ((make_room key now ws ≡ evict now ws) × (get? key ws ≡ none) × (max_keys ≤ length ws))
unfolding make_room
make_room-cases key now ws = elim (Option-cases (get? key ws)) [
  | inl e ↦ ground (arith, e)
  | inr (v, e) ↦ inl (ground (arith, e), inl (v, e))
]

length-store-make_room :
    (key : String) (now : ℤ) (w : Window) (ws : Windows)
    → length ws ≤ max_keys
    → length (store key w (make_room key now ws)) ≤ max_keys
length-store-make_room key now w ws h = elim (make_room-cases key now ws) [
  | inl (e, inl (v, q)) ↦ rw e (rw (length-store_same key w v ws q) h)
  | inl (e, inr q) ↦ rw e (omega (arith, length-store_le key w ws))
  | inr (e, q, full) ↦
      rw e (omega (arith, length-store_le key w (evict now ws), length-evict now ws h))
]

check-IsWellFormed :
    (l : Limiter) (key : String) (now : ℤ)
    → IsWellFormed l.windows
    → IsWellFormed (check l key now).1.windows
unfolding check
check-IsWellFormed l key now (unique, bound) = (
  HasUniqueKeys-store key _ _ (HasUniqueKeys-make_room key now l.windows unique),
  length-store-make_room key now _ l.windows bound,
)

-- Whatever the requests, a limiter with distinct keys and at most MAX_KEYS of them stays so.
pub check_all-IsWellFormed :
    (l : Limiter) (requests : List (String × ℤ))
    → IsWellFormed l.windows
    → IsWellFormed (check_all l requests).1.windows
unfolding check_all
check_all-IsWellFormed l [] h = h
check_all-IsWellFormed l ((key, now) ∷ requests) h =
    check_all-IsWellFormed (check l key now).1 requests (check-IsWellFormed l key now h)

abbrev pub EndsFirst : Window → Windows → Type 0
EndsFirst w ws = All (λ e. w.reset_at_ms ≤ℤ e.1.reset_at_ms) ws

remove_earliest-drops :
    (other : String) (w : Window) (ws : Windows)
    → HasUniqueKeys ws
    → get? other ws ≡ some w
    → (get? other (remove_earliest ws) ≡ some w) ⊎ EndsFirst w ws
remove_earliest-drops other w [] u h = ground arith
remove_earliest-drops other w (entry ∷ ws) u h = elim (Bool-cases (str_eq other first.0)) [
  | inl e ↦
      let found : get? other (entry ∷ ws) ≡ some first.1 =
        subst (λ k. get? k (entry ∷ ws) ≡ some first.1) (sym ((eq_iff other first.0).0 e))
          (get?-entry first (entry ∷ ws) u (earliest-IsMember entry ws)) in
      let same : first.1 ≡ w = some-injective first.1 w (sym found ∙ h) in
      inr (subst (λ v. EndsFirst v (entry ∷ ws)) same (earliest-IsLeast entry ws))
  | inr e ↦ inl (get?-filter (λ x. not (str_eq x.0 first.0)) other w (entry ∷ ws) (rw e refl) h)
]
  where
    first : String × Window
    first = earliest entry ws

evict-drops :
    (other : String) (now : ℤ) (w : Window) (ws : Windows)
    → HasUniqueKeys ws
    → get? other ws ≡ some w
    → (get? other (evict now ws) ≡ some w)
      ⊎ ((w.reset_at_ms ≤ℤ now) ⊎ EndsFirst w (filter (is_live now) ws))
unfolding evict
evict-drops other now w ws u h = elim (Bool-cases (ltb_ℤ now w.reset_at_ms)) [
  | inr e ↦ inr (inl (ground (arith, e)))
  | inl e ↦
      let kept = get?-filter (is_live now) other w ws e h in
      let unique = HasUniqueKeys-filter (is_live now) ws u in
      ground (arith, kept, remove_earliest-drops other w (filter (is_live now) ws) unique kept)
]

-- What a full map drops, where the keys are distinct and at most MAX_KEYS: a request of another key leaves a window as it is, unless the map is full,
-- the key of the request is new, and the window has expired or ends no later than any live window.
pub check-drops :
    (l : Limiter) (key other : String) (now : ℤ) (w : Window)
    → IsWellFormed l.windows
    → str_eq key other ≡ false
    → get? other l.windows ≡ some w
    → (get? other (check l key now).1.windows ≡ some w)
      ⊎ (max_keys ≤ length l.windows)
        × (get? key l.windows ≡ none)
        × ((w.reset_at_ms ≤ℤ now) ⊎ EndsFirst w (filter (is_live now) l.windows))
unfolding check
check-drops l key other now w (unique, bound) different h =
    elim (make_room-cases key now l.windows) [
      | inl (e, q) ↦ inl (get?-store_other key other _ _ different ∙ rw e h)
      | inr (e, q, full) ↦ elim (evict-drops other now w l.windows unique h) [
        | inl kept ↦ inl (get?-store_other key other _ _ different ∙ rw e kept)
        | inr dropped ↦ inr (full, q, dropped)
      ]
    ]

-- A map with room is left as it is.
pub make_room_same :
    (key : String) (now : ℤ) (ws : Windows) → length ws < max_keys → make_room key now ws ≡ ws
make_room_same key now ws h = elim (make_room-cases key now ws) [
  | inl (e, q) ↦ e
  | inr (e, q, full) ↦ absurd (omega arith)
]
