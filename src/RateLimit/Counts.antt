-- ===== src/RateLimit/Counts.antt =====
-- How many requests of one key a window lets through.
use spot_price.Prelude.{
  ℕ, suc, ◌+◌, ◌≤◌, ◌<◌, min, String, true, false, Option, none, some, List, [], ◌∷◌, ◌≡◌, ◌⊎◌, inl,
  inr, refl, arith, ◌∙◌, ap, subst, sym, str_eq, eq_iff, leb, if◌then◌else◌, length, All,
  Bool-cases,
}
use spot_price.Prelude.Int.{saturate, ℤ, ◌+ℤ◌, ◌≤ℤ◌, ◌<ℤ◌, leb_ℤ}
use spot_price.RateLimit.{
  Window, Limiter, max_keys, u32_max, get?, count_hit, decide, check, check_all,
}
use spot_price.RateLimit.Capacity.{get?-store, get?-store_other, length-store_le, make_room_same}

-- The number of requests of a key.
abbrev pub count : String → List (String × ℤ) → ℕ
count key [] = 0
count key ((k, now) ∷ requests) =
    let rest = count key requests in if str_eq k key then suc rest else rest

-- The limiter has counted `h` requests of the key in a window that ends at `r`.
abbrev HasHits : String → ℤ → ℕ → Limiter → Type 0
HasHits key r h l = get? key l.windows ≡ some (record { hits = h; reset_at_ms = r })

count_hit-live :
    (window_ms now r : ℤ) (h : ℕ)
    → now <ℤ r
    → count_hit window_ms now (some (record { hits = h; reset_at_ms = r }))
      ≡ record { hits = min (h + 1) u32_max; reset_at_ms = r }
unfolding count_hit
count_hit-live window_ms now r h live =
    let lasts : leb_ℤ r now ≡ false = ground arith in rw lasts refl

length-check :
    (l : Limiter) (k : String) (now : ℤ)
    → length l.windows < max_keys
    → length (check l k now).1.windows ≤ suc (length l.windows)
unfolding check
length-check l k now room = rw (make_room_same k now l.windows room) (length-store_le k _ l.windows)

module _ (key : String) (r : ℤ) where
  check-HasHits :
      (l : Limiter) (h : ℕ) (now : ℤ)
      → HasHits key r h l
      → now <ℤ r
      → length l.windows < max_keys
      → HasHits key r (min (h + 1) u32_max) (check l key now).1
  unfolding check
  check-HasHits l h now e live room =
      let same = make_room_same key now l.windows room in
      get?-store key _ _ ∙ ap some (rw same (rw e (count_hit-live l.window_ms now r h live)))

  check_other-HasHits :
      (l : Limiter) (h : ℕ) (k : String) (now : ℤ)
      → HasHits key r h l
      → str_eq k key ≡ false
      → length l.windows < max_keys
      → HasHits key r h (check l k now).1
  unfolding check
  check_other-HasHits l h k now e different room =
      get?-store_other k key _ _ different ∙ rw (make_room_same k now l.windows room) e

  -- While a window lasts and the map has room, its hits are the requests of its key.
  check_all-HasHits :
      (l : Limiter) (h : ℕ) (requests : List (String × ℤ))
      → h ≤ u32_max
      → HasHits key r h l
      → All (λ q. q.1 <ℤ r) requests
      → length l.windows + length requests ≤ max_keys
      → HasHits key r (min (h + count key requests) u32_max) (check_all l requests).1
  unfolding check_all
  check_all-HasHits l h [] bound e all room =
      let same : h ≡ min (h + 0) u32_max = omega arith in subst (λ n. HasHits key r n l) same e
  check_all-HasHits l h ((k, now) ∷ requests) bound e (live, all) room =
      let grown = length-check l k now (omega arith) in
      let next = (check l k now).1 in
      elim (Bool-cases (str_eq k key)) [
        | inl q ↦
            let same_key = sym ((eq_iff k key).0 q) in
            let counted : HasHits key r (min (h + 1) u32_max) next =
              subst (λ x. HasHits key r (min (h + 1) u32_max) (check l x now).1) same_key
                (check-HasHits l h now e live (omega arith)) in
            let rest =
              check_all-HasHits next (min (h + 1) u32_max) requests (omega arith) counted all
                (omega arith) in
            let total : min (min (h + 1) u32_max + count key requests) u32_max
                ≡ min (h + suc (count key requests)) u32_max =
              omega arith in
            rw q (subst (λ n. HasHits key r n (check_all next requests).1) total rest)
        | inr q ↦
            let kept = check_other-HasHits l h k now e q (omega arith) in
            rw q (check_all-HasHits next h requests bound kept all (omega arith))
      ]

check_limit : (l : Limiter) (key : String) (t : ℤ) → (check l key t).1.limit ≡ l.limit
unfolding check
check_limit l key t = refl

check_all_limit :
    (l : Limiter) (requests : List (String × ℤ)) → (check_all l requests).1.limit ≡ l.limit
unfolding check_all check
check_all_limit l [] = refl
check_all_limit l ((k, now) ∷ requests) = check_all_limit (check l k now).1 requests

length-check_all :
    (l : Limiter) (requests : List (String × ℤ))
    → length l.windows + length requests ≤ max_keys
    → length (check_all l requests).1.windows ≤ length l.windows + length requests
unfolding check_all
length-check_all l [] room = omega arith
length-check_all l ((k, now) ∷ requests) room =
    let grown = length-check l k now (omega arith) in
    omega (arith, grown, length-check_all (check l k now).1 requests (omega arith))

-- The key has no window, or one that has ended.
abbrev HasNoWindow : String → ℤ → Limiter → Type 0
HasNoWindow key now l =
    (get? key l.windows ≡ none)
    ⊎ ((w : Window) × (get? key l.windows ≡ some w) × (w.reset_at_ms ≤ℤ now))

abbrev first_hit : ℤ → ℤ → Window
first_hit window_ms t = record { hits = 1; reset_at_ms = saturate (t +ℤ window_ms) }

count_hit-opens :
    (window_ms t : ℤ) (o : Option Window)
    → (o ≡ none) ⊎ ((w : Window) × (o ≡ some w) × (w.reset_at_ms ≤ℤ t))
    → count_hit window_ms t o ≡ first_hit window_ms t
unfolding count_hit
count_hit-opens window_ms t o (inl e) = elim (Bool-cases (leb_ℤ (saturate (t +ℤ window_ms)) t)) [
  | inl q ↦ rw e (rw q refl)
  | inr q ↦ rw e (rw q refl)
]
count_hit-opens window_ms t o (inr (w, e, ended)) =
    let q : leb_ℤ w.reset_at_ms t ≡ true = ground arith in rw e (rw q refl)

check-allowed :
    (l : Limiter) (key : String) (now r : ℤ) (h : ℕ)
    → HasHits key r h l
    → now <ℤ r
    → length l.windows < max_keys
    → (check l key now).0.allowed ≡ leb (min (h + 1) u32_max) l.limit
unfolding check decide
check-allowed l key now r h e live room =
    rw (make_room_same key now l.windows room)
      (rw e (ap (λ w. leb w.hits l.limit) (count_hit-live l.window_ms now r h live)))

-- A request without a window opens one, which lasts from the request on for `window_ms`.
check-opens :
    (l : Limiter) (key : String) (t : ℤ)
    → HasNoWindow key t l
    → length l.windows < max_keys
    → HasHits key (saturate (t +ℤ l.window_ms)) 1 (check l key t).1
unfolding check
check-opens l key t h room =
    get?-store key _ _
    ∙ ap some (rw (make_room_same key t l.windows room) (count_hit-opens l.window_ms t _ h))

-- The requests of a key in one window, whatever other keys do between them: the window is opened at
-- `t`, other requests follow before it ends, and then one more of the key, at `now`. That one is
-- allowed exactly when it is, counted from the first, among the first `limit`. The map has room for
-- every request, and the limit is below `u32::MAX`.
pub check_window :
    (l : Limiter) (key : String) (t now : ℤ) (requests : List (String × ℤ))
    → HasNoWindow key t l
    → All (λ q. q.1 <ℤ saturate (t +ℤ l.window_ms)) requests
    → now <ℤ saturate (t +ℤ l.window_ms)
    → length l.windows + length requests + 2 ≤ max_keys
    → l.limit < u32_max
    → (check (check_all (check l key t).1 requests).1 key now).0.allowed
      ≡ leb (count key requests + 2) l.limit
check_window l key t now requests none_open all live room bound =
    let r = saturate (t +ℤ l.window_ms) in
    let opened = (check l key t).1 in
    let last = (check_all opened requests).1 in
    let grown = length-check l key t (omega arith) in
    let hits =
      check_all-HasHits key r opened 1 requests (omega arith)
        (check-opens l key t none_open (omega arith)) all (omega arith) in
    let few = length-check_all opened requests (omega arith) in
    let limit : last.limit ≡ l.limit = check_all_limit opened requests ∙ check_limit l key t in
    let exact : leb (min (min (1 + count key requests) u32_max + 1) u32_max) l.limit
        ≡ leb (count key requests + 2) l.limit =
      ground arith in
    check-allowed last key now r _ hits live (omega arith)
    ∙ ap (λ n. leb (min (min (1 + count key requests) u32_max + 1) u32_max) n) limit
    ∙ exact
