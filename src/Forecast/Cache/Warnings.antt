-- ===== src/Forecast/Cache/Warnings.antt =====
-- How often a snapshot warns that it is stale.
use spot_price.Prelude.{
  ℕ, suc, Bool, true, false, List, [], ◌∷◌, ◌≡◌, refl, arith, inl, inr, any, Bool-cases,
  if◌then◌else◌,
}
use spot_price.Jiff.{Instant}
use spot_price.Forecast.Cache.{Snapshot, is_stale, first_stale_serve, serve_all}

-- The number of warnings.
abbrev pub warnings : List Bool → ℕ
warnings [] = 0
warnings (b ∷ bs) = let rest = warnings bs in if b then suc rest else rest

module _ {T S : Type 0} ⦃i : Instant T⦄ where
  serve_all-logged :
      (s : Snapshot T S) (times : List T) → s.stale_logged ≡ true → warnings (serve_all s times) ≡ 0
  unfolding first_stale_serve is_stale
  serve_all-logged s [] h = refl
  serve_all-logged s (now ∷ times) h =
      let after = (first_stale_serve s now).1 in
      let logged : after.stale_logged ≡ true = ground (arith, h) in
      let rest = serve_all-logged after times logged in ground (arith, h, rest)

  -- A snapshot that has not warned yet warns once when one of its serves is stale, and not otherwise.
  pub serve_all-warnings :
      (s : Snapshot T S) (times : List T)
      → s.stale_logged ≡ false
      → warnings (serve_all s times) ≡ (if any (is_stale s) times then 1 else 0)
  unfolding first_stale_serve is_stale
  serve_all-warnings s [] h = refl
  serve_all-warnings s (now ∷ times) h =
      let after = (first_stale_serve s now).1 in
      elim (Bool-cases (is_stale s now)) [
        | inl e ↦
            let logged : after.stale_logged ≡ true = ground (arith, e) in
            let rest = serve_all-logged after times logged in ground (arith, e, h, rest)
        | inr e ↦
            let logged : after.stale_logged ≡ false = ground (arith, e, h) in
            let rest = serve_all-warnings after times logged in ground (arith, e, h, rest)
      ]
