-- ===== src/Areas/Zones.antt =====
-- The offered time zones are those of the areas, each once and in the order of their names.
use Prim.Native.Nat.{Ordering}
use Prim.Native.String.{compare}
use spot_price.Prelude.{
  String, ◌≡◌, ◌↔◌, ◌⊎◌, true, List, [], ◌∷◌, map, arith, Exists, any-Exists, Exists-any, eq_iff,
  str_eq,
}
use spot_price.Areas.{
  Area, all_areas, timezone, insert_name, sort_names, dedup_after, dedup, supported_timezones,
  is_supported_timezone,
}

module _ (z : String) where
  Exists-insert_name :
      (a : String) (bs : List String)
      → Exists (λ y. y ≡ z) (insert_name a bs) ↔ Exists (λ y. y ≡ z) (a ∷ bs)
  unfolding insert_name
  Exists-insert_name a [] = (λ h. h, λ h. h)
  Exists-insert_name a (b ∷ bs) = ground (arith, Exists-insert_name a bs)

  Exists-sort_names : (l : List String) → Exists (λ y. y ≡ z) (sort_names l) ↔ Exists (λ y. y ≡ z) l
  unfolding sort_names
  Exists-sort_names [] = (λ h. h, λ h. h)
  Exists-sort_names (a ∷ bs) =
      ground (arith, Exists-insert_name a (sort_names bs), Exists-sort_names bs)

  Exists-dedup_after :
      (a : String) (bs : List String)
      → ((a ≡ z) ⊎ Exists (λ y. y ≡ z) (dedup_after a bs)) ↔ Exists (λ y. y ≡ z) (a ∷ bs)
  unfolding dedup_after
  Exists-dedup_after a [] = (λ h. h, λ h. h)
  Exists-dedup_after a (b ∷ bs) =
      ground (arith, eq_iff a b, Exists-dedup_after a bs, Exists-dedup_after b bs)

  Exists-dedup : (l : List String) → Exists (λ y. y ≡ z) (dedup l) ↔ Exists (λ y. y ≡ z) l
  unfolding dedup
  Exists-dedup [] = (λ h. h, λ h. h)
  Exists-dedup (a ∷ bs) = Exists-dedup_after a bs

  Exists-zones :
      (l : List Area)
      → Exists (λ area. str_eq (timezone area) z ≡ true) l ↔ Exists (λ y. y ≡ z) (map timezone l)
  Exists-zones [] = (λ h. h, λ h. h)
  Exists-zones (a ∷ l) = ground (arith, eq_iff (timezone a) z, Exists-zones l)

  -- A name is a supported time zone exactly when it is on the sorted list that is offered.
  pub is_supported_timezone_iff :
      (is_supported_timezone z ≡ true) ↔ Exists (λ y. y ≡ z) supported_timezones
  unfolding is_supported_timezone supported_timezones
  is_supported_timezone_iff =
      let test = λ (area : Area). str_eq (timezone area) z in
      let zones = map timezone all_areas in
      let kept = Exists-dedup (sort_names zones) in
      let sorted = Exists-sort_names zones in
      let found = Exists-zones all_areas in
      (
        λ h. kept.1 (sorted.1 (found.0 (any-Exists test all_areas h))),
        λ h. Exists-any test all_areas (found.1 (sorted.0 (kept.0 h))),
      )

abbrev IsStrictlySorted : List String → Type 0
IsStrictlySorted [] = Unit
IsStrictlySorted (a ∷ []) = Unit
IsStrictlySorted (a ∷ b ∷ bs) = (compare a b ≡ Ordering.lt) × IsStrictlySorted (b ∷ bs)

-- The offered list is in strictly rising order, so no zone is offered twice.
supported_timezones-IsSorted : IsStrictlySorted supported_timezones
unfolding supported_timezones
supported_timezones-IsSorted = ground arith
