-- ===== src/Time/Truncation.antt =====
-- `truncate_to_millisecond`: the last whole millisecond at or before an instant, also before 1970.
use spot_price.Prelude.{some, ◌≡◌, ◌⊎◌, inl, inr, refl, arith, Option-cases}
use spot_price.Prelude.Int.{ℤ, pos, negsuc, ◌+ℤ◌, ◌-ℤ◌, ◌*ℤ◌, ◌≤ℤ◌, ◌<ℤ◌, div_trunc, div_euclid}
use spot_price.Jiff.{Instant, IsInstant, millisecond}
use spot_price.Time.{truncate_to_millisecond}

module _ {T : Type 0} ⦃i : Instant T⦄ (laws : IsInstant T) where
  open i use {as_nanosecond as ns, as_millisecond, from_millisecond, le}
  open laws use {le-eq, millisecond-eq, from_millisecond-eq}

  -- The instant has no part below one millisecond.
  abbrev pub IsTruncated : T → Type 0
  IsTruncated t = ns t ≡ div_euclid (ns t) millisecond *ℤ pos millisecond

  trunc_cases :
      (n : ℤ)
      → (div_trunc n millisecond ≡ div_euclid n millisecond)
        ⊎ ((div_trunc n millisecond -ℤ pos 1 ≡ div_euclid n millisecond)
            × (n <ℤ div_trunc n millisecond *ℤ pos millisecond))
  unfolding div_trunc div_euclid ◌-ℤ◌ ◌*ℤ◌
  trunc_cases (pos n) = inl refl
  trunc_cases (negsuc n) = ground arith

  floor_bounds :
      (n : ℤ)
      → (div_euclid n millisecond *ℤ pos millisecond ≤ℤ n)
        × (n <ℤ div_euclid n millisecond *ℤ pos millisecond +ℤ pos millisecond)
  unfolding div_euclid ◌*ℤ◌ ◌+ℤ◌
  floor_bounds (pos n) = ground arith
  floor_bounds (negsuc n) = ground arith

  truncate-floor :
      (t : T) {whole : T}
      → from_millisecond (div_euclid (ns t) millisecond) ≡ some whole
      → truncate_to_millisecond t ≡ whole
  unfolding truncate_to_millisecond
  truncate-floor t {whole} h =
      let (below, above) = floor_bounds (ns t) in
      elim (trunc_cases (ns t)) [
        | inl same ↦ ground (
          arith,
          millisecond-eq t,
          le-eq whole t,
          from_millisecond-eq (div_euclid (ns t) millisecond) whole,
        )
        | inr (less, over) ↦ elim (Option-cases (from_millisecond (as_millisecond t))) [
          | inl e ↦ ground (arith, millisecond-eq t)
          | inr (x, e) ↦ ground (
            arith,
            millisecond-eq t,
            le-eq x t,
            from_millisecond-eq (div_trunc (ns t) millisecond) x,
          )
        ]
      ]

  -- Where the whole millisecond is an instant of the crate, the result is that millisecond: it is at
  -- or before the instant, less than one millisecond away, also for an instant before 1970.
  pub truncate_to_millisecond_floor :
      (t : T) {whole : T}
      → from_millisecond (div_euclid (ns t) millisecond) ≡ some whole
      → let r = ns (truncate_to_millisecond t) in
        (r ≡ div_euclid (ns t) millisecond *ℤ pos millisecond)
        × (r ≤ℤ ns t)
        × (ns t <ℤ r +ℤ pos millisecond)
  truncate_to_millisecond_floor t {whole} h =
      let e = from_millisecond-eq _ whole h in
      let (below, above) = floor_bounds (ns t) in rw (truncate-floor t h, e) (refl, below, above)
