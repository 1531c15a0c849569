-- ===== src/Forecast/Issuance/Past.antt =====
-- An issuance and the vintages that are issued after it.
use spot_price.Prelude.{
  false, ◌&&◌, Option, none, some, List, [], ◌∷◌, filter, if◌then◌else◌, ◌≡◌, refl, sym, ap, ◌∙◌,
  arith, inl, inr, Bool-cases,
}
use spot_price.Prelude.Int.{ℤ, ltb_ℤ, eq_ℤ}
use spot_price.Jiff.{Instant, IsInstant}
use spot_price.Forecast.Issuance.{GridVintage, new_ladder, as_of, known_record}
use spot_price.Forecast.Issuance.Newest.{newer, newest}
use spot_price.Forecast.Issuance.Issues.{issues_of}
use spot_price.Forecast.Issuance.AsOf.{value_found, value_of, is_between, as_of_lem}

newer-late :
    {F : Type 0} (s : ℤ) (x : ℤ × F) (o : Option (ℤ × F)) → ltb_ℤ x.0 s ≡ false → newer s x o ≡ o
newer-late s x none e = ground (arith, e)
newer-late s x (some w) e = ground (arith, e)

module _ {T F : Type 0} ⦃i : Instant T⦄ where
  open i use {as_millisecond}

  abbrev pub before : ℤ → List (GridVintage T F) → List (GridVintage T F)
  before issued_ms vintages = filter (λ v. ltb_ℤ (as_millisecond v.issued_at) issued_ms) vintages

  newest-before :
      (s target bound : ℤ) (vintages : List (GridVintage T F))
      → newest s (issues_of target bound vintages)
        ≡ newest s (issues_of target bound (before s vintages))
  newest-before s target bound [] = refl
  newest-before s target bound (v ∷ vintages) =
      let rest = newest-before s target bound vintages in
      let at = as_millisecond v.issued_at in
      let x : ℤ × F = (at, v.value) in
      let late = newer-late s x (newest s (issues_of target bound vintages)) in
      let applies = eq_ℤ (as_millisecond v.start) target && ltb_ℤ at bound in
      elim (Bool-cases (ltb_ℤ at s)) [
        | inl e ↦
            rw e
              (elim (Bool-cases applies) [ inl p ↦ rw p (ap (newer s x) rest) | inr p ↦ rw p rest ])
        | inr e ↦
            rw e (elim (Bool-cases applies) [ inl p ↦ rw p (late e ∙ rest) | inr p ↦ rw p rest ])
      ]

  module _ (laws : IsInstant T) where
    -- An issuance never looks ahead: the first record that it has at a target does not depend on the
    -- vintages that were issued at or after it, nor does a panic.
    pub as_of_past :
        (vintages : List (GridVintage T F)) (before_ms issued_ms from_ms to_ms target : ℤ)
        → value_found target (as_of {T = T} (new_ladder vintages before_ms) issued_ms from_ms to_ms)
          ≡ value_found target (
              as_of {T = T}
                (new_ladder (before issued_ms vintages) before_ms)
                issued_ms
                from_ms
                to_ms)
    as_of_past vintages bound s from to target =
        as_of_lem laws vintages bound s from to target
        ∙ ap
            (λ o.
              if ltb_ℤ to from
              then none
              else some (
                  if is_between from to target
                  then value_of (known_record {T = T} (record { start = target }) o)
                  else none))
            (newest-before s target bound vintages)
        ∙ sym (as_of_lem laws (before s vintages) bound s from to target)
