-- ===== src/Endpoints/Answers.antt =====
-- What the price endpoints promise of the intervals that they use.
use spot_price.Prelude.{
  some, List, ◌≡◌, arith, IsFirst, find-IsFirst_on, All, All-map, ◌*◌, ◌&&◌, ap,
}
use spot_price.Prelude.Int.{
  ℤ, pos, negsuc, ◌*ℤ◌, ◌+ℤ◌, ◌≤ℤ◌, ◌<ℤ◌, leb_ℤ, div_euclid, pos_part, neg_part, +ℤ_parts,
}
use spot_price.Jiff.{Instant, IsInstant, millisecond}
use spot_price.Time.{truncate_to_millisecond}
use spot_price.Time.Truncation.{truncate_to_millisecond_floor}
use spot_price.Price.{PriceInterval}
use spot_price.Endpoints.{current_price}

millisecond_parts :
    (m : ℤ)
    → (pos_part (m *ℤ pos millisecond) ≡ pos_part m * millisecond)
      × (neg_part (m *ℤ pos millisecond) ≡ neg_part m * millisecond)
unfolding ◌*ℤ◌
millisecond_parts (pos n) = (ground arith, ground arith)
millisecond_parts (negsuc n) = (ground arith, ground arith)

-- A whole millisecond is at or before an instant exactly when it is so for the floor of the instant.
whole_le :
    (m floor now k bound : ℤ)
    → floor ≡ k *ℤ pos millisecond
    → bound ≡ m *ℤ pos millisecond
    → floor ≤ℤ now
    → now <ℤ floor +ℤ pos millisecond
    → leb_ℤ bound floor ≡ leb_ℤ bound now
whole_le m floor now k bound p q low high = ground (
  arith,
  low,
  high,
  +ℤ_parts floor (pos millisecond),
  millisecond_parts k,
  millisecond_parts m,
  ap pos_part p,
  ap neg_part p,
  ap pos_part q,
  ap neg_part q,
)

module _ {T F : Type 0} ⦃i : Instant T⦄ where
  open i use {as_nanosecond as ns, le, lt, from_millisecond}

  -- The half-open interval holds the instant.
  abbrev pub IsCurrent : T → PriceInterval T F → Type 0
  IsCurrent at price = (ns price.period.start ≤ℤ ns at) × (ns at <ℤ ns price.period.end)

  -- The bounds of an interval are whole milliseconds.
  abbrev pub IsWhole : PriceInterval T F → Type 0
  IsWhole price =
      ((m : ℤ) × (ns price.period.start ≡ m *ℤ pos millisecond))
      × ((m : ℤ) × (ns price.period.end ≡ m *ℤ pos millisecond))

  -- The current price is the first stored interval that holds the instant; there is no current price
  -- exactly when no interval holds it. The stored bounds are whole milliseconds, and the whole
  -- millisecond at or before the instant is an instant of the crate.
  pub current_price-IsFirst :
      (laws : IsInstant T) (prices : List (PriceInterval T F)) (now whole : T)
      → from_millisecond (div_euclid (ns now) millisecond) ≡ some whole
      → All IsWhole prices
      → IsFirst (IsCurrent now) prices (current_price prices now)
  unfolding current_price
  current_price-IsFirst laws prices now whole h bounds =
      let at = truncate_to_millisecond now in
      let (exact, below, above) = truncate_to_millisecond_floor laws now h in
      find-IsFirst_on (IsCurrent now) (λ price. le price.period.start at && lt at price.period.end)
        prices
        (All-map prices
          (λ p ((m, start), (n, end)).
            let start_iff =
              whole_le m (ns at) (ns now) _ (ns p.period.start) exact start below above in
            let end_iff = whole_le n (ns at) (ns now) _ (ns p.period.end) exact end below above in
            (
              ground (
                arith,
                laws.le-eq p.period.start at,
                laws.lt-eq at p.period.end,
                start_iff,
                end_iff,
              ),
              λ e h. ground (
                arith,
                laws.le-eq p.period.start at,
                laws.lt-eq at p.period.end,
                start_iff,
                end_iff,
              ),
            ))
          bounds)
