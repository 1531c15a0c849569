-- ===== src/Forecast/Issuance.antt =====
-- `crates/domain/src/forecast/issuance.rs`: what an earlier issuance of the forecast had.
pub mod Newest
pub mod Issues
pub mod AsOf
pub mod Past
mod Examples
use spot_price.Prelude.{
  ℕ, zero, suc, ◌-◌, Bool, true, false, ◌&&◌, Option, none, some, List, [], ◌∷◌, ◌++◌, map, filter,
  if◌then◌else◌, leb, unwrap_or, or_else,
}
use spot_price.Prelude.Int.{ℤ, pos, negsuc, ◌-ℤ◌, leb_ℤ, ltb_ℤ, div_euclid}
use spot_price.Float.{Double, number}
use spot_price.Jiff.{Instant, Zoned, Calendar}
use spot_price.Time.{◌>>=◌, next_calendar_day, start_of_local_day_utc}
use spot_price.Forecast.Quarter.{
  QuarterStart, QuarterMap, quarter_floor, insert_quarter, get_quarter,
}
use spot_price.Forecast.Conformal.{at_rank}
use spot_price.Forecast.Series.Buckets.{GridRecord, is_some}

abbrev pub publication_hour_utc : ℕ
publication_hour_utc = 12

module _ {T Z : Type 0} ⦃c : Calendar⦄ ⦃z : Zoned T Z⦄ where
  -- `utc` is the UTC zone; `none` is `OutOfRange`.
  unfoldable pub publication_horizon : Z → T → Z → Option T
  unfolding next_calendar_day start_of_local_day_utc
  publication_horizon utc issued_at delivery_zone = do
    let at = z.to_datetime utc issued_at
    published_day ←
        if leb publication_hour_utc at.hour then next_calendar_day at.date else some at.date
    next_day ← next_calendar_day published_day
    start_of_local_day_utc next_day delivery_zone

pub record GridVintage (T F : Type 0) : Type 0 where
  pub issued_at : T
  pub start : T
  pub value : F

pub data InputSource (T : Type 0) : Type 0 where
  vintage : Option T → InputSource T
  extension : InputSource T
  actual : InputSource T
  missing : InputSource T

-- The issue times, in milliseconds, and the values of the vintages of one target.
abbrev pub Issued : Type 0 → Type 0
Issued F = List (ℤ × F)

-- The keys of `by_target` are milliseconds; they stand in a `QuarterStart` here, whole quarters or not.
pub record Ladder (F : Type 0) : Type 0 where
  pub by_target : QuarterMap (Issued F)

module _ {F : Type 0} where
  -- `entry(..).or_default().push(..)`.
  abbrev pub push_issued : QuarterStart → ℤ × F → QuarterMap (Issued F) → QuarterMap (Issued F)
  push_issued target entry by_target =
      insert_quarter target (unwrap_or (get_quarter target by_target) [] ++ (entry ∷ [])) by_target

  -- `sort_by_key`, which is stable: an entry goes before those of its issue time.
  abbrev pub insert_issued : ℤ × F → Issued F → Issued F
  insert_issued x [] = x ∷ []
  insert_issued x (y ∷ ys) =
      let rest = insert_issued x ys in if ltb_ℤ y.0 x.0 then y ∷ rest else x ∷ y ∷ ys

  abbrev pub sort_issued : Issued F → Issued F
  sort_issued [] = []
  sort_issued (x ∷ xs) = insert_issued x (sort_issued xs)

  abbrev pub partition_point : ℤ → Issued F → ℕ
  partition_point issued_ms [] = 0
  partition_point issued_ms (x ∷ xs) =
      let rest = partition_point issued_ms xs in if ltb_ℤ x.0 issued_ms then suc rest else 0

module _ {T : Type 0} ⦃i : Instant T⦄ where
  -- The slot of a quarter has the latest issue time.
  abbrev pub latest_slot : Option T → T → T
  latest_slot none issued_at = issued_at
  latest_slot (some slot) issued_at = if i.lt slot issued_at then issued_at else slot

module _ {T F : Type 0} ⦃i : Instant T⦄ where
  open i use {as_millisecond, from_millisecond}

  abbrev pub push_vintages :
      QuarterMap (Issued F) → ℤ → List (GridVintage T F) → QuarterMap (Issued F)
  push_vintages by_target before_ms [] = by_target
  push_vintages by_target before_ms (v ∷ vintages) =
      let pushed =
        push_issued (record { start = as_millisecond v.start })
          (as_millisecond v.issued_at, v.value) by_target in
      push_vintages (if ltb_ℤ (as_millisecond v.issued_at) before_ms then pushed else by_target)
        before_ms vintages

  unfoldable pub new_ladder : List (GridVintage T F) → ℤ → Ladder F
  new_ladder vintages before_ms = record {
    by_target = map (λ e. (e.0, sort_issued e.1)) (push_vintages [] before_ms vintages);
  }

  -- The record of a target and its issue time, when both are in the range of an instant.
  abbrev pub known_at : Option T → Option T → F → Option (GridRecord T F × T)
  known_at (some start) (some issued_at) value =
      some (record { start = start; value = value }, issued_at)
  known_at _ _ value = none

  abbrev pub known_record : QuarterStart → Option (ℤ × F) → Option (GridRecord T F × T)
  known_record target none = none
  known_record target (some (issued, value)) =
      known_at (from_millisecond target.start) (from_millisecond issued) value

  abbrev pub put_slot : GridRecord T F → T → QuarterMap T → QuarterMap T
  put_slot known issued_at slots =
      let quarter = quarter_floor known.start in
      insert_quarter quarter (latest_slot (get_quarter quarter slots) issued_at) slots

  abbrev pub with_known :
      Option (GridRecord T F × T)
      → List (GridRecord T F) × QuarterMap T
      → List (GridRecord T F) × QuarterMap T
  with_known none (records, slots) = (records, slots)
  with_known (some (known, issued_at)) (records, slots) =
      (records ++ (known ∷ []), put_slot known issued_at slots)

  -- The loop over the targets of the range.
  abbrev pub as_of_loop :
      QuarterMap (Issued F)
      → ℤ
      → ℤ
      → ℤ
      → List (GridRecord T F) × QuarterMap T
      → List (GridRecord T F) × QuarterMap T
  as_of_loop [] issued_ms from_ms to_ms found = found
  as_of_loop ((target, list) ∷ entries) issued_ms from_ms to_ms found =
      let known = known_record target (at_rank list (partition_point issued_ms list)) in
      as_of_loop entries issued_ms from_ms to_ms (
        if leb_ℤ from_ms target.start && ltb_ℤ target.start to_ms
        then with_known known found
        else found)

  -- `none` is the panic of `range` on a range that ends before it starts.
  unfoldable pub as_of : Ladder F → ℤ → ℤ → ℤ → Option (List (GridRecord T F) × QuarterMap T)
  as_of ladder issued_ms from_ms to_ms =
      if ltb_ℤ to_ms from_ms
      then none
      else some (as_of_loop ladder.by_target issued_ms from_ms to_ms ([], []))

  unfoldable pub records_before : List (GridRecord T F) → ℤ → ℤ → List (GridRecord T F)
  records_before records from_ms before_ms =
      filter
        (λ r. leb_ℤ from_ms (as_millisecond r.start) && ltb_ℤ (as_millisecond r.start) before_ms)
        records

module _ {T : Type 0} where
  abbrev pub issue_of : QuarterStart → Option (QuarterMap T) → Option T
  issue_of q none = none
  issue_of q (some issued) = get_quarter q issued

module _ {T F : Type 0} where
  unfoldable pub source :
      QuarterStart
      → QuarterMap F
      → QuarterMap F
      → QuarterMap F
      → Option (QuarterMap T)
      → InputSource T
  source q forecast extended merged issued =
      if is_some (get_quarter q forecast)
      then vintage (issue_of q issued)
      else if is_some (get_quarter q extended)
      then extension
      else if is_some (get_quarter q merged)
      then actual
      else missing

module _ {F : Type 0} ⦃d : Double F⦄ where
  abbrev pub indicator : Bool → F
  indicator flag = if flag then number 1 else number 0

  -- Of the three neighbour areas.
  abbrev pub missing_fraction : ℕ → F
  missing_fraction present = d.div (number (3 - present)) (number 3)
