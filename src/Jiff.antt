-- ===== src/Jiff.antt =====
-- What the program calls of the `jiff` crate: instants, civil dates and time zones. The types are
-- parameters, and the laws are what the documentation of the crate says of the calls.
pub mod Nanos
use spot_price.Prelude.{
  ℕ, ◌*◌, String, Bool, true, false, Option, none, some, ◌≡◌, ◌==◌, ◌&&◌, arith,
}
use spot_price.Prelude.Int.{ℤ, pos, ◌*ℤ◌, ◌+ℤ◌, ◌≤ℤ◌, leb_ℤ, ltb_ℤ, eq_ℤ, div_trunc}

abbrev pub millisecond : ℕ
millisecond = 1_000_000

-- `jiff::Timestamp`
pub record Instant (T : Type 0) : Type 0 where
  -- nanoseconds since the epoch, which is all that an instant holds
  pub as_nanosecond : T → ℤ
  pub as_millisecond : T → ℤ
  pub from_millisecond : ℤ → Option T
  -- `checked_add` of a duration in nanoseconds
  pub checked_add : T → ℤ → Option T
  pub le : T → T → Bool
  pub lt : T → T → Bool
  pub eq : T → T → Bool

pub record IsInstant (T : Type 0) ⦃i : Instant T⦄ : Type 0 where
  pub le-eq : (a b : T) → i.le a b ≡ leb_ℤ (i.as_nanosecond a) (i.as_nanosecond b)
  pub lt-eq : (a b : T) → i.lt a b ≡ ltb_ℤ (i.as_nanosecond a) (i.as_nanosecond b)
  pub eq_lem : (a b : T) → i.eq a b ≡ true → a ≡ b
  pub eq_refl : (a : T) → i.eq a a ≡ true
  pub millisecond-eq : (a : T) → i.as_millisecond a ≡ div_trunc (i.as_nanosecond a) millisecond
  pub checked_add-eq :
      (a : T) (d : ℤ) (b : T)
      → i.checked_add a d ≡ some b
      → i.as_nanosecond b ≡ i.as_nanosecond a +ℤ d
  pub from_millisecond-eq :
      (m : ℤ) (a : T) → i.from_millisecond m ≡ some a → i.as_nanosecond a ≡ m *ℤ pos millisecond

-- `jiff::civil::Date` and `DateTime`
pub record Date : Type 0 where
  pub year : ℤ
  pub month : ℕ
  pub day : ℕ

-- `==` of dates.
abbrev pub same_date : Date → Date → Bool
same_date a b = eq_ℤ a.year b.year && a.month == b.month && a.day == b.day

pub same_date_lem : (a b : Date) → same_date a b ≡ true → a ≡ b
same_date_lem a b h = ground arith

pub same_date_refl : (a : Date) → same_date a a ≡ true
same_date_refl a = ground arith

pub record DateTime : Type 0 where
  pub date : Date
  pub hour : ℕ
  pub minute : ℕ
  pub second : ℕ

pub record Calendar : Type 0 where
  -- `Date::new`, which refuses a date that the calendar does not have
  pub date : ℤ → ℕ → ℕ → Option Date
  pub tomorrow : Date → Option Date

-- `date.weekday()`, with Sunday as 0, and `checked_add` of days.
pub record Weekdays : Type 0 where
  pub weekday : Date → ℕ
  pub add_days : Date → ℤ → Option Date

-- A civil time at an offset from UTC: `DateTime::new` with the nanoseconds of its second,
-- `Offset::from_seconds`, `Offset::to_timestamp` and `Timestamp::MAX`.
pub record Offsets (T : Type 0) : Type 0 where
  pub date_time : ℤ → ℕ → ℕ → ℕ → ℕ → ℕ → ℕ → Option (DateTime × ℕ)
  pub from_seconds : ℤ → Option ℤ
  pub to_timestamp : ℤ → DateTime × ℕ → Option T
  pub latest : T

-- `jiff::tz::TimeZone`: the bundled database, and what a zone says of an instant.
pub record ZoneDatabase (Z : Type 0) : Type 0 where
  pub get : String → Option Z

pub record Zoned (T Z : Type 0) : Type 0 where
  pub to_offset : Z → T → ℤ
  pub to_datetime : Z → T → DateTime
  -- `date.to_zoned(zone)`, its `start_of_day` and its timestamp
  pub start_of_day : Date → Z → Option T

-- `AmbiguousTimestamp::offset`: how often a civil time stands on the clocks of a zone.
pub data AmbiguousOffset : Type 0 where
  unambiguous : AmbiguousOffset
  gap : AmbiguousOffset
  -- twice; the offset of the later one
  fold : ℤ → AmbiguousOffset

-- `zone.to_ambiguous_timestamp`, and the instants that it offers.
pub record Ambiguity (T Z : Type 0) : Type 0 where
  pub offset : Z → DateTime → AmbiguousOffset
  pub compatible : Z → DateTime → Option T
  pub earlier : Z → DateTime → Option T
  pub later : Z → DateTime → Option T
