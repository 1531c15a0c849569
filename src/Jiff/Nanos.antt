-- ===== src/Jiff/Nanos.antt =====
-- A concrete clock and calendar that meet the laws: instants are whole nanoseconds, a zone is a fixed
-- offset, and the civil dates are those of the Gregorian calendar from 1970 on.
use spot_price.Prelude.{
  ℕ, ◌+◌, ◌-◌, ◌*◌, ◌/◌, ◌%◌, Bool, none, some, ◌==◌, ltb, leb, ◌&&◌, ◌||◌, not, if◌then◌else◌,
  arith, refl, str_eq,
}
use spot_price.Prelude.Int.{ℤ, pos, ◌+ℤ◌, ◌-ℤ◌, ◌*ℤ◌, leb_ℤ, ltb_ℤ, div_trunc, div_euclid, pos_part}
use spot_price.Js.Numerals.{days_from_civil}
use spot_price.Jiff.{
  Offsets, DateTime, Instant, IsInstant, Date, Calendar, ZoneDatabase, Zoned, millisecond, Weekdays,
  Ambiguity, unambiguous,
}

abbrev eq_ℤ : ℤ → ℤ → Bool
eq_ℤ a b = leb_ℤ a b && leb_ℤ b a

instance abbrev pub nanos : Instant ℤ
nanos = record {
  as_nanosecond = λ t. t;
  as_millisecond = λ t. div_trunc t millisecond;
  from_millisecond = λ m. some (m *ℤ pos millisecond);
  checked_add = λ t d. some (t +ℤ d);
  le = leb_ℤ;
  lt = ltb_ℤ;
  eq = eq_ℤ;
}

pub nanos-IsInstant : IsInstant ℤ
nanos-IsInstant = record {
  le-eq = λ a b. refl;
  lt-eq = λ a b. refl;
  eq_lem = ground arith;
  eq_refl = ground arith;
  millisecond-eq = λ a. refl;
  checked_add-eq = λ a d b h. ground (arith, h);
  from_millisecond-eq = λ m a h. ground arith;
}

abbrev is_leap : ℕ → Bool
is_leap y = y % 4 == 0 && not (y % 100 == 0) || y % 400 == 0

abbrev days_in_month : ℕ → ℕ → ℕ
days_in_month y m =
    if m == 2
    then (if is_leap y then 29 else 28)
    else if m == 4 || m == 6 || m == 9 || m == 11
    then 30
    else 31

instance abbrev pub gregorian : Calendar
gregorian = record {
  date = λ y m d.
      if leb 1 m && leb m 12 && leb 1 d && leb d (days_in_month (pos_part y) m)
      then some (record { year = y; month = m; day = d })
      else none;
  tomorrow = λ t.
      if ltb t.day (days_in_month (pos_part t.year) t.month)
      then some (record t { day = t.day + 1 })
      else if ltb t.month 12
      then some (record t { month = t.month + 1; day = 1 })
      else some (record { year = t.year +ℤ pos 1; month = 1; day = 1 });
}

-- A zone with one offset from UTC, in seconds.
pub record FixedZone : Type 0 where
  pub offset : ℤ

instance abbrev pub fixed_zones : ZoneDatabase FixedZone
fixed_zones = record {
  get = λ name. if str_eq name "Europe/Helsinki" then some (record { offset = pos 7200 }) else none;
}

abbrev civil : ℕ → Date
civil days =
    let z = days + 719_468 in
    let era = z / 146_097 in
    let doe = z % 146_097 in
    let yoe = (doe + doe / 36_524 - doe / 1460 - doe / 146_096) / 365 in
    let doy = doe - (365 * yoe + yoe / 4 - yoe / 100) in
    let mp = (5 * doy + 2) / 153 in
    let month = if ltb mp 10 then mp + 3 else mp - 9 in
    record {
      year = pos (yoe + era * 400 + (if leb month 2 then 1 else 0));
      month = month;
      day = doy - (153 * mp + 2) / 5 + 1;
    }

-- Days from 1970-01-01, for a year from 1970 on.
abbrev day_number : Date → ℕ
day_number t =
    let y = if leb t.month 2 then pos_part t.year - 1 else pos_part t.year in
    let mp = (t.month + 9) % 12 in
    365 * y + y / 4 + y / 400 - y / 100 + (153 * mp + 2) / 5 + t.day - 1 - 719_468

instance abbrev pub fixed_zoned : Zoned ℤ FixedZone
fixed_zoned = record {
  to_offset = λ z t. z.offset;
  to_datetime = λ z t.
      let local = pos_part (div_euclid t 1_000_000_000 +ℤ z.offset) in
      record {
        date = civil (local / 86_400);
        hour = local / 3600 % 24;
        minute = local / 60 % 60;
        second = local % 60;
      };
  start_of_day = λ date z. some ((pos (day_number date * 86_400) -ℤ z.offset) *ℤ pos 1_000_000_000);
}

abbrev instant_of : ℤ → DateTime × ℕ → ℤ
instant_of offset (local, nanosecond) =
    let days = days_from_civil local.date.year local.date.month +ℤ pos local.date.day -ℤ pos 1 in
    let seconds = pos (local.hour * 3600 + local.minute * 60 + local.second) in
    (days *ℤ pos 86_400 +ℤ seconds -ℤ offset) *ℤ pos 1_000_000_000 +ℤ pos nanosecond

instance abbrev pub fixed_offsets : Offsets ℤ
fixed_offsets = record {
  date_time = λ y m d hour minute second nanosecond. some (
    record {
      date = record { year = y; month = m; day = d };
      hour = hour;
      minute = minute;
      second = second;
    },
    nanosecond,
  );
  from_seconds = λ s. some s;
  to_timestamp = λ offset local. some (instant_of offset local);
  latest = pos 253_402_207_200_000_000_000;
}

-- Dates from 1970 on.
instance abbrev pub fixed_weekdays : Weekdays
fixed_weekdays = record {
  weekday = λ date. (day_number date + 4) % 7;
  add_days = λ date days. some (civil (pos_part (pos (day_number date) +ℤ days)));
}

-- A zone with one offset has every civil time once.
instance abbrev pub fixed_ambiguity : Ambiguity ℤ FixedZone
fixed_ambiguity = record {
  offset = λ z local. unambiguous;
  compatible = λ z local. some (instant_of z.offset (local, 0));
  earlier = λ z local. some (instant_of z.offset (local, 0));
  later = λ z local. some (instant_of z.offset (local, 0));
}
