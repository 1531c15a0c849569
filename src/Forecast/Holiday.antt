-- ===== src/Forecast/Holiday.antt =====
-- `crates/domain/src/forecast/holiday.rs`: Easter and the Finnish public holidays.
pub mod Easter
use spot_price.Prelude.{
  ℕ, ◌+◌, Bool, true, false, ◌&&◌, ◌||◌, Option, none, some, List, [], ◌∷◌, ◌==◌, leb, any,
  if◌then◌else◌,
}
use spot_price.Prelude.Int.{
  ℤ, pos, negsuc, ◌+ℤ◌, ◌-ℤ◌, ◌*ℤ◌, leb_ℤ, eq_ℤ, div_euclid, rem_euclid, div_trunc, rem_trunc,
}
use spot_price.Jiff.{same_date, Date, Calendar, Weekdays}

-- The month and the day of Easter Sunday, by the anonymous Gregorian algorithm.
unfoldable pub easter_month_day : ℤ → ℤ × ℤ
easter_month_day year =
    let a = pos (rem_euclid year 19) in
    let b = div_euclid year 100 in
    let c = pos (rem_euclid year 100) in
    let d = div_trunc b 4 in
    let e = rem_trunc b 4 in
    let f = div_trunc (b +ℤ pos 8) 25 in
    let g = div_trunc (b -ℤ f +ℤ pos 1) 3 in
    let h = pos (rem_euclid (pos 19 *ℤ a +ℤ b -ℤ d -ℤ g +ℤ pos 15) 30) in
    let i = div_trunc c 4 in
    let k = rem_trunc c 4 in
    let l = pos (rem_euclid (pos 32 +ℤ pos 2 *ℤ e +ℤ pos 2 *ℤ i -ℤ h -ℤ k) 7) in
    let m = div_trunc (a +ℤ pos 11 *ℤ h +ℤ pos 22 *ℤ l) 451 in
    let month = div_trunc (h +ℤ l -ℤ pos 7 *ℤ m +ℤ pos 114) 31 in
    let day = rem_trunc (h +ℤ l -ℤ pos 7 *ℤ m +ℤ pos 114) 31 +ℤ pos 1 in (month, day)

-- `i8::try_from`, with the negative numbers, which no date has, as none.
abbrev to_i8 : ℤ → Option ℕ
to_i8 (pos n) = if leb n 127 then some n else none
to_i8 (negsuc n) = none

infixl 5 ◌>>=◌
abbrev ◌>>=◌ {ℓ κ} : {A : Type ℓ} {B : Type κ} → Option A → (A → Option B) → Option B
none >>= f = none
some a >>= f = f a

unfoldable pub easter_sunday : ⦃c : Calendar⦄ → ℤ → Option Date
unfolding easter_month_day
easter_sunday ⦃c⦄ year = do
  let parts = easter_month_day year
  month ← to_i8 parts.0
  day ← to_i8 parts.1
  c.date year month day

-- The fixed holidays, as months and days.
abbrev fixed_holidays : List (ℕ × ℕ)
fixed_holidays = (1, 1) ∷ (1, 6) ∷ (5, 1) ∷ (12, 6) ∷ (12, 24) ∷ (12, 25) ∷ (12, 26) ∷ []

-- Good Friday, Easter Sunday, Easter Monday, Ascension Day, Pentecost.
abbrev easter_offsets : List ℤ
easter_offsets = negsuc 1 ∷ pos 0 ∷ pos 1 ∷ pos 39 ∷ pos 49 ∷ []

module _ ⦃w : Weekdays⦄ where
  abbrev weekday_between : Date → ℕ → ℕ → ℕ → Bool
  weekday_between day weekday month first =
      w.weekday day == weekday && day.month == month && leb first day.day && leb day.day (first + 6)

  -- Whether an Easter-based holiday is the day.
  abbrev is_easter_holiday : Date → Option Date → Bool
  is_easter_holiday day none = false
  is_easter_holiday day (some easter) =
      any (λ offset. is_date day (w.add_days easter offset)) easter_offsets
    where
      is_date : Date → Option Date → Bool
      is_date day none = false
      is_date day (some holiday) = same_date holiday day

  -- A date of jiff has months from 1 and days from 1; Friday is 5 and Saturday 6.
  unfoldable pub is_finnish_public_holiday : ⦃c : Calendar⦄ → Date → Bool
  unfolding easter_sunday
  is_finnish_public_holiday day =
      let is_fixed = any (λ f. day.month == f.0 && day.day == f.1) fixed_holidays in
      let all_saints =
        w.weekday day == 6
        && ((day.month == 10 && day.day == 31) || (day.month == 11 && leb day.day 6)) in
      is_fixed
      || weekday_between day 5 6 19
      || weekday_between day 6 6 20
      || all_saints
      || is_easter_holiday day (easter_sunday day.year)
