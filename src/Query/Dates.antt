-- ===== src/Query/Dates.antt =====
-- The instants and dates of `crates/domain/src/query.rs`. A text is the list of its characters' codes;
-- the code refuses every byte outside ASCII in these formats.
use spot_price.Prelude.{
  ℕ, ◌+◌, ◌-◌, ◌*◌, not, ◌&&◌, ◌||◌, Option, none, some, [], ◌∷◌, ◌++◌, map, ◌==◌, leb,
  if◌then◌else◌, unwrap_or, take, drop,
}
use spot_price.Prelude.Int.{ℤ, pos, ◌-ℤ◌}
use spot_price.Prelude.Text.{Text, is_digit}
use spot_price.Js.Numerals.{digit_count}
use spot_price.Jiff.{Date, Calendar, Offsets}

infixl 5 ◌>>=◌
abbrev ◌>>=◌ {ℓ κ} : {A : Type ℓ} {B : Type κ} → Option A → (A → Option B) → Option B
none >>= f = none
some a >>= f = f a

unfoldable pub two_digits : ℕ → ℕ → Option ℕ
two_digits tens ones =
    if is_digit tens && is_digit ones then some ((tens - b'0') * 10 + (ones - b'0')) else none

-- `Option::filter` by an upper bound.
abbrev at_most : ℕ → Option ℕ → Option ℕ
at_most bound none = none
at_most bound (some n) = if leb n bound then some n else none

-- Exactly `YYYY-MM-DD`, a date of the calendar.
unfoldable pub parse_iso_date : ⦃c : Calendar⦄ → Text → Option Date
unfolding two_digits
parse_iso_date ⦃c⦄ (y1 ∷ y2 ∷ y3 ∷ y4 ∷ dash ∷ m1 ∷ m2 ∷ dash' ∷ d1 ∷ d2 ∷ []) =
    let fields : Option Date = (do
      century ← two_digits y1 y2
      years ← two_digits y3 y4
      month ← two_digits m1 m2
      day ← two_digits d1 d2
      c.date (pos (century * 100 + years)) month day) in
    if dash == b'-' && dash' == b'-' then fields else none
parse_iso_date ⦃c⦄ _ = none

abbrev digits_value : ℕ → Text → ℕ
digits_value acc [] = acc
digits_value acc (c ∷ cs) = digits_value (acc * 10 + (c - b'0')) cs

-- The milliseconds of a fraction, and what follows it.
abbrev parse_fraction : Text → Option (ℕ × Text)
parse_fraction [] = some (0, [])
parse_fraction (c ∷ fraction) =
    let digits = digit_count fraction in
    let milliseconds =
      digits_value 0 (take 3 (take digits fraction ++ (b'0' ∷ b'0' ∷ b'0' ∷ []))) in
    if not (c == b'.')
    then some (0, c ∷ fraction)
    else if digits == 0
    then none
    else some (milliseconds, drop digits fraction)

-- The second and the millisecond, and what follows them.
abbrev parse_seconds : Text → Option (ℕ × ℕ × Text)
parse_seconds (colon ∷ s1 ∷ s2 ∷ rest) =
    let fields : Option (ℕ × ℕ × Text) = (do
      second ← at_most 59 (two_digits s1 s2)
      (milliseconds, after) ← parse_fraction rest
      some (second, milliseconds, after)) in
    if colon == b':' then fields else some (0, 0, colon ∷ s1 ∷ s2 ∷ rest)
parse_seconds rest = some (0, 0, rest)

-- The offset from UTC, in seconds.
abbrev parse_offset : Text → Option ℤ
parse_offset (z ∷ []) = if z == b'Z' then some (pos 0) else none
parse_offset (sign ∷ h1 ∷ h2 ∷ colon ∷ m1 ∷ m2 ∷ []) =
    let fields : Option ℤ = (do
      hours ← at_most 23 (two_digits h1 h2)
      minutes ← at_most 59 (two_digits m1 m2)
      let seconds = pos (hours * 3600 + minutes * 60)
      some (if sign == b'-' then pos 0 -ℤ seconds else seconds)) in
    if (sign == b'+' || sign == b'-') && colon == b':' then fields else none
parse_offset _ = none

-- The hour, the minute, and what follows them.
abbrev parse_clock : Text → Option (ℕ × ℕ × Text)
parse_clock (t ∷ h1 ∷ h2 ∷ colon ∷ m1 ∷ m2 ∷ rest) =
    let fields : Option (ℕ × ℕ × Text) = (do
      hour ← at_most 23 (two_digits h1 h2)
      minute ← at_most 59 (two_digits m1 m2)
      some (hour, minute, rest)) in
    if t == b'T' && colon == b':' then fields else none
parse_clock _ = none

module _ {T : Type 0} ⦃c : Calendar⦄ ⦃o : Offsets T⦄ where
  -- `YYYY-MM-DDTHH:MM[:SS[.fraction]]` with `Z` or an offset; a space is read as `+`.
  unfoldable pub parse_query_instant : Text → Option T
  unfolding parse_iso_date
  parse_query_instant text = do
    let text' = map (λ x. if x == b' ' then b'+' else x) text
    date ← parse_iso_date (take 10 text')
    (hour, minute, rest) ← parse_clock (drop 10 text')
    (second, milliseconds, after) ← parse_seconds rest
    seconds ← parse_offset after
    local ← o.date_time date.year date.month date.day hour minute second (milliseconds * 1_000_000)
    offset ← o.from_seconds seconds
    some (unwrap_or (o.to_timestamp offset local) o.latest)
