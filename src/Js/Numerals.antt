-- ===== src/Js/Numerals.antt =====
-- The text functions of `crates/domain/src/js.rs`. A text is the list of its characters' codes. A
-- byte of a character outside ASCII is refused wherever its code is, so that the tests on bytes are
-- tests on codes here.
pub mod Trim
use spot_price.Prelude.{
  ℕ, zero, suc, ◌+◌, ◌-◌, ◌*◌, ◌/◌, ◌%◌, ◌^◌, min, Bool, true, false, not, ◌&&◌, ◌||◌, Option, none,
  some, List, [], ◌∷◌, ◌++◌, ◌==◌, ltb, leb, if◌then◌else◌, unwrap_or, length, take, drop, any,
}
use mathlib.Core.Option
use Prim.Native.Nat.{compare, Ordering}
use spot_price.Prelude.Int.{ℤ, pos, negsuc, ◌+ℤ◌, ◌-ℤ◌, ◌*ℤ◌, div_euclid, div_trunc, pos_part}
use spot_price.Prelude.Text.{Text, codes, text_eq, is_digit}
use spot_price.Float.{Double, Conversions, number}

-- `WhiteSpace` or `LineTerminator` of ECMAScript.
unfoldable pub is_js_whitespace : ℕ → Bool
is_js_whitespace c =
    (leb 0x9 c && leb c 0xD)
    || c == 0x20
    || c == 0xA0
    || c == 0x1680
    || (leb 0x2000 c && leb c 0x200A)
    || c == 0x2028
    || c == 0x2029
    || c == 0x202F
    || c == 0x205F
    || c == 0x3000
    || c == 0xFEFF

abbrev pub trim_start : (ℕ → Bool) → Text → Text
trim_start p [] = []
trim_start p (c ∷ cs) = let rest = trim_start p cs in if p c then rest else c ∷ cs

abbrev pub is_empty {ℓ} : {A : Type ℓ} → List A → Bool
is_empty [] = true
is_empty (x ∷ xs) = false

abbrev pub trim_end : (ℕ → Bool) → Text → Text
trim_end p [] = []
trim_end p (c ∷ cs) = let rest = trim_end p cs in if p c && is_empty rest then [] else c ∷ rest

-- `String.prototype.trim`, by `str::trim_matches`.
unfoldable pub js_trim : Text → Text
unfolding is_js_whitespace
js_trim text = trim_end is_js_whitespace (trim_start is_js_whitespace text)

abbrev pub without_sign : Text → Text
without_sign [] = []
without_sign (c ∷ rest) = if c == b'+' || c == b'-' then rest else c ∷ rest

-- How many digits a text starts with.
abbrev pub digit_count : Text → ℕ
digit_count [] = 0
digit_count (c ∷ rest) = let n = digit_count rest in if is_digit c then suc n else 0

abbrev all_digits : Text → Bool
all_digits [] = true
all_digits (c ∷ rest) = is_digit c && all_digits rest

-- The digits of a fraction, counted, and what follows it.
abbrev after_fraction : Text → ℕ × Text
after_fraction [] = (0, [])
after_fraction (c ∷ after) =
    if c == b'.' then (digit_count after, drop (digit_count after) after) else (0, c ∷ after)

abbrev is_exponent : Text → Bool
is_exponent [] = true
is_exponent (c ∷ exponent) =
    let digits = without_sign exponent in
    (c == b'e' || c == b'E') && not (is_empty digits) && all_digits digits

unfoldable pub is_decimal_literal : Text → Bool
is_decimal_literal text =
    let rest = without_sign text in
    let integer_digits = digit_count rest in
    let after = after_fraction (drop integer_digits rest) in
    if integer_digits == 0 && after.0 == 0 then false else is_exponent after.1

-- `char::to_digit`.
abbrev to_digit : ℕ → ℕ → Option ℕ
to_digit radix c =
    let value =
      if is_digit c
      then some (c - b'0')
      else if leb b'a' c && leb c b'z'
      then some (c - b'a' + 10)
      else if leb b'A' c && leb c b'Z'
      then some (c - b'A' + 10)
      else none in
    elim value [ none ↦ none | some v ↦ if ltb v radix then some v else none ]

-- The bits of a digit, the highest first.
abbrev digit_bits : ℕ → ℕ → List Bool
digit_bits zero value = []
digit_bits (suc shift) value = (value / 2 ^ shift % 2 == 1) ∷ digit_bits shift value

abbrev all_bits : ℕ → Text → Option (List Bool)
all_bits k [] = some []
all_bits k (c ∷ digits) =
    let rest = all_bits k digits in
    elim (to_digit (2 ^ k) c) [
      | none ↦ none
      | some value ↦ Option.map (λ bits. digit_bits k value ++ bits) rest
    ]

-- The bits from the first one on.
abbrev significant : List Bool → List Bool
significant [] = []
significant (b ∷ bits) = let rest = significant bits in if b then b ∷ bits else rest

abbrev bits_value : ℕ → List Bool → ℕ
bits_value acc [] = acc
bits_value acc (b ∷ bits) = bits_value (acc * 2 + (if b then 1 else 0)) bits

-- Whether the bits after the mantissa round it up.
abbrev rounds_up : ℕ → List Bool → Bool
rounds_up mantissa [] = false
rounds_up mantissa (round_bit ∷ sticky) = round_bit && (any (λ b. b) sticky || mantissa % 2 == 1)

-- The mantissa and the exponent of the significant bits.
abbrev round_bits : List Bool → ℕ × ℕ
round_bits bits =
    let mantissa = bits_value 0 (take 53 bits) in
    let exponent = length bits - 53 in
    if rounds_up mantissa (drop 53 bits)
    then (if mantissa + 1 == 2 ^ 53
        then ((mantissa + 1) / 2, exponent + 1)
        else (mantissa + 1, exponent))
    else (mantissa, exponent)

-- The base of a prefix, in bits per digit, and the digits.
abbrev radix_prefix : Text → Option (ℕ × Text)
radix_prefix [] = none
radix_prefix (z ∷ []) = none
radix_prefix (z ∷ p ∷ digits) =
    if not (z == b'0')
    then none
    else if p == b'x' || p == b'X'
    then some (4, digits)
    else if p == b'o' || p == b'O'
    then some (3, digits)
    else if p == b'b' || p == b'B'
    then some (1, digits)
    else none

module _ {F : Type 0} ⦃d : Double F⦄ ⦃v : Conversions F⦄ where
  open d use {lit, infinity, neg_infinity, nan, add, sub, mul, div, lt, le, is_finite}
  open v use {parse, from_bits, trunc, abs, rem_euclid, to_i64}

  abbrev power_of_two : ℕ → F
  power_of_two exponent =
      if ltb 1023 exponent then infinity else from_bits ((exponent + 1023) * 2 ^ 52 % 2 ^ 64)

  abbrev significant_number : List Bool → F
  significant_number [] = number 0
  significant_number (b ∷ bits) =
      let (mantissa, exponent) = round_bits (b ∷ bits) in
      if ltb 2_147_483_647 (length (b ∷ bits))
      then infinity
      else mul (number mantissa) (power_of_two exponent)

  unfoldable pub radix_to_number : Text → ℕ → F
  radix_to_number digits bits_per_digit = elim (all_bits bits_per_digit digits) [
    | none ↦ nan
    | some bits ↦ if is_empty digits then nan else significant_number (significant bits)
  ]

  -- `Number(text)`.
  unfoldable pub string_to_number : Text → F
  unfolding js_trim is_decimal_literal radix_to_number
  string_to_number text =
      let t = js_trim text in
      let literal = if is_decimal_literal t then unwrap_or (parse t) nan else nan in
      if is_empty t
      then number 0
      else if text_eq t (codes "Infinity") || text_eq t (codes "+Infinity")
      then infinity
      else if text_eq t (codes "-Infinity")
      then neg_infinity
      else elim (radix_prefix t) [
        | none ↦ literal
        | some (bits_per_digit, digits) ↦ radix_to_number digits bits_per_digit
      ]

-- The UTF-16 code units of a text.
abbrev pub encode_utf16 : Text → List ℕ
encode_utf16 [] = []
encode_utf16 (c ∷ cs) =
    let rest = encode_utf16 cs in
    if ltb c 0x10000
    then c ∷ rest
    else (0xD800 + (c - 0x10000) / 0x400) ∷ (0xDC00 + (c - 0x10000) % 0x400) ∷ rest

abbrev pub compare_units : List ℕ → List ℕ → Ordering
compare_units [] [] = Ordering.eq
compare_units [] (d ∷ ds) = Ordering.lt
compare_units (c ∷ cs) [] = Ordering.gt
compare_units (c ∷ cs) (d ∷ ds) =
    let rest = compare_units cs ds in
    elim (compare c d) [
      | Ordering.eq ↦ rest
      | Ordering.lt ↦ Ordering.lt
      | Ordering.gt ↦ Ordering.gt
    ]

unfoldable pub compare_utf16 : Text → Text → Ordering
compare_utf16 a b = compare_units (encode_utf16 a) (encode_utf16 b)

-- Days from 1970-01-01 to the first day of a month, 1 to 12.
unfoldable pub days_from_civil : ℤ → ℕ → ℤ
days_from_civil year month =
    let year' = if leb month 2 then year -ℤ pos 1 else year in
    let era = div_euclid year' 400 in
    let year_of_era = year' -ℤ era *ℤ pos 400 in
    let month_index = (month + 9) % 12 in
    let day_of_year = (153 * month_index + 2) / 5 in
    let day_of_era =
      year_of_era *ℤ pos 365
      +ℤ div_trunc year_of_era 4
      -ℤ div_trunc year_of_era 100
      +ℤ pos day_of_year in
    era *ℤ pos 146_097 +ℤ day_of_era -ℤ pos 719_468

module _ {F : Type 0} ⦃d : Double F⦄ ⦃v : Conversions F⦄ where
  open d use {lit, nan, add, sub, mul, div, floor, lt, le, is_finite}
  open v use {trunc, abs, rem_euclid, to_i64}

  -- `Number(text.slice(start, end))` by UTF-16 code units.
  unfoldable pub number_of_utf16_slice : Text → ℕ → ℕ → F
  unfolding string_to_number
  number_of_utf16_slice text start end =
      let units = encode_utf16 text in
      let end' = min end (length units) in
      let start' = min start end' in
      let slice = take (end' - start') (drop start' units) in
      if any (λ unit. leb 0xD800 unit && leb unit 0xDFFF) slice then nan else string_to_number slice

  -- `Date.UTC(year, month, day)`.
  unfoldable pub date_utc : F → F → F → F
  unfolding days_from_civil
  date_utc year month day =
      let whole_year = trunc year in
      let two_digits = le (number 0) whole_year && le whole_year (number 99) in
      let year' = trunc (if two_digits then add (number 1900) whole_year else year) in
      let month' = trunc month in
      let day' = trunc day in
      let year'' = add year' (floor (div month' (number 12))) in
      let month'' = rem_euclid month' (number 12) in
      let days = days_from_civil (to_i64 year'') (pos_part (to_i64 month'' +ℤ pos 1)) in
      let time = mul (sub (add (lit days) day') (number 1)) (number 86_400_000) in
      if not (is_finite year && is_finite month && is_finite day)
      then nan
      else if lt (number 1_000_000) (abs year'') || lt (number 1_000_000_000) (abs day')
      then nan
      else if lt (number 8_640_000_000_000_000) (abs time)
      then nan
      else add time (number 0)
