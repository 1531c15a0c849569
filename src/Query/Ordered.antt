-- ===== src/Query/Ordered.antt =====
-- The order of two date texts, and of their dates.
use Prim.Native.Nat.{Ordering}
use spot_price.Prelude.{
  ℕ, ◌+◌, ◌-◌, ◌*◌, ◌≤◌, Bool, true, false, ◌&&◌, Option, none, some, List, [], ◌∷◌, ◌≡◌, ◌≢◌, ◌⊎◌,
  refl, ap, ◌∙◌, arith, inl, inr, ◌==◌, if◌then◌else◌,
}
use spot_price.Prelude.Int.{pos, pos_part}
use spot_price.Prelude.Text.{Text, is_digit}
use spot_price.Jiff.{Calendar, Date}
use spot_price.Js.Numerals.{compare_utf16, compare_units, encode_utf16}
use spot_price.Time.{◌>>=◌}
use spot_price.Query.Dates.{parse_iso_date, two_digits}

-- `Date::new` gives the date of its arguments.
pub record IsCalendar ⦃c : Calendar⦄ : Type 0 where
  pub date-eq :
      (year : _) (month day : ℕ) (found : Date)
      → c.date year month day ≡ some found
      → (found.year ≡ year) × (found.month ≡ month) × (found.day ≡ day)

-- The number YYYYMMDD of a date.
abbrev pub date_number : Date → ℕ
date_number date = pos_part date.year * 10_000 + date.month * 100 + date.day

-- The number of the digits of a text, behind those of `acc`; dashes are left out.
abbrev text_number : ℕ → Text → ℕ
text_number acc [] = acc
text_number acc (c ∷ cs) =
    let rest = text_number (acc * 10 + (c - b'0')) cs in
    let skipped = text_number acc cs in if c == b'-' then skipped else rest

-- Texts with digits and dashes at the same places.
abbrev AreAlike : Text → Text → Type 0
AreAlike [] [] = Unit
AreAlike (c ∷ cs) (d ∷ ds) =
    (((is_digit c ≡ true) × (is_digit d ≡ true)) ⊎ ((c ≡ b'-') × (d ≡ b'-'))) × AreAlike cs ds
AreAlike _ _ = ⊥

text_number_mono :
    (xs ys : Text) (m n : ℕ)
    → AreAlike xs ys
    → m ≤ n
    → (m ≡ n → compare_units xs ys ≢ Ordering.gt)
    → text_number m xs ≤ text_number n ys
text_number_mono [] [] m n alike h k = h
text_number_mono (a ∷ xs) (b ∷ ys) m n (inl (p, q), alike) h k =
    let rest = text_number_mono xs ys (m * 10 + (a - 48)) (n * 10 + (b - 48)) alike in
    ground (arith, p, q, rest, h, k)
text_number_mono (a ∷ xs) (b ∷ ys) m n (inr (p, q), alike) h k =
    let rest = text_number_mono xs ys m n alike h in ground (arith, p, q, rest, k)
text_number_mono [] (b ∷ ys) m n alike h k = absurd alike
text_number_mono (a ∷ xs) [] m n alike h k = absurd alike

abbrev IsDigit : ℕ → Type 0
IsDigit c = is_digit c ≡ true

-- A text with digits where a place is `true`, and dashes where it is `false`.
abbrev IsShaped : List Bool → Text → Type 0
IsShaped [] [] = Unit
IsShaped (true ∷ places) (c ∷ cs) = IsDigit c × IsShaped places cs
IsShaped (false ∷ places) (c ∷ cs) = (c ≡ b'-') × IsShaped places cs
IsShaped _ _ = ⊥

abbrev date_places : List Bool
date_places = true ∷ true ∷ true ∷ true ∷ false ∷ true ∷ true ∷ false ∷ true ∷ true ∷ []

IsShaped-AreAlike :
    (places : List Bool) (xs ys : Text) → IsShaped places xs → IsShaped places ys → AreAlike xs ys
IsShaped-AreAlike [] [] [] p q = tt
IsShaped-AreAlike (true ∷ places) (x ∷ xs) (y ∷ ys) (p, ps) (q, qs) =
    (inl (p, q), IsShaped-AreAlike places xs ys ps qs)
IsShaped-AreAlike (false ∷ places) (x ∷ xs) (y ∷ ys) (p, ps) (q, qs) =
    (inr (p, q), IsShaped-AreAlike places xs ys ps qs)
IsShaped-AreAlike [] (x ∷ xs) ys p q = absurd p
IsShaped-AreAlike [] [] (y ∷ ys) p q = absurd q
IsShaped-AreAlike (true ∷ places) [] ys p q = absurd p
IsShaped-AreAlike (true ∷ places) (x ∷ xs) [] p q = absurd q
IsShaped-AreAlike (false ∷ places) [] ys p q = absurd p
IsShaped-AreAlike (false ∷ places) (x ∷ xs) [] p q = absurd q

AreAlike-encode : (xs ys : Text) → AreAlike xs ys → encode_utf16 xs ≡ xs
AreAlike-encode [] [] h = refl
AreAlike-encode (x ∷ xs) (y ∷ ys) (inl (p, q), h) =
    let rest = AreAlike-encode xs ys h in ground (arith, p, rest)
AreAlike-encode (x ∷ xs) (y ∷ ys) (inr (p, q), h) =
    let rest = AreAlike-encode xs ys h in ground (arith, p, rest)
AreAlike-encode [] (y ∷ ys) h = absurd h
AreAlike-encode (x ∷ xs) [] h = absurd h

two_digits_lem :
    (c d n : ℕ)
    → two_digits c d ≡ some n
    → IsDigit c × IsDigit d × (n ≡ (c - b'0') * 10 + (d - b'0'))
unfolding two_digits
two_digits_lem c d n e = ground (arith, e)

text_number-digit :
    (acc c : ℕ) (cs : Text)
    → IsDigit c
    → text_number acc (c ∷ cs) ≡ text_number (acc * 10 + (c - b'0')) cs
text_number-digit acc c cs h = ground (arith, h)

text_number-dash :
    (acc c : ℕ) (cs : Text) → c ≡ b'-' → text_number acc (c ∷ cs) ≡ text_number acc cs
text_number-dash acc c cs h = ground (arith, h)

-- The number of a date text, by its fields.
text_number-date :
    (y1 y2 y3 y4 dash m1 m2 dash' d1 d2 century years month day : ℕ)
    → IsShaped date_places (y1 ∷ y2 ∷ y3 ∷ y4 ∷ dash ∷ m1 ∷ m2 ∷ dash' ∷ d1 ∷ d2 ∷ [])
    → century ≡ (y1 - b'0') * 10 + (y2 - b'0')
    → years ≡ (y3 - b'0') * 10 + (y4 - b'0')
    → month ≡ (m1 - b'0') * 10 + (m2 - b'0')
    → day ≡ (d1 - b'0') * 10 + (d2 - b'0')
    → text_number 0 (y1 ∷ y2 ∷ y3 ∷ y4 ∷ dash ∷ m1 ∷ m2 ∷ dash' ∷ d1 ∷ d2 ∷ [])
      ≡ (century * 100 + years) * 10_000 + month * 100 + day
text_number-date y1 y2 y3 y4 dash m1 m2 dash' d1 d2 century years month day
      (p1, (p2, (p3, (p4, (first, (p5, (p6, (second, (p7, (p8, _)))))))))) c y m d =
    let n1 : ℕ = 0 * 10 + (y1 - b'0') in
    let n2 : ℕ = n1 * 10 + (y2 - b'0') in
    let n3 : ℕ = n2 * 10 + (y3 - b'0') in
    let n4 : ℕ = n3 * 10 + (y4 - b'0') in
    let n5 : ℕ = n4 * 10 + (m1 - b'0') in
    let n6 : ℕ = n5 * 10 + (m2 - b'0') in
    let n7 : ℕ = n6 * 10 + (d1 - b'0') in
    let n8 : ℕ = n7 * 10 + (d2 - b'0') in
    let end : text_number n8 [] ≡ (century * 100 + years) * 10_000 + month * 100 + day =
      omega (arith, c, y, m, d) in
    text_number-digit 0 y1 (y2 ∷ y3 ∷ y4 ∷ dash ∷ m1 ∷ m2 ∷ dash' ∷ d1 ∷ d2 ∷ []) p1
    ∙ text_number-digit n1 y2 (y3 ∷ y4 ∷ dash ∷ m1 ∷ m2 ∷ dash' ∷ d1 ∷ d2 ∷ []) p2
    ∙ text_number-digit n2 y3 (y4 ∷ dash ∷ m1 ∷ m2 ∷ dash' ∷ d1 ∷ d2 ∷ []) p3
    ∙ text_number-digit n3 y4 (dash ∷ m1 ∷ m2 ∷ dash' ∷ d1 ∷ d2 ∷ []) p4
    ∙ text_number-dash n4 dash (m1 ∷ m2 ∷ dash' ∷ d1 ∷ d2 ∷ []) first
    ∙ text_number-digit n4 m1 (m2 ∷ dash' ∷ d1 ∷ d2 ∷ []) p5
    ∙ text_number-digit n5 m2 (dash' ∷ d1 ∷ d2 ∷ []) p6
    ∙ text_number-dash n6 dash' (d1 ∷ d2 ∷ []) second
    ∙ text_number-digit n6 d1 (d2 ∷ []) p7
    ∙ text_number-digit n7 d2 [] p8
    ∙ end

-- A chain with a result has a first part with one.
bind-some :
    {A B : Type 0} (o : Option A) (f : A → Option B) (b : B)
    → (o >>= f) ≡ some b
    → (a : A) × (o ≡ some a) × (f a ≡ some b)
bind-some none f b h = ground (arith, h)
bind-some (some a) f b h = (a, refl, h)

if-some :
    {A : Type 0} (b : Bool) (o : Option A) (a : A)
    → (if b then o else none) ≡ some a
    → (b ≡ true) × (o ≡ some a)
if-some true o a h = (refl, h)
if-some false o a h = ground (arith, h)

module _ ⦃c : Calendar⦄ (laws : IsCalendar) where
  parse_iso_date_lem :
      (text : Text) (found : Date)
      → parse_iso_date text ≡ some found
      → IsShaped date_places text × (date_number found ≡ text_number 0 text)
  unfolding parse_iso_date
  parse_iso_date_lem (y1 ∷ y2 ∷ y3 ∷ y4 ∷ dash ∷ m1 ∷ m2 ∷ dash' ∷ d1 ∷ d2 ∷ []) found e =
      let (dashes, fields) = if-some (dash == b'-' && dash' == b'-') _ found e in
      let (century, a, rest) = bind-some (two_digits y1 y2) _ found fields in
      let (years, b, rest') = bind-some (two_digits y3 y4) _ found rest in
      let (month, m, rest'') = bind-some (two_digits m1 m2) _ found rest' in
      let (day, n, made) = bind-some (two_digits d1 d2) _ found rest'' in
      let (p1, p2, century_eq) = two_digits_lem y1 y2 century a in
      let (p3, p4, years_eq) = two_digits_lem y3 y4 years b in
      let (p5, p6, month_eq) = two_digits_lem m1 m2 month m in
      let (p7, p8, day_eq) = two_digits_lem d1 d2 day n in
      let (year_is, month_is, day_is) =
        laws.date-eq (pos (century * 100 + years)) month day found made in
      let first : dash ≡ b'-' = ground (arith, dashes) in
      let second : dash' ≡ b'-' = ground (arith, dashes) in
      let shape : IsShaped date_places (y1 ∷ y2 ∷ y3 ∷ y4 ∷ dash ∷ m1 ∷ m2 ∷ dash' ∷ d1 ∷ d2 ∷ []) =
        (p1, (p2, (p3, (p4, (first, (p5, (p6, (second, (p7, (p8, tt)))))))))) in
      let number =
        text_number-date y1 y2 y3 y4 dash m1 m2 dash' d1 d2 century years month day shape century_eq
          years_eq month_eq day_eq in
      (shape, omega (arith, ap pos_part year_is, month_is, day_is, number))
  parse_iso_date_lem [] found e = ground (arith, e)
  parse_iso_date_lem (x1 ∷ []) found e = ground (arith, e)
  parse_iso_date_lem (x1 ∷ x2 ∷ []) found e = ground (arith, e)
  parse_iso_date_lem (x1 ∷ x2 ∷ x3 ∷ []) found e = ground (arith, e)
  parse_iso_date_lem (x1 ∷ x2 ∷ x3 ∷ x4 ∷ []) found e = ground (arith, e)
  parse_iso_date_lem (x1 ∷ x2 ∷ x3 ∷ x4 ∷ x5 ∷ []) found e = ground (arith, e)
  parse_iso_date_lem (x1 ∷ x2 ∷ x3 ∷ x4 ∷ x5 ∷ x6 ∷ []) found e = ground (arith, e)
  parse_iso_date_lem (x1 ∷ x2 ∷ x3 ∷ x4 ∷ x5 ∷ x6 ∷ x7 ∷ []) found e = ground (arith, e)
  parse_iso_date_lem (x1 ∷ x2 ∷ x3 ∷ x4 ∷ x5 ∷ x6 ∷ x7 ∷ x8 ∷ []) found e = ground (arith, e)
  parse_iso_date_lem (x1 ∷ x2 ∷ x3 ∷ x4 ∷ x5 ∷ x6 ∷ x7 ∷ x8 ∷ x9 ∷ []) found e = ground (arith, e)
  parse_iso_date_lem (x1 ∷ x2 ∷ x3 ∷ x4 ∷ x5 ∷ x6 ∷ x7 ∷ x8 ∷ x9 ∷ x10 ∷ x11 ∷ xs) found e =
      ground (arith, e)

  -- Of two date texts in order, the first date is not behind the second.
  pub compare_utf16-dates :
      (from to : Text) (first last : Date)
      → parse_iso_date from ≡ some first
      → parse_iso_date to ≡ some last
      → compare_utf16 from to ≢ Ordering.gt
      → date_number first ≤ date_number last
  unfolding compare_utf16
  compare_utf16-dates from to first last p q h =
      let (shape, number) = parse_iso_date_lem from first p in
      let (shape', number') = parse_iso_date_lem to last q in
      let alike = IsShaped-AreAlike date_places from to shape shape' in
      let alike' = IsShaped-AreAlike date_places to from shape' shape in
      let ordered : compare_units from to ≢ Ordering.gt = λ e. h (
        ap (λ l. compare_units l (encode_utf16 to)) (AreAlike-encode from to alike)
        ∙ ap (compare_units from) (AreAlike-encode to from alike')
        ∙ e) in
      let mono = text_number_mono from to 0 0 alike (omega arith) (λ e. ordered) in
      omega (arith, mono, number, number')
