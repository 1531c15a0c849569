-- ===== src/Forecast/Holiday/Easter.antt =====
-- The range of the dates of Easter.
use spot_price.Prelude.{
  ℕ, ◌≤◌, ◌<◌, ◌≡◌, ◌⊎◌, arith, inl, inr, ap, ◌∙◌, subst, sym, ◌%◌, ◌/◌, ◌*◌, ◌+◌, ◌-◌,
}
use spot_price.Prelude.Int.{ℤ, pos, negsuc, ◌+ℤ◌, ◌-ℤ◌, ◌*ℤ◌, rem_euclid, div_trunc, rem_trunc}
use spot_price.Forecast.Holiday.{easter_month_day}

-- A date from 22 March to 25 April.
abbrev pub IsEasterDate : ℤ × ℤ → Type 0
IsEasterDate (month, day) =
    (d : ℕ) × (day ≡ pos d)
    × ((month ≡ pos 3) × (22 ≤ d) × (d ≤ 31) ⊎ (month ≡ pos 4) × (1 ≤ d) × (d ≤ 25))

le_or_lt : (m n : ℕ) → (m ≤ n) ⊎ (n < m)
le_or_lt m n = ground arith

-- The two numbers that the month and the day are read from, as natural numbers.
abbrev correction : ℕ → ℕ → ℕ → ℕ
correction a h l = (a + 11 * h + 22 * l) / 451

correction-eq :
    (a h l : ℕ)
    → div_trunc (pos a +ℤ pos 11 *ℤ pos h +ℤ pos 22 *ℤ pos l) 451 ≡ pos (correction a h l)
unfolding div_trunc ◌+ℤ◌ ◌*ℤ◌
correction-eq a h l = ground arith

abbrev spring : ℕ → ℕ → ℕ → ℕ
spring h l m = h + l + 114 - 7 * m

spring-eq : (h l m : ℕ) → m ≤ 1 → pos h +ℤ pos l -ℤ pos 7 *ℤ pos m +ℤ pos 114 ≡ pos (spring h l m)
unfolding ◌+ℤ◌ ◌-ℤ◌ ◌*ℤ◌
spring-eq h l m p = ground arith

month_range :
    (s : ℕ)
    → 114 ≤ s
    → s ≤ 148
    → (pos (s / 31) ≡ pos 3) × (22 ≤ s % 31 + 1) × (s % 31 + 1 ≤ 31)
      ⊎ (pos (s / 31) ≡ pos 4) × (1 ≤ s % 31 + 1) × (s % 31 + 1 ≤ 25)
month_range s low high = elim (le_or_lt s 123) [
  | inl h ↦ let month : s / 31 ≡ 3 = omega arith in inl (ap pos month, omega arith, omega arith)
  | inr h ↦ let month : s / 31 ≡ 4 = omega arith in inr (ap pos month, omega arith, omega arith)
]

month_day-IsEasterDate :
    (s : ℕ) → 114 ≤ s → s ≤ 148 → IsEasterDate (div_trunc (pos s) 31, rem_trunc (pos s) 31 +ℤ pos 1)
unfolding div_trunc rem_trunc ◌+ℤ◌ ◌-ℤ◌ ◌*ℤ◌
month_day-IsEasterDate s low high =
    let rest : rem_trunc (pos s) 31 ≡ pos (s % 31) = ground arith in
    let next : pos (s % 31) +ℤ pos 1 ≡ pos (s % 31 + 1) = ground arith in
    (s % 31 + 1, ap (λ z. z +ℤ pos 1) rest ∙ next, month_range s low high)

abbrev sum_of : ℕ → ℕ → ℕ → ℤ
sum_of a h l =
    pos h
    +ℤ pos l
    -ℤ pos 7 *ℤ div_trunc (pos a +ℤ pos 11 *ℤ pos h +ℤ pos 22 *ℤ pos l) 451
    +ℤ pos 114

-- The last steps of the algorithm, on the numbers that they read.
last_steps :
    (a h l : ℕ)
    → a < 19
    → h < 30
    → l < 7
    → IsEasterDate (div_trunc (sum_of a h l) 31, rem_trunc (sum_of a h l) 31 +ℤ pos 1)
last_steps a h l p q r =
    let m = correction a h l in
    let one : m ≤ 1 = omega arith in
    let same : sum_of a h l ≡ pos (spring h l m) = rw (correction-eq a h l) (spring-eq h l m one) in
    subst (λ z. IsEasterDate (div_trunc z 31, rem_trunc z 31 +ℤ pos 1)) (sym same)
      (month_day-IsEasterDate (spring h l m) (omega arith) (omega arith))

rem_euclid_lt : (z : ℤ) (d : ℕ) → 0 < d → rem_euclid z d < d
unfolding rem_euclid
rem_euclid_lt (pos n) d h = ground arith
rem_euclid_lt (negsuc n) d h = ground arith

-- Easter is from 22 March to 25 April in every year.
pub easter_month_day-IsEasterDate : (year : ℤ) → IsEasterDate (easter_month_day year)
unfolding easter_month_day
easter_month_day-IsEasterDate year =
    last_steps (rem_euclid year 19) _ _ (rem_euclid_lt year 19 (omega arith))
      (rem_euclid_lt _ 30 (omega arith)) (rem_euclid_lt _ 7 (omega arith))
