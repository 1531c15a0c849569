-- ===== src/Js/Examples.antt =====
-- Runs of the JavaScript number rules.
use spot_price.Prelude.{true, false, [], ◌∷◌, map, ◌≡◌, refl}
use spot_price.Prelude.Int.{pos, negsuc, ◌+ℤ◌, ◌-ℤ◌, ◌*ℤ◌, div_euclid, rem_euclid, div_trunc}
use spot_price.Float.Halves.{Num, halves_conversions, fin, halves}
use spot_price.Js.{math_round}
use spot_price.Prelude.Text.{codes}
use spot_price.Js.Numerals.{
  string_to_number, js_trim, is_js_whitespace, is_decimal_literal, radix_to_number, days_from_civil,
  date_utc,
}

-- -1.5 is rounded to -1, and 0.5 to 1
ties_go_up : math_round (fin (negsuc 2)) ≡ fin (negsuc 1)
unfolding math_round div_euclid rem_euclid ◌+ℤ◌ ◌-ℤ◌ ◌*ℤ◌
ties_go_up = refl

test-radix : string_to_number {F = Num} (codes "0x3C") ≡ fin (pos 120)
unfolding string_to_number js_trim is_js_whitespace is_decimal_literal radix_to_number ◌+ℤ◌ ◌-ℤ◌
    ◌*ℤ◌ div_euclid div_trunc rem_euclid
test-radix = refl

test-is_decimal_literal :
    map is_decimal_literal
      (codes "60" ∷ codes "+.5e-3" ∷ codes "6.e1" ∷ codes "." ∷ codes "1e" ∷ codes "Infinity" ∷ [])
    ≡ true ∷ true ∷ true ∷ false ∷ false ∷ false ∷ []
unfolding is_decimal_literal
test-is_decimal_literal = refl

test-days_from_civil : days_from_civil (pos 2000) 3 ≡ pos 11_017
unfolding days_from_civil ◌+ℤ◌ ◌-ℤ◌ ◌*ℤ◌ div_euclid div_trunc
test-days_from_civil = refl

test-date_utc :
    date_utc {F = Num} (fin (pos 140)) (fin (pos 0)) (fin (pos 4)) ≡ fin (pos 172_800_000)
unfolding date_utc days_from_civil ◌+ℤ◌ ◌-ℤ◌ ◌*ℤ◌ div_euclid div_trunc rem_euclid
test-date_utc = refl
