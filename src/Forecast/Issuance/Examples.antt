-- ===== src/Forecast/Issuance/Examples.antt =====
-- Runs of the ladder of vintages.
use spot_price.Prelude.{some, none, List, [], ◌∷◌, if◌then◌else◌, ◌≡◌, refl}
use spot_price.Prelude.Int.{ℤ, pos, ltb_ℤ, ◌-ℤ◌, ◌*ℤ◌, div_trunc, rem_euclid, saturate}
use spot_price.Float.Halves.{Num, fin}
use spot_price.Jiff.Nanos.{nanos, nanos-IsInstant}
use spot_price.Forecast.Quarter.{quarter_floor, quarter_from_millisecond}
use spot_price.Forecast.Issuance.{GridVintage, extension, new_ladder, as_of, known_record, source}
use spot_price.Forecast.Issuance.Newest.{newest}
use spot_price.Forecast.Issuance.Issues.{issues_of}
use spot_price.Forecast.Issuance.AsOf.{value_found, value_of, is_between, as_of_lem}
use spot_price.Forecast.Issuance.Past.{before, as_of_past}

-- three issues of one target, the second of them newest at the issuance
abbrev vintages : List (GridVintage ℤ Num)
vintages =
    record { issued_at = pos 3_000_000; start = pos 9_000_000; value = fin (pos 3) }
    ∷ record { issued_at = pos 2_000_000; start = pos 9_000_000; value = fin (pos 2) }
    ∷ record { issued_at = pos 1_000_000; start = pos 9_000_000; value = fin (pos 1) }
    ∷ []

test-as_of :
    value_found (pos 9) (as_of {T = ℤ} (new_ladder vintages (pos 9)) (pos 3) (pos 0) (pos 10))
    ≡ some (some (fin (pos 2)))
unfolding as_of new_ladder quarter_floor quarter_from_millisecond saturate rem_euclid div_trunc ◌*ℤ◌
    ◌-ℤ◌
test-as_of = refl

-- a range that ends before it starts
test-as_of_panic :
    value_found (pos 9) (as_of {T = ℤ} (new_ladder vintages (pos 9)) (pos 3) (pos 10) (pos 0))
    ≡ none
unfolding as_of
test-as_of_panic = refl

test-source :
    source {T = ℤ}
      (record { start = pos 0 })
      []
      ((record { start = pos 0 }, fin (pos 1)) ∷ [])
      []
      none
    ≡ extension
unfolding source
test-source = refl

as_of_lem_example :
    value_found (pos 9) (as_of {T = ℤ} (new_ladder vintages (pos 9)) (pos 3) (pos 0) (pos 10)) ≡ (
      if ltb_ℤ (pos 10) (pos 0)
      then none
      else some (
          if is_between (pos 0) (pos 10) (pos 9)
          then value_of (
              known_record {T = ℤ}
                (record { start = pos 9 })
                (newest (pos 3) (issues_of (pos 9) (pos 9) vintages)))
          else none))
as_of_lem_example = as_of_lem nanos-IsInstant vintages (pos 9) (pos 3) (pos 0) (pos 10) (pos 9)

as_of_past_example :
    value_found (pos 9) (as_of {T = ℤ} (new_ladder vintages (pos 9)) (pos 3) (pos 0) (pos 10))
    ≡ value_found
        (pos 9)
        (as_of {T = ℤ} (new_ladder (before (pos 3) vintages) (pos 9)) (pos 3) (pos 0) (pos 10))
as_of_past_example = as_of_past nanos-IsInstant vintages (pos 9) (pos 3) (pos 0) (pos 10) (pos 9)
