-- ===== src/Evaluation/Criteria/Examples.antt =====
-- A run of two declared criteria.
use spot_price.Prelude.{Bool, false, none, some, List, [], ◌∷◌, any, all, ◌≡◌, ◌↔◌, refl}
use spot_price.Prelude.Int.{pos}
use spot_price.Prelude.Text.{codes}
use spot_price.Float.Halves.{Num, fin, inf, halves}
use spot_price.Evaluation.Criteria.{
  Statistic, Criteria, Verdict, point, ci_high, op_lt, op_ge, not_finite, missing, met,
  criteria_error, check_criterion, verdict_of, success_met, regression_detected,
}
use spot_price.Evaluation.Criteria.Completions.{IsCompletion, verdict_iff}

abbrev statistics : List (Statistic Num)
statistics =
    record {
      id = codes "mae";
      n = 40;
      estimate = record {
        point = some (fin (pos 3));
        low = some (fin (pos 1));
        high = none;
        undefined_resamples = 2;
      };
    }
    ∷ []

-- the mean error is below two, and the high end of its interval is not declared
abbrev declared : Criteria Num
declared = record {
  success =
      record { id = codes "mae"; statistic = point; op = op_lt; value = fin (pos 4) }
      ∷ record { id = codes "bias"; statistic = point; op = op_lt; value = fin (pos 4) }
      ∷ [];
  regression =
      record { id = codes "mae"; statistic = ci_high; op = op_ge; value = fin (pos 9) } ∷ [];
}

test-success_met : success_met (verdict_of declared statistics) ≡ none
unfolding success_met verdict_of check_criterion
test-success_met = refl

test-criteria_error :
    criteria_error (record {
      success = [];
      regression = record { id = []; statistic = point; op = op_lt; value = inf } ∷ [];
    })
    ≡ some not_finite
unfolding criteria_error
test-criteria_error = refl

abbrev half_known : Verdict Num
half_known = record { success = met (fin (pos 3)) ∷ missing ∷ []; regression = missing ∷ [] }

verdict_iff_example :
    (success_met half_known ≡ some false
      ↔ ((bs : List Bool) → IsCompletion half_known.success bs → all (λ x. x) bs ≡ false))
    × (regression_detected half_known ≡ some false
        ↔ ((bs : List Bool) → IsCompletion half_known.regression bs → any (λ x. x) bs ≡ false))
verdict_iff_example = verdict_iff half_known false
