-- ===== src/Evaluation/Criteria.antt =====
-- `crates/tools/src/criteria.rs`: the outcomes of declared criteria, and the answers of a verdict.
pub mod Completions
mod Examples
use spot_price.Prelude.{
  ℕ, Bool, true, false, not, ◌&&◌, Option, none, some, List, [], ◌∷◌, ◌++◌, map, any, all, find,
  if◌then◌else◌,
}
use spot_price.Prelude.Text.{Text, text_eq}
use spot_price.Float.{Double}
use spot_price.Js.Numerals.{is_empty}

-- `Estimate` of `bootstrap.rs`, and `Statistic` of `evaluation.rs`.
pub record Estimate (F : Type 0) : Type 0 where
  pub point : Option F
  pub low : Option F
  pub high : Option F
  pub undefined_resamples : ℕ

pub record Statistic (F : Type 0) : Type 0 where
  pub id : Text
  pub n : ℕ
  pub estimate : Estimate F

pub data Which : Type 0 where
  point : Which
  ci_low : Which
  ci_high : Which

pub data Op : Type 0 where
  op_lt : Op
  op_le : Op
  op_gt : Op
  op_ge : Op

pub record Criterion (F : Type 0) : Type 0 where
  pub id : Text
  pub statistic : Which
  pub op : Op
  pub value : F

-- The texts of the experiment and of the date have no field here.
pub record Criteria (F : Type 0) : Type 0 where
  pub success : List (Criterion F)
  pub regression : List (Criterion F)

pub data CriteriaError : Type 0 where
  no_criterion : CriteriaError
  not_finite : CriteriaError

pub data Outcome (F : Type 0) : Type 0 where
  met : F → Outcome F
  not_met : F → Outcome F
  undefined : Outcome F
  missing : Outcome F

pub record Verdict (F : Type 0) : Type 0 where
  pub success : List (Outcome F)
  pub regression : List (Outcome F)

module _ {F : Type 0} where
  abbrev pub which_of : Which → Estimate F → Option F
  which_of point e = e.point
  which_of ci_low e = e.low
  which_of ci_high e = e.high

  abbrev pub is_met : Outcome F → Bool
  is_met (met value) = true
  is_met _ = false

  abbrev pub is_not_met : Outcome F → Bool
  is_not_met (not_met value) = true
  is_not_met _ = false

  unfoldable pub success_met : Verdict F → Option Bool
  success_met verdict =
      if any is_not_met verdict.success
      then some false
      else if all is_met verdict.success
      then some true
      else none

  unfoldable pub regression_detected : Verdict F → Option Bool
  regression_detected verdict =
      if any is_met verdict.regression
      then some true
      else if all is_not_met verdict.regression
      then some false
      else none

module _ {F : Type 0} ⦃d : Double F⦄ where
  abbrev pub op_holds : Op → F → F → Bool
  op_holds op_lt value threshold = d.lt value threshold
  op_holds op_le value threshold = d.le value threshold
  op_holds op_gt value threshold = d.lt threshold value
  op_holds op_ge value threshold = d.le threshold value

  -- The checks of `load_criteria` on the criteria that it has read.
  unfoldable pub criteria_error : Criteria F → Option CriteriaError
  criteria_error criteria =
      if is_empty criteria.success && is_empty criteria.regression
      then some no_criterion
      else if any (λ c. not (d.is_finite c.value)) (criteria.success ++ criteria.regression)
      then some not_finite
      else none

  abbrev pub decide_with : Criterion F → Option F → Outcome F
  decide_with criterion none = undefined
  decide_with criterion (some value) =
      if op_holds criterion.op value criterion.value then met value else not_met value

  abbrev pub outcome_of : Criterion F → Option (Statistic F) → Outcome F
  outcome_of criterion none = missing
  outcome_of criterion (some stat) =
      decide_with criterion (which_of criterion.statistic stat.estimate)

  unfoldable pub check_criterion : Criterion F → List (Statistic F) → Outcome F
  check_criterion criterion statistics =
      outcome_of criterion (find (λ s. text_eq s.id criterion.id) statistics)

  unfoldable pub verdict_of : Criteria F → List (Statistic F) → Verdict F
  unfolding check_criterion
  verdict_of criteria statistics = record {
    success = map (λ c. check_criterion c statistics) criteria.success;
    regression = map (λ c. check_criterion c statistics) criteria.regression;
  }
