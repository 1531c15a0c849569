-- ===== src/Evaluation.antt =====
-- `crates/tools/src`: the offline evaluation of the forecast.
pub mod Criteria
