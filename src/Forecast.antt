-- ===== src/Forecast.antt =====
-- `crates/domain/src/forecast`: the forecast's keys, window, series and calendar.
pub mod Quarter
mod Route
pub mod Numbers
pub mod Conformal
mod Entries
pub mod Issuance
mod Series
mod Cache
mod Holiday
mod Examples
