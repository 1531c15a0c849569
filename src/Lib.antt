-- ===== src/Lib.antt =====
-- Verification of the spot price service: what electricity costs its user, and when it is cheapest.
--
-- The service keeps day-ahead spot prices as delivery intervals. An endpoint selects intervals
-- (`crates/domain/src/endpoints.rs`), applies the contract of the user to each
-- (`crates/domain/src/price.rs`) in the user's time zone (`crates/domain/src/time.rs`) and summarises
-- them as a window. Inputs are checked first (`crates/domain/src/query.rs`) with the number rules of
-- JavaScript (`crates/domain/src/js.rs`), and each request is counted by the rate limiters
-- (`crates/server/src/http/rate_limit.rs`).
--
-- Areas      `crates/domain/src/areas.rs`: `Area`, its tables `code`, `name`, `country`, `timezone`,
--            and `supported_timezones` with the sort and the removal of duplicates written out.
-- Settings   `crates/domain/src/settings.rs`: `Hour`, `UserSettings`, `with_update`.
-- Time       `crates/domain/src/time.rs`: `covers_range` is `sort_periods`, then `sweep` (the loop).
-- Js         `crates/domain/src/js.rs`: `math_round`, `round3`, `max_zero`, and in Js/Numerals `js_trim`,
--            `string_to_number`, `compare_utf16`, `date_utc` and `days_from_civil`.
-- Query      `crates/domain/src/query.rs`: the issues and their texts, the number rules, the parsers of
--            dates and instants, and the three validators. A closure of a validator returns its value
--            with its issues, which the validator appends in the order of the code.
-- Price      `crates/domain/src/price.rs`: in `find_cheapest_window`, `scan` is the outer loop over
--            the start indexes, `run` the inner loop, `improve` the comparison of averages.
-- Endpoints  `crates/domain/src/endpoints.rs`: `cheapest_window` is `cheapest_candidates`, then
--            `answer_for`.
-- RateLimit  `crates/server/src/http/rate_limit.rs`: `check` is `make_room` (the key cap), then
--            `count_hit` on the entry of the key, then `decide`. The hash map is an association list,
--            whose order stands for the order of the map's iteration.
-- Forecast   `crates/domain/src/forecast/quarter.rs` (Forecast/Quarter: `quarter_from_millisecond` is
--            `from_millisecond`, and so on), `crates/domain/src/forecast/route.rs` (Forecast/Route),
--            `crates/domain/src/forecast/holiday.rs` (Forecast/Holiday) and
--            `crates/server/src/forecast_cache.rs` (Forecast/Cache: the flag of a snapshot is a field,
--            which `first_stale_serve` returns with the snapshot). Forecast/Numbers is
--            `crates/domain/src/forecast/js.rs`, and Forecast/Series `crates/domain/src/forecast/series.rs`:
--            `cursors` are the values of a `while cursor < end` loop, whose fuel is the number of
--            quarters that the distance has begun; a memo is an explicit association list.
--            Forecast/Conformal is `crates/domain/src/forecast/conformal.rs` (the lists by hour are one
--            filter per hour), and Forecast/Entries `crates/domain/src/forecast/entries.rs` with the
--            totals that `respond` of `crates/server/src/http/forecast.rs` asks for. Forecast/Issuance is
--            the ladder of `crates/domain/src/forecast/issuance.rs`: `new_ladder` and `as_of`, on a map
--            whose keys are milliseconds, with `partition_point` written out; `none` is the
--            panic of `range`.
-- PriceJob   `crates/server/src/jobs/prices.rs`, and the loop of `fetch_day_ahead_prices` of
--            `crates/server/src/upstream/nordpool.rs`. The database and Nord Pool are one world,
--            `PriceWorld`, that each call may change; the loop recurses on the attempts left.
-- Auth       `crates/server/src/auth/username.rs`, and `bearer_token` of
--            `crates/server/src/http/api_key.rs`.
-- Session    `crates/server/src/store/sessions.rs` (Session: the table is a list of rows, with the
--            constraints of its migration) and `crates/server/src/http/session.rs` (Session/Handlers by
--            the hash of a token, Session/Cookies, Session/Requests by the cookies of a request).
--            Session/Steps has the events as steps, on the table and on a plain map. Auth/Random is
--            `crates/server/src/auth/random.rs`.
-- Scheduler  `crates/server/src/jobs/scheduler.rs`: `run_loop` is the loop of `run_schedule` on the
--            readings of the clock; Scheduler/Tasks has the price tasks of `start` as steps on their
--            lock and their captured date, a step for each tick and for each end of a run.
-- Evaluation `crates/tools/src/criteria.rs` (Evaluation/Criteria): `check_criterion` is `check`, and
--            `criteria_error` the checks of `load_criteria`.
--
-- Parameters. `f64` is a type with the operations of `Float.Double`; a theorem names the laws of
-- IEEE 754 that it needs (`IsOrdered`, `IsMonotone`, `IsFloored`, `IsConverted`, `IsSigned`), and Float/Halves
-- fills them with half-integers; `asinh`, `sinh`, `ceil` and `as usize` are a record of
-- Forecast/Conformal. jiff's timestamps, calendar and time zones are the records of Jiff, with concrete
-- instances in Jiff/Nanos, and a schedule of croner is a record of Scheduler. Fixtures holds the values
-- that the examples share. A text is a literal where it is only compared, and a list of character codes
-- (Prelude/Text) where it is walked or built.
--
-- Bounds. Loops over lists are structural. `decimal` prints at most twenty digits, the most that a
-- 64-bit number has.
--
-- Not modelled: SQL, HTTP routing, serde shapes, logging and the clients of upstream services, which
-- are calls of third-party crates, the floating-point fit of the forecast model, and the reports of the
-- offline evaluation.
pub mod Prelude
pub mod Areas
pub mod Float
pub mod Js
pub mod Jiff
pub mod Time
pub mod Session
pub mod Settings
pub mod Price
pub mod Fixtures
pub mod Query
pub mod Endpoints
pub mod RateLimit
pub mod Forecast
pub mod PriceJob
pub mod Scheduler
pub mod Evaluation
pub mod Auth
