-- ===== src/Forecast/Cache.antt =====
-- `crates/server/src/forecast_cache.rs`: the served snapshot, its freshness, and its replacement. `S` is
-- what a snapshot holds besides: the window and the result of the model.
pub mod Warnings
use spot_price.Prelude.{
  ℕ, ◌*◌, Bool, true, false, not, ◌&&◌, ◌||◌, Option, none, some, List, [], ◌∷◌, if◌then◌else◌,
  Result, ok, err,
}
use spot_price.Prelude.Int.{ℤ, pos, ◌-ℤ◌, ltb_ℤ}
use spot_price.Jiff.{Instant}

-- two hours in nanoseconds
abbrev pub stale_after : ℕ
stale_after = 7_200_000_000_000

pub record Snapshot (T S : Type 0) : Type 0 where
  pub forecast : S
  pub generated_at : T
  pub grid_issued_at : Option T
  pub built_at : T
  pub stale_logged : Bool

module _ {T : Type 0} ⦃i : Instant T⦄ where
  open i use {as_nanosecond, le}

  -- `Inputs::data_as_of`, by the two instants that it reads. `Ord::max` takes the second of equals.
  unfoldable pub data_as_of : Option T → Option T → T → T
  data_as_of (some grid) (some price) built_at = if le grid price then price else grid
  data_as_of (some one) none built_at = one
  data_as_of none (some one) built_at = one
  data_as_of none none built_at = built_at

  abbrev issued_long_ago : Option T → T → Bool
  issued_long_ago none now = false
  issued_long_ago (some issued) now =
      ltb_ℤ (pos stale_after) (as_nanosecond now -ℤ as_nanosecond issued)

module _ {T S : Type 0} ⦃i : Instant T⦄ where
  unfoldable pub is_stale : Snapshot T S → T → Bool
  is_stale snapshot now = issued_long_ago snapshot.grid_issued_at now

  -- `first_stale_serve`, with the snapshot after the swap of its flag, which only a stale serve does.
  unfoldable pub first_stale_serve : Snapshot T S → T → Bool × Snapshot T S
  unfolding is_stale
  first_stale_serve snapshot now =
      let stale = is_stale snapshot now in
      (
        stale && not snapshot.stale_logged,
        record snapshot { stale_logged = stale || snapshot.stale_logged },
      )

  -- The serves of one snapshot, one after the other: whether each logs the warning.
  abbrev pub serve_all : Snapshot T S → List T → List Bool
  serve_all snapshot [] = []
  serve_all snapshot (now ∷ times) =
      let (logged, after) = first_stale_serve snapshot now in logged ∷ serve_all after times

-- What `ForecastCache::refresh` leaves current, by the outcome of the build, and what it returns: a
-- failure keeps the current snapshot, and a success is stored by `replace`.
unfoldable pub refresh : {C E : Type 0} → Option C → Result C E → Option C × Result Unit E
refresh current (ok snapshot) = (some snapshot, ok tt)
refresh current (err e) = (current, err e)
