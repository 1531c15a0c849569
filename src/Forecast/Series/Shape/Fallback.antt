-- ===== src/Forecast/Series/Shape/Fallback.antt =====
-- The days of a shaped prediction, and its quarters without a profile price.
use spot_price.Prelude.{
  ◌+◌, ◌<◌, Bool, true, not, Option, none, some, [], ◌∷◌, length, filter, unwrap_or, All,
  if◌then◌else◌, ◌≡◌, refl, sym, ap, subst, arith, inl, inr, Bool-cases,
}
use spot_price.Prelude.Int.{eq_ℤ, eq_of_parts}
use spot_price.Float.{Double}
use spot_price.Forecast.Quarter.{QuarterStart, QuarterMap, insert_quarter, get_quarter}
use spot_price.Forecast.Quarter.Points.{get_quarter-insert}
use spot_price.Forecast.Series.Buckets.{is_some}
use spot_price.Forecast.Series.Shape.{
  DayAggregate, ShapedPrediction, day_of, no_day, add_persistence, add_ridge, day_aggregates,
  with_ridge, shaped, shape_loop, shape_with,
}

module _ {F : Type 0} ⦃d : Double F⦄ (profile : QuarterMap F) where
  -- The day has a prediction, and a profile price where there is one.
  abbrev pub IsCounted : Bool → Option (DayAggregate F) → Type 0
  IsCounted has none = ⊥
  IsCounted has (some day) = (0 < day.ridge_count) × (has ≡ true → 0 < day.persistence_count)

  abbrev pub next_day : QuarterStart → F → Option (DayAggregate F) → DayAggregate F
  next_day key value o =
      add_persistence (get_quarter key profile) (add_ridge value (unwrap_or o no_day))

  next_day-keeps :
      (has : Bool) (key : QuarterStart) (value : F) (o : Option (DayAggregate F))
      → IsCounted has o
      → IsCounted has (some (next_day key value o))
  next_day-keeps has key value none h = elim h [ ]
  next_day-keeps has key value (some day) (r, p) = go (get_quarter key profile)
    where
      go : (price : Option F) → IsCounted has (some (add_persistence price (add_ridge value day)))
      go none = (omega arith, p)
      go (some x) = (omega arith, λ e. omega arith)

  next_day-IsCounted :
      (key : QuarterStart) (value : F) (o : Option (DayAggregate F))
      → IsCounted (is_some (get_quarter key profile)) (some (next_day key value o))
  next_day-IsCounted key value o = go (get_quarter key profile) (unwrap_or o no_day)
    where
      go :
          (price : Option F) (day : DayAggregate F)
          → IsCounted (is_some price) (some (add_persistence price (add_ridge value day)))
      go none day = (omega arith, λ e. ground (arith, e))
      go (some x) day = (omega arith, λ e. omega arith)

  abbrev pub insert_day :
      QuarterStart → F → QuarterMap (DayAggregate F) → QuarterMap (DayAggregate F)
  insert_day key value by_day =
      insert_quarter (day_of key) (next_day key value (get_quarter (day_of key) by_day)) by_day

  insert_day-keeps :
      (has : Bool) (q key : QuarterStart) (value : F) (by_day : QuarterMap (DayAggregate F))
      → IsCounted has (get_quarter q by_day)
      → IsCounted has (get_quarter q (insert_day key value by_day))
  insert_day-keeps has q key value by_day h =
      let after = next_day key value (get_quarter (day_of key) by_day) in
      let looked = get_quarter-insert q (day_of key) after by_day in
      elim (Bool-cases (eq_ℤ (day_of key).start q.start)) [
        | inl e ↦
            let same : q ≡ day_of key =
              ap (λ s. record { start = s })
                (sym (eq_of_parts (day_of key).start q.start (ground (arith, e)))) in
            let old = subst (λ k. IsCounted has (get_quarter k by_day)) same h in
            rw looked (rw e (next_day-keeps has key value (get_quarter (day_of key) by_day) old))
        | inr e ↦ rw looked (rw e h)
      ]

  get_quarter-insert_day :
      (key : QuarterStart) (value : F) (by_day : QuarterMap (DayAggregate F))
      → IsCounted
          (is_some (get_quarter key profile))
          (get_quarter (day_of key) (insert_day key value by_day))
  get_quarter-insert_day key value by_day =
      let after = next_day key value (get_quarter (day_of key) by_day) in
      let itself : eq_ℤ (day_of key).start (day_of key).start ≡ true = ground arith in
      rw (get_quarter-insert (day_of key) (day_of key) after by_day)
        (rw itself (next_day-IsCounted key value (get_quarter (day_of key) by_day)))

  day_aggregates-keeps :
      (has : Bool) (q : QuarterStart) (predicted : QuarterMap F)
      (by_day : QuarterMap (DayAggregate F))
      → IsCounted has (get_quarter q by_day)
      → IsCounted has (get_quarter q (day_aggregates profile predicted by_day))
  day_aggregates-keeps has q [] by_day h = h
  day_aggregates-keeps has q ((key, value) ∷ predicted) by_day h =
      day_aggregates-keeps has q predicted (insert_day key value by_day)
        (insert_day-keeps has q key value by_day h)

  -- After the first loop, the day of every quarter is counted.
  abbrev pub AreCounted : QuarterMap (DayAggregate F) → QuarterMap F → Type 0
  AreCounted by_day predicted =
      All (λ e. IsCounted (is_some (get_quarter e.0 profile)) (get_quarter (day_of e.0) by_day))
        predicted

  pub day_aggregates-AreCounted :
      (predicted : QuarterMap F) (by_day : QuarterMap (DayAggregate F))
      → AreCounted (day_aggregates profile predicted by_day) predicted
  day_aggregates-AreCounted [] by_day = tt
  day_aggregates-AreCounted ((key, value) ∷ predicted) by_day = (
    day_aggregates-keeps (is_some (get_quarter key profile)) (day_of key) predicted
        (insert_day key value by_day) (get_quarter-insert_day key value by_day),
    day_aggregates-AreCounted predicted (insert_day key value by_day),
  )

  shaped_fallback :
      (o : Option (DayAggregate F)) (price : Option F) (value : F)
      → IsCounted (is_some price) o
      → (shaped (with_ridge o) price value).1 ≡ (if not (is_some price) then 1 else 0)
  shaped_fallback none price value h = elim h [ ]
  shaped_fallback (some day) none value (r, p) = ground arith
  shaped_fallback (some day) (some x) value (r, p) = ground (arith, p refl)

  abbrev pub without_price : QuarterMap F → QuarterMap F
  without_price predicted = filter (λ e. not (is_some (get_quarter e.0 profile))) predicted

  shape_loop-fallback :
      (by_day : QuarterMap (DayAggregate F)) (predicted : QuarterMap F) (out : ShapedPrediction F)
      → AreCounted by_day predicted
      → (shape_loop by_day profile predicted out).shape_fallback_quarters
        ≡ out.shape_fallback_quarters + length (without_price predicted)
  shape_loop-fallback by_day [] out h = omega arith
  shape_loop-fallback by_day ((key, value) ∷ predicted) out (h, hs) =
      let day = get_quarter (day_of key) by_day in
      let (estimate, fallback) = shaped (with_ridge day) (get_quarter key profile) value in
      let one = shaped_fallback day (get_quarter key profile) value h in
      let rest =
        shape_loop-fallback by_day predicted
          (record {
            result = insert_quarter key estimate out.result;
            shape_fallback_quarters = out.shape_fallback_quarters + fallback;
          })
          hs in
      ground (arith, rest, one)

  pub shape_with-fallback :
      (predicted : QuarterMap F)
      → (shape_with predicted profile).shape_fallback_quarters ≡ length (without_price predicted)
  unfolding shape_with
  shape_with-fallback predicted =
      let by_day = day_aggregates profile predicted [] in
      omega (
        arith,
        shape_loop-fallback by_day predicted (record { result = []; shape_fallback_quarters = 0 })
            (day_aggregates-AreCounted predicted []),
      )
