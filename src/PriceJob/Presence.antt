-- ===== src/PriceJob/Presence.antt =====
-- When a date is complete, and what the job does then.
use spot_price.Prelude.{
  ℕ, ◌≤◌, Bool, true, some, List, [], ◌∷◌, ◌≡◌, ◌↔◌, refl, arith, inl, inr, sym, subst, ap, ◌∙◌,
  All, Bool-cases, ltb, Result, ok, err,
}
use spot_price.Areas.{Area, all_areas}
use spot_price.Jiff.{Instant, Date, Calendar}
use spot_price.PriceJob.{
  PriceWorld, FetchResult, min_entries_per_area, utc_date_range, present_in, range_present,
  all_areas_present, fetch_for_date, run_fetch_job, counted, with_tomorrow, then_tomorrow,
  run_dates,
}

counted_iff :
    {E : Type 0} (r : Result ℕ E) (rest : Result Bool E)
    → (counted r rest ≡ ok true)
      ↔ (((n : ℕ) × (r ≡ ok n) × (min_entries_per_area ≤ n)) × (rest ≡ ok true))
counted_iff (err e) rest = ground arith
counted_iff (ok n) rest = elim (Bool-cases (ltb n min_entries_per_area)) [
  | inl e ↦
      (λ h. ground (arith, e, h), λ h. let ((m, q, enough), p) = h in ground (arith, e, q, enough))
  | inr e ↦ (λ h. ((n, refl, ground (arith, e)), ground (arith, e, h)), λ h. ground (arith, e, h))
]

module _ {W T P E : Type 0} (o : PriceWorld W T P E) ⦃i : Instant T⦄ where
  fetch_for_date_idle :
      (attempts : ℕ) (w : W) (date : Date)
      → all_areas_present o w date ≡ ok true
      → fetch_for_date o attempts w date
        ≡ (ok (record { date = date; stored = 0; skipped = true }), w)
  unfolding fetch_for_date
  fetch_for_date_idle attempts w date h = rw h refl

  -- An area has at least 23 stored prices that start in the range.
  abbrev pub IsPresent : W → T → T → Area → Type 0
  IsPresent w start end area =
      (n : ℕ) × (o.count_prices_by_range w start end area ≡ ok n) × (min_entries_per_area ≤ n)

  present_in_iff :
      (w : W) (start end : T) (areas : List Area)
      → (present_in o w start end areas ≡ ok true) ↔ All (IsPresent w start end) areas
  present_in_iff w start end [] = (λ h. tt, λ h. refl)
  present_in_iff w start end (area ∷ areas) =
      let rest = present_in_iff w start end areas in
      let (into, out) =
        counted_iff (o.count_prices_by_range w start end area) (present_in o w start end areas) in
      (λ h. ((into h).0, rest.0 (into h).1), λ h. out (h.0, rest.1 h.1))

  abbrev pub IsComplete : W → Result (T × T) E → Type 0
  IsComplete w range =
      (start : T) × (end : T) × (range ≡ ok (start, end)) × All (IsPresent w start end) all_areas

  range_present_iff :
      (w : W) (range : Result (T × T) E) → (range_present o w range ≡ ok true) ↔ IsComplete w range
  range_present_iff w (err e) =
      (λ h. ground (arith, h), λ h. let (start, end, q, present) = h in ground (arith, q))
  range_present_iff w (ok (start, end)) =
      let areas = present_in_iff w start end all_areas in
      (
        λ h. (start, end, refl, areas.0 h),
        λ h.
            let (start', end', q, present) = h in
            subst (λ r. range_present o w r ≡ ok true) (sym q)
              ((present_in_iff w start' end' all_areas).1 present),
      )

  -- A date is complete exactly when its range exists and every area has at least 23 stored prices that
  -- start in it.
  pub all_areas_present_iff :
      (w : W) (date : Date)
      → (all_areas_present o w date ≡ ok true) ↔ (
          (start : T) × (end : T) × (utc_date_range o date ≡ ok (start, end))
          × All (IsPresent w start end) all_areas)
  unfolding all_areas_present
  all_areas_present_iff w date = range_present_iff w (utc_date_range o date)

  abbrev pub skipped : Date → FetchResult
  skipped date = record { date = date; stored = 0; skipped = true }

  -- A run on two complete dates changes nothing, skips both, and says that tomorrow is available.
  pub run_fetch_job_idle :
      ⦃c : Calendar⦄ (attempts : ℕ) (w : W) (now : T) (tomorrow : Date)
      → all_areas_present o w (o.utc_date now) ≡ ok true
      → c.tomorrow (o.utc_date now) ≡ some tomorrow
      → all_areas_present o w tomorrow ≡ ok true
      → run_fetch_job o attempts w now ≡ (
        ok (record {
          results = skipped (o.utc_date now) ∷ skipped tomorrow ∷ [];
          tomorrow_available = true;
        }),
        w,
      )
  unfolding run_fetch_job
  run_fetch_job_idle ⦃c⦄ attempts w now tomorrow first next second =
      ap (run_dates o attempts w (o.utc_date now)) next
      ∙ ap (then_tomorrow o attempts tomorrow)
          (fetch_for_date_idle attempts w (o.utc_date now) first)
      ∙ ap
          (λ (x : Result FetchResult E × W).
            (ok (with_tomorrow o (skipped (o.utc_date now)) x.0), x.1))
          (fetch_for_date_idle attempts w tomorrow second)
