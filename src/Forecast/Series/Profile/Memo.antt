-- ===== src/Forecast/Series/Profile/Memo.antt =====
-- The memo of complete days against no memo.
use spot_price.Prelude.{
  ℕ, zero, suc, ◌+◌, Bool, true, false, Option, none, some, List, [], ◌∷◌, All, Result, ok, err,
  ◌≡◌, refl, sym, ap, ◌∙◌, arith, inl, inr, Bool-cases,
}
use spot_price.Prelude.Int.{pos, ◌-ℤ◌}
use spot_price.Float.{Double}
use spot_price.Jiff.{same_date, same_date_lem, Instant, Date, Calendar, Weekdays, Zoned, Ambiguity}
use spot_price.Forecast.Quarter.{QuarterStart, QuarterMap, quarter_timestamp}
use spot_price.Forecast.Series.Profile.{
  ShapeProfile, ProfileValues, SourceMiss, out_of_range, persistence, previous_published_day,
  weekday_mean, persistence_at, weekday_mean_at, CompleteDays, date_entry, complete_local_day,
  memo_entry, day_complete, decided, lookup_source, same_local_time_days_back, published_from,
  published_at, previous_published_day_at, previous_published_day_lookback_days, profile_value,
  record_value, profile_loop, profile_values,
}

module _ (T : Type 0) {Z F : Type 0} ⦃i : Instant T⦄ ⦃c : Calendar⦄ ⦃w : Weekdays⦄
    ⦃z : Zoned T Z⦄ where
  module _ ⦃a : Ambiguity T Z⦄ ⦃d : Double F⦄ (spot_prices : QuarterMap F) where
    abbrev day_known : Z → Date → Bool
    day_known zone date = complete_local_day T date zone spot_prices

    -- Whether the day is complete, computed at once.
    abbrev day_state : Option Date → Z → Option Bool
    day_state none zone = none
    day_state (some date) zone = some (day_known zone date)

    -- The price of a quarter on the latest earlier complete day, without a memo.
    abbrev plain_from : ℕ → ℕ → QuarterStart → Z → Date → Result (Option F) SourceMiss
    plain_from zero days_back key zone target = ok none
    plain_from (suc fuel) days_back key zone target =
        let date = w.add_days target (pos 0 -ℤ pos days_back) in
        let rest = plain_from fuel (days_back + 1) key zone target in
        decided (day_state date zone) (err out_of_range)
          (lookup_source spot_prices (same_local_time_days_back T key zone days_back)) rest

    abbrev plain_at : Option T → QuarterStart → Z → Result (Option F) SourceMiss
    plain_at none key zone = err out_of_range
    plain_at (some at) key zone =
        plain_from previous_published_day_lookback_days 1 key zone (z.to_datetime zone at).date

    -- The profile price of a key on its own.
    abbrev pub plain_value : ShapeProfile Z → QuarterStart → Result (Option F) SourceMiss
    plain_value persistence key = ok (persistence_at key spot_prices)
    plain_value (previous_published_day zone) key = plain_at (quarter_timestamp key) key zone
    plain_value (weekday_mean zone weeks) key = weekday_mean_at T key zone weeks spot_prices

    abbrev pub plain_values : ShapeProfile Z → List QuarterStart → ProfileValues F → ProfileValues F
    plain_values profile [] out = out
    plain_values profile (key ∷ keys) out =
        plain_values profile keys (record_value (plain_value profile key) key out)

    -- Every entry of the memo is what the day is.
    abbrev IsMemo : Z → CompleteDays → Type 0
    IsMemo zone days = All (λ (date, complete). complete ≡ day_known zone date) days

    date_entry-known :
        (zone : Z) (date : Date) (days : CompleteDays) (complete : Bool)
        → IsMemo zone days
        → date_entry date days ≡ some complete
        → complete ≡ day_known zone date
    date_entry-known zone date [] complete h e = ground arith
    date_entry-known zone date ((known, b) ∷ days) complete (h, hs) e =
        elim (Bool-cases (same_date known date)) [
          | inl s ↦
              let same = ap (day_known zone) (same_date_lem known date s) in
              ground (arith, s, e, h, same)
          | inr s ↦ date_entry-known zone date days complete hs (ground (arith, s, e))
        ]

    memo_entry_lem :
        (zone : Z) (date : Date) (days : CompleteDays) (o : Option Bool)
        → date_entry date days ≡ o
        → IsMemo zone days
        → ((memo_entry T o date zone spot_prices days).0 ≡ day_known zone date)
          × IsMemo zone (memo_entry T o date zone spot_prices days).1
    memo_entry_lem zone date days none e h = (refl, (refl, h))
    memo_entry_lem zone date days (some b) e h = (date_entry-known zone date days b h e, h)

    day_complete_lem :
        (zone : Z) (date : Option Date) (days : CompleteDays)
        → IsMemo zone days
        → ((day_complete T date zone spot_prices days).0 ≡ day_state date zone)
          × IsMemo zone (day_complete T date zone spot_prices days).1
    day_complete_lem zone none days h = (refl, h)
    day_complete_lem zone (some date) days h =
        let (e, m) = memo_entry_lem zone date days (date_entry date days) refl h in (ap some e, m)

    decided_lem :
        (o : Option Bool) (zone : Z) (after : CompleteDays) (x y : Result (Option F) SourceMiss)
        (r : Result (Option F) SourceMiss × CompleteDays) (p : Result (Option F) SourceMiss)
        → IsMemo zone after
        → (r.0 ≡ p) × IsMemo zone r.1
        → ((decided o (x, after) (y, after) r).0 ≡ decided o x y p)
          × IsMemo zone (decided o (x, after) (y, after) r).1
    decided_lem none zone after x y r p h k = (refl, h)
    decided_lem (some true) zone after x y r p h k = (refl, h)
    decided_lem (some false) zone after x y r p h k = k

    published_from_lem :
        (fuel days_back : ℕ) (key : QuarterStart) (zone : Z) (target : Date) (days : CompleteDays)
        → IsMemo zone days
        → ((published_from T fuel days_back key zone spot_prices target days).0
            ≡ plain_from fuel days_back key zone target)
          × IsMemo zone (published_from T fuel days_back key zone spot_prices target days).1
    published_from_lem zero days_back key zone target days h = (refl, h)
    published_from_lem (suc fuel) days_back key zone target days h =
        let date = w.add_days target (pos 0 -ℤ pos days_back) in
        let (e, m) = day_complete_lem zone date days h in
        let after = (day_complete T date zone spot_prices days).1 in
        let rest = published_from_lem fuel (days_back + 1) key zone target after m in
        rw (sym e) (
          decided_lem (day_complete T date zone spot_prices days).0 zone after (err out_of_range)
            (lookup_source spot_prices (same_local_time_days_back T key zone days_back))
            (published_from T fuel (days_back + 1) key zone spot_prices target after)
            (plain_from fuel (days_back + 1) key zone target) m rest)

    published_at_lem :
        (at : Option T) (key : QuarterStart) (zone : Z) (days : CompleteDays)
        → IsMemo zone days
        → ((published_at T at key zone spot_prices days).0 ≡ plain_at at key zone)
          × IsMemo zone (published_at T at key zone spot_prices days).1
    published_at_lem none key zone days h = (refl, h)
    published_at_lem (some at) key zone days h =
        published_from_lem previous_published_day_lookback_days 1 key zone
          (z.to_datetime zone at).date days h

    -- The memo belongs to the one zone of the profile.
    abbrev IsProfileMemo : ShapeProfile Z → CompleteDays → Type 0
    IsProfileMemo (previous_published_day zone) days = IsMemo zone days
    IsProfileMemo _ days = Unit

    profile_value_lem :
        (profile : ShapeProfile Z) (key : QuarterStart) (days : CompleteDays)
        → IsProfileMemo profile days
        → ((profile_value T profile key spot_prices days).0 ≡ plain_value profile key)
          × IsProfileMemo profile (profile_value T profile key spot_prices days).1
    unfolding previous_published_day_at
    profile_value_lem persistence key days h = (refl, tt)
    profile_value_lem (previous_published_day zone) key days h =
        published_at_lem (quarter_timestamp key) key zone days h
    profile_value_lem (weekday_mean zone weeks) key days h = (refl, tt)

    profile_loop-plain :
        (profile : ShapeProfile Z) (keys : List QuarterStart) (days : CompleteDays)
        (out : ProfileValues F)
        → IsProfileMemo profile days
        → profile_loop T profile keys spot_prices days out ≡ plain_values profile keys out
    profile_loop-plain profile [] days out h = refl
    profile_loop-plain profile (key ∷ keys) days out h =
        let (e, m) = profile_value_lem profile key days h in
        let after = (profile_value T profile key spot_prices days).1 in
        profile_loop-plain profile keys after
          (record_value (profile_value T profile key spot_prices days).0 key out) m
        ∙ ap (λ v. plain_values profile keys (record_value v key out)) e

    no_days-IsProfileMemo : (profile : ShapeProfile Z) → IsProfileMemo profile []
    no_days-IsProfileMemo persistence = tt
    no_days-IsProfileMemo (previous_published_day zone) = tt
    no_days-IsProfileMemo (weekday_mean zone weeks) = tt

    -- The memo of complete days changes nothing: the profile values are what each key gives alone.
    pub profile_values-plain :
        (profile : ShapeProfile Z) (keys : List QuarterStart)
        → profile_values T profile keys spot_prices
          ≡ plain_values profile keys (record { values = []; missing = 0; dst_gap = 0 })
    unfolding profile_values
    profile_values-plain profile keys =
        profile_loop-plain profile keys [] _ (no_days-IsProfileMemo profile)
