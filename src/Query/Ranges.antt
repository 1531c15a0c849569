-- ===== src/Query/Ranges.antt =====
-- What the price-history query accepts.
use Prim.Native.Nat.{Ordering}
use spot_price.Prelude.{
  ◌≤◌, Bool, true, false, Option, none, some, [], ◌≡◌, ◌≢◌, refl, arith, inl, inr, Option-cases, ap,
}
use spot_price.Prelude.Text.{Text}
use spot_price.Float.{Double, Conversions, number, ◌≼◌}
use spot_price.Jiff.{Calendar, Date}
use spot_price.Js.Numerals.{compare_utf16}
use spot_price.Query.{Field, HistoryQuery, max_history_span_days}
use spot_price.Query.Ordered.{IsCalendar, date_number, compare_utf16-dates}
use spot_price.Query.Dates.{parse_iso_date}
use spot_price.Query.Bounds.{append-nil}
use spot_price.Query.Reports.{IsReported, finish-IsReported, IsSome-bind}
use spot_price.Query.Validators.{
  date, dated, range_issues, order_issues, span_issues, inclusive_day_span, parse_history_query,
}

-- A date without an issue is that of its text.
date-nil :
    ⦃c : Calendar⦄ (field : Field) (t : Text)
    → (date field (some t)).1 ≡ []
    → (found : Date) × (parse_iso_date t ≡ some found) × ((date field (some t)).0 ≡ some found)
date-nil field t h = elim (Option-cases (parse_iso_date t)) [
  | inl e ↦ ground (arith, e, h)
  | inr (found, e) ↦ (found, e, ap (λ o. (dated field o).0) e)
]

order_issues-nil : (o : Ordering) → order_issues o ≡ [] → o ≢ Ordering.gt
order_issues-nil Ordering.lt h = ground arith
order_issues-nil Ordering.eq h = ground arith
order_issues-nil Ordering.gt h = ground (arith, h)

span_issues-nil : (b : Bool) → span_issues b ≡ [] → b ≡ true
span_issues-nil true h = refl
span_issues-nil false h = ground (arith, h)

module _ (F : Type 0) ⦃d : Double F⦄ ⦃v : Conversions F⦄ where
  -- Two texts without issues are in order, and span at most 31 days.
  range_issues-nil :
      (from to : Text)
      → range_issues F (some from) (some to) ≡ []
      → (compare_utf16 from to ≢ Ordering.gt)
        × (inclusive_day_span F from to ≼ number max_history_span_days)
  range_issues-nil from to h =
      let (order, span) = append-nil (order_issues (compare_utf16 from to)) _ h in
      (order_issues-nil (compare_utf16 from to) order, span_issues-nil _ span)

  abbrev pub IsHistoryQuery : ⦃c : Calendar⦄ → Option Text → Option Text → HistoryQuery → Type 0
  IsHistoryQuery (some from) (some to) q =
      (parse_iso_date from ≡ some q.from)
      × (parse_iso_date to ≡ some q.to)
      × (date_number q.from ≤ date_number q.to)
  IsHistoryQuery _ _ q = ⊥

  -- A price-history query is accepted only with the dates of its two texts, of which the first is not
  -- behind the second; otherwise the error names at least one issue. A date of the calendar has the
  -- year, the month and the day that it is made of.
  pub parse_history_query-IsReported :
      ⦃c : Calendar⦄ (laws : IsCalendar) (from to : Option Text)
      → IsReported (IsHistoryQuery from to) (parse_history_query F from to)
  unfolding parse_history_query
  parse_history_query-IsReported laws none to = ground arith
  parse_history_query-IsReported laws (some from) none =
      finish-IsReported (IsHistoryQuery (some from) none) _ _ (λ h.
        let (no_from, rest) = append-nil (date Field.from (some from)).1 _ h in
        ground (arith, rest))
  parse_history_query-IsReported laws (some from) (some to) =
      let good = IsHistoryQuery (some from) (some to) in
      finish-IsReported good _ _ (λ h.
        let (no_from, rest) = append-nil (date Field.from (some from)).1 _ h in
        let (no_to, in_range) = append-nil (date Field.to (some to)).1 _ rest in
        let (start, p, p_eq) = date-nil Field.from from no_from in
        let (end, q, q_eq) = date-nil Field.to to no_to in
        let (order, span) = range_issues-nil from to in_range in
        let dates = compare_utf16-dates laws from to start end p q order in
        IsSome-bind good _ start _ p_eq (IsSome-bind good _ end _ q_eq (p, q, dates)))
