-- ===== src/Price.antt =====
-- `crates/domain/src/price.rs`: contract terms, price windows and the cheapest window.
pub mod Contract
mod Examples
pub mod Summary
mod Run
pub mod Cheapest
use spot_price.Prelude.{
  ℕ, zero, suc, ◌+◌, ◌-◌, ◌≤◌, Bool, true, false, not, ◌&&◌, ◌||◌, Option, none, some, List, [],
  ◌∷◌, map, ◌==◌, leb, ltb, if◌then◌else◌, length, take, drop, first?, last?,
}
use mathlib.Core.Option
use spot_price.Prelude.Int.{ℤ, pos, ◌-ℤ◌}
use spot_price.Prelude.Text.{Text}
use spot_price.Areas.{Area}
use spot_price.Float.{Double, number}
use spot_price.Jiff.{Instant, Zoned}
use spot_price.Js.{round3, max_zero}
use spot_price.Time.{
  UserTimeZone, local_hour, format_date_time_in_time_zone, truncate_to_millisecond,
}
use spot_price.Settings.{Hour, UserSettings}

infixl 5 ◌>>=◌
abbrev ◌>>=◌ {ℓ κ} : {A : Type ℓ} {B : Type κ} → Option A → (A → Option B) → Option B
none >>= f = none
some a >>= f = f a

-- A delivery interval `[start, end)`, made by `new_period`.
pub record DeliveryPeriod (T : Type 0) : Type 0 where
  pub start : T
  pub end : T

pub record PriceInterval (T F : Type 0) : Type 0 where
  pub period : DeliveryPeriod T
  pub price_eur_mwh : F
  pub area : Area

-- The money breakdown of one interval, in c/kWh.
pub record ContractBreakdown (F : Type 0) : Type 0 where
  pub spot_cents_kwh : F
  pub margin_cents_kwh : F
  pub transfer_cents_kwh : F
  pub tax_cents_kwh : F
  pub vat_cents_kwh : F
  pub total_cents_kwh : F
  pub is_night_rate : Bool

pub record TotalPrice (T F : Type 0) : Type 0 where
  pub period : DeliveryPeriod T
  pub local_start : Text
  pub local_end : Text
  pub breakdown : ContractBreakdown F

-- A list of total prices with its summary.
pub record PriceWindow (T F : Type 0) : Type 0 where
  pub start : T
  pub end : T
  pub start_local : Text
  pub end_local : Text
  pub min_total_cents_kwh : F
  pub max_total_cents_kwh : F
  pub average_total_cents_kwh : F
  pub prices : List (TotalPrice T F)

-- The night window `[start, end)`, which wraps past midnight when its start is later.
unfoldable pub is_night_hour : ℕ → ℕ → ℕ → Bool
is_night_hour hour night_start night_end =
    if ltb night_end night_start
    then leb night_start hour || ltb hour night_end
    else leb night_start hour && ltb hour night_end

module _ {T : Type 0} ⦃i : Instant T⦄ where
  -- `DeliveryPeriod::new`; `none` is `EmptyPeriod`.
  unfoldable pub new_period : T → T → Option (DeliveryPeriod T)
  unfolding truncate_to_millisecond
  new_period from to =
      let start = truncate_to_millisecond from in
      let end = truncate_to_millisecond to in
      if i.lt start end then some (record { start = start; end = end }) else none

module _ {F : Type 0} ⦃d : Double F⦄ where
  open d use {add, mul, div}

  unfoldable pub eur_mwh_to_cents_kwh : F → F
  unfolding round3
  eur_mwh_to_cents_kwh eur_mwh = round3 (div eur_mwh (number 10))

  -- the sum before the value-added tax, and the factor of the tax
  abbrev before_vat : F → F → F → F → F
  before_vat spot margin transfer tax = add (add (add (max_zero spot) margin) transfer) tax

  module _ {Z : Type 0} where
    unfoldable pub apply_contract_terms : F → UserSettings F Z → ℕ → ContractBreakdown F
    unfolding is_night_hour round3 max_zero
    apply_contract_terms spot s hour =
        let night = is_night_hour hour s.night_start_hour.get s.night_end_hour.get in
        let transfer = if night then s.transfer_night_cents_kwh else s.transfer_day_cents_kwh in
        let sum = before_vat spot s.margin_cents_kwh transfer s.tax_cents_kwh in
        let rate = div s.vat_percent (number 100) in
        record {
          spot_cents_kwh = spot;
          margin_cents_kwh = s.margin_cents_kwh;
          transfer_cents_kwh = transfer;
          tax_cents_kwh = s.tax_cents_kwh;
          vat_cents_kwh = round3 (mul sum rate);
          total_cents_kwh = round3 (mul sum (add (number 1) rate));
          is_night_rate = night;
        }

module _ {T F Z : Type 0} ⦃d : Double F⦄ ⦃z : Zoned T Z⦄ where
  unfoldable pub calculate_total_price : PriceInterval T F → UserSettings F Z → TotalPrice T F
  unfolding eur_mwh_to_cents_kwh local_hour format_date_time_in_time_zone apply_contract_terms
  calculate_total_price price s =
      let zone = s.timezone.zone in
      let spot = eur_mwh_to_cents_kwh price.price_eur_mwh in
      let hour = local_hour price.period.start zone in
      record {
        period = price.period;
        local_start = format_date_time_in_time_zone price.period.start zone;
        local_end = format_date_time_in_time_zone price.period.end zone;
        breakdown = apply_contract_terms spot s hour;
      }

  unfoldable pub calculate_total_prices :
      List (PriceInterval T F) → UserSettings F Z → List (TotalPrice T F)
  unfolding calculate_total_price
  calculate_total_prices prices s = map (λ price. calculate_total_price price s) prices

-- The variables of the loop of `build_price_window`.
record Sums (F : Type 0) : Type 0 where
  weighted_sum : F
  total_minutes : F
  min : F
  max : F

-- The best average so far of `find_cheapest_window`, with the bounds of its window.
abbrev Best : Type 0 → Type 0
Best F = F × Option (ℕ × ℕ)

module _ {F : Type 0} ⦃d : Double F⦄ where
  open d use {div, lt}

  abbrev no_sums : Sums F
  no_sums = record {
    weighted_sum = number 0;
    total_minutes = number 0;
    min = d.infinity;
    max = d.neg_infinity;
  }

  abbrev average_of : Sums F → F
  average_of s =
      if lt (number 0) s.total_minutes then div s.weighted_sum s.total_minutes else number 0

  abbrev improve : Best F → ℕ → Option (ℕ × F) → Best F
  improve best start none = best
  improve best start (some (count, average)) =
      if lt average best.0 then (average, some (start, start + count)) else best

module _ {T F : Type 0} ⦃i : Instant T⦄ ⦃d : Double F⦄ where
  open i use {as_millisecond}
  open d use {lit, add, mul, div, lt, le}

  -- The length in minutes.
  unfoldable pub minutes : DeliveryPeriod T → F
  minutes period =
      div (lit (as_millisecond period.end -ℤ as_millisecond period.start)) (number 60_000)

  abbrev pub total_of : TotalPrice T F → F
  total_of entry = entry.breakdown.total_cents_kwh

  add_entry : Sums F → TotalPrice T F → Sums F
  unfolding minutes
  add_entry s entry =
      let total = total_of entry in
      let length' = minutes entry.period in
      record {
        weighted_sum = add s.weighted_sum (mul total length');
        total_minutes = add s.total_minutes length';
        min = if lt total s.min then total else s.min;
        max = if lt s.max total then total else s.max;
      }

  sum_entries : Sums F → List (TotalPrice T F) → Sums F
  unfolding add_entry
  sum_entries s [] = s
  sum_entries s (entry ∷ entries) = sum_entries (add_entry s entry) entries

  unfoldable pub build_price_window : List (TotalPrice T F) → Option (PriceWindow T F)
  unfolding sum_entries round3
  build_price_window prices = do
    first ← first? prices
    last ← last? prices
    let s = sum_entries no_sums prices
    some (record {
      start = first.period.start;
      end = last.period.end;
      start_local = first.local_start;
      end_local = last.local_end;
      min_total_cents_kwh = round3 s.min;
      max_total_cents_kwh = round3 s.max;
      average_total_cents_kwh = round3 (average_of s);
      prices = prices;
    })

  -- Whether an interval starts where the one before it ended.
  abbrev follows : Option T → TotalPrice T F → Bool
  follows none entry = true
  follows (some end) entry = i.eq entry.period.start end

  -- The inner loop, over the entries from the start index on: how many it takes and their average.
  pub run : F → F → F → Option T → List (TotalPrice T F) → Option (ℕ × F)
  unfolding minutes
  run duration accumulated weighted previous_end [] = none
  run duration accumulated weighted previous_end (entry ∷ entries) =
      let length' = minutes entry.period in
      let accumulated' = add accumulated length' in
      let weighted' = add weighted (mul (total_of entry) length') in
      let rest = run duration accumulated' weighted' (some entry.period.end) entries in
      if not (follows previous_end entry)
      then none
      else if le duration accumulated'
      then some (1, div weighted' accumulated')
      else Option.map (λ r. (r.0 + 1, r.1)) rest

  -- The outer loop, over the start indexes.
  unfoldable pub scan : F → Best F → ℕ → List (TotalPrice T F) → Best F
  unfolding run
  scan duration best start [] = best
  scan duration best start (entry ∷ entries) =
      let found = run duration (number 0) (number 0) none (entry ∷ entries) in
      scan duration (improve best start found) (start + 1) entries

  -- `slice::get(start..end)`.
  abbrev slice? : ℕ → ℕ → List (TotalPrice T F) → Option (List (TotalPrice T F))
  slice? start end prices =
      if leb start end && leb end (length prices)
      then some (take (end - start) (drop start prices))
      else none

  unfoldable pub find_cheapest_window : List (TotalPrice T F) → ℕ → Option (PriceWindow T F)
  find_cheapest_window [] duration = none
  find_cheapest_window (entry ∷ entries) duration =
      let prices = entry ∷ entries in
      let found = scan (number duration) (d.infinity, none) 0 prices in
      if duration == 0
      then none
      else do best ← found.1; window ← slice? best.0 best.1 prices; build_price_window window
