-- ===== src/Forecast/Series/Sanity.antt =====
-- `sanity_bound_from_history`: the clamp of the output.
pub mod Range
use spot_price.Prelude.{
  Bool, true, false, not, ◌||◌, Option, none, some, List, [], ◌∷◌, map, if◌then◌else◌,
}
use spot_price.Float.{Double, number}
use spot_price.Forecast.Quarter.{QuarterMap}
use spot_price.Forecast.Numbers.{js_min}

pub record SanityBound (F : Type 0) : Type 0 where
  pub min : F
  pub max : F

module _ {F : Type 0} ⦃d : Double F⦄ where
  open d use {infinity, neg_infinity, neg, add, sub, mul, lt, is_finite}

  abbrev pub sanity_margin_k : F
  sanity_margin_k = number 3

  abbrev pub sanity_min_fallback_cents_kwh : F
  sanity_min_fallback_cents_kwh = neg (number 50)

  -- One price of the loop, on the least and the greatest so far.
  abbrev pub widen : F → F × F → F × F
  widen price (lo, hi) = (if lt price lo then price else lo, if lt hi price then price else hi)

  abbrev pub extremes : List F → F × F → F × F
  extremes [] range = range
  extremes (price ∷ prices) range =
      extremes prices (if is_finite price then widen price range else range)

  abbrev pub bound_of : F × F → Option (SanityBound F)
  bound_of (lo, hi) =
      let spread = sub hi lo in
      if not (is_finite lo) || not (is_finite hi)
      then none
      else some (record {
        min =
            js_min (number 0)
              (js_min (sub lo (mul sanity_margin_k spread)) sanity_min_fallback_cents_kwh);
        max = add hi (mul sanity_margin_k spread);
      })

  unfoldable pub sanity_bound_from_history : QuarterMap F → Option (SanityBound F)
  sanity_bound_from_history history =
      bound_of (extremes (map (λ e. e.1) history) (infinity, neg_infinity))
