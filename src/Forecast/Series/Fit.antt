-- ===== src/Forecast/Series/Fit.antt =====
-- `fit_linear`: the ordinary least squares of one variable.
use spot_price.Prelude.{not, ◌||◌, List, ◌∷◌, length, ltb, ◌==◌, if◌then◌else◌, Result, ok, err}
use spot_price.Float.{Double, number}
use spot_price.Forecast.Numbers.{count_f64}

pub record LinearFit (F : Type 0) : Type 0 where
  pub slope : F
  pub intercept : F

pub data LinearFitError : Type 0 where
  too_few_points : LinearFitError
  zero_variance : LinearFitError

-- The four sums of the loop.
pub record FitSums (F : Type 0) : Type 0 where
  pub sx : F
  pub sy : F
  pub sxx : F
  pub sxy : F

module _ {F : Type 0} ⦃d : Double F⦄ where
  open d use {add, sub, mul, div, eq}

  abbrev pub fit_sums : List F → List F → FitSums F → FitSums F
  fit_sums (x ∷ xs) (y ∷ ys) s = fit_sums xs ys (record {
    sx = add s.sx x;
    sy = add s.sy y;
    sxx = add s.sxx (mul x x);
    sxy = add s.sxy (mul x y);
  })
  fit_sums _ _ s = s

  abbrev pub no_fit_sums : FitSums F
  no_fit_sums = record { sx = number 0; sy = number 0; sxx = number 0; sxy = number 0 }

  abbrev pub denominator : F → FitSums F → F
  denominator n s = sub (mul n s.sxx) (mul s.sx s.sx)

  abbrev pub fit_of : F → FitSums F → Result (LinearFit F) LinearFitError
  fit_of n s =
      let denom = denominator n s in
      let slope = div (sub (mul n s.sxy) (mul s.sx s.sy)) denom in
      if eq denom (number 0)
      then err zero_variance
      else ok (record { slope = slope; intercept = div (sub s.sy (mul slope s.sx)) n })

  unfoldable pub fit_linear : List F → List F → Result (LinearFit F) LinearFitError
  fit_linear xs ys =
      if ltb (length xs) 2 || not (length xs == length ys)
      then err too_few_points
      else fit_of (count_f64 (length xs)) (fit_sums xs ys no_fit_sums)
