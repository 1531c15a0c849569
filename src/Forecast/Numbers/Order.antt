-- ===== src/Forecast/Numbers/Order.antt =====
-- The least and the greatest of two numbers in the order of `f64`.
use spot_price.Prelude.{false, ◌≡◌, arith}
use spot_price.Float.{Double, ◌≼◌, IsOrdered}
use spot_price.Forecast.Numbers.{js_min, js_max}

module _ {F : Type 0} ⦃d : Double F⦄ (o : IsOrdered F) where
  open d use {is_nan}
  open o use {le_refl, le_num, le_total, lt-eq}

  pub js_min_le :
      (a b : F) → is_nan a ≡ false → is_nan b ≡ false → (js_min a b ≼ a) × (js_min a b ≼ b)
  unfolding js_min
  js_min_le a b p q =
      ground (arith, lt-eq a b p q, lt-eq b a q p, le_refl a p, le_refl b q, le_total a b p q)

  pub le_js_max :
      (a b : F) → is_nan a ≡ false → is_nan b ≡ false → (a ≼ js_max a b) × (b ≼ js_max a b)
  unfolding js_max
  le_js_max a b p q =
      ground (arith, lt-eq a b p q, lt-eq b a q p, le_refl a p, le_refl b q, le_total a b p q)
