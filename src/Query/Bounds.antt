-- ===== src/Query/Bounds.antt =====
-- What the number rules accept.
use spot_price.Prelude.{
  ℕ, ◌≤◌, true, false, Option, some, List, [], ◌∷◌, ◌++◌, ◌≡◌, refl, arith, inl, inr, Bool-cases,
  subst,
}
use spot_price.Prelude.Int.{ℤ, pos, negsuc, pos_part, ◌≤ℤ◌}
use spot_price.Float.{Double, Conversions, IsOrdered, IsConverted, number, ◌≼◌}
use spot_price.Query.{Field, Issue}
use spot_price.Query.Numbers.{number_issues, integer_issues, small_integer, above}

pub append-nil : {A : Type 0} (xs ys : List A) → xs ++ ys ≡ [] → (xs ≡ []) × (ys ≡ [])
append-nil [] ys h = (refl, h)
append-nil (x ∷ xs) ys h = ground (arith, h)

-- A negative number has no place between natural numbers.
within : (z : ℤ) (a b : ℕ) → pos a ≤ℤ z → z ≤ℤ pos b → (a ≤ pos_part z) × (pos_part z ≤ b)
within (pos n) a b low high = (omega arith, omega arith)
within (negsuc n) a b low high = absurd (omega arith)

module _ {F : Type 0} ⦃d : Double F⦄ (o : IsOrdered F) where
  le_of_lt : (x y : F) → d.is_nan x ≡ false → d.is_nan y ≡ false → d.lt y x ≡ false → x ≼ y
  le_of_lt x y p q h = ground (arith, o.lt-eq y x q p, h)

  number_num : (n : ℕ) → d.is_nan (number n) ≡ false
  number_num n = o.finite_num (number n) (o.lit_finite (pos n))

  -- A number without issues is finite and in its bounds.
  pub number_issues-nil :
      (field : Field) (value : F) (min : ℕ) (max : Option ℕ)
      → number_issues field value min max ≡ []
      → (d.is_finite value ≡ true) × (number min ≼ value) × (above field value max ≡ [])
  unfolding number_issues
  number_issues-nil field value min max h = elim (Bool-cases (d.is_nan value)) [
    | inl e ↦ ground (arith, e, h)
    | inr e ↦ let low = le_of_lt (number min) value (number_num min) e in ground (arith, h, e, low)
  ]

  pub above-nil :
      (field : Field) (value : F) (max : ℕ)
      → d.is_nan value ≡ false
      → above field value (some max) ≡ []
      → value ≼ number max
  above-nil field value max num h = elim (Bool-cases (d.lt (number max) value)) [
    | inl e ↦ ground (arith, e, h)
    | inr e ↦ le_of_lt value (number max) num (number_num max) e
  ]

  -- A whole number without issues is finite, without a fraction, and in its bounds.
  pub integer_issues-nil :
      (field : Field) (value : F) (min max : ℕ)
      → integer_issues field value min max ≡ []
      → (d.is_finite value ≡ true)
        × (d.eq (d.fract value) (number 0) ≡ true)
        × (number min ≼ value)
        × (value ≼ number max)
  unfolding integer_issues
  integer_issues-nil field value min max h = elim (Bool-cases (d.is_finite value)) [
    | inr e ↦
        let issues : number_issues field value min (some max) ≡ [] = ground (arith, e, h) in
        ground (arith, e, number_issues-nil field value min (some max) issues)
    | inl e ↦ elim (Bool-cases (d.eq (d.fract value) (number 0))) [
      | inr q ↦ ground (arith, e, q, h)
      | inl q ↦
          let issues : number_issues field value min (some max) ≡ [] =
            ground (arith, append-nil {A = Issue}, e, q, h) in
          let (finite, low, fine) = number_issues-nil field value min (some max) issues in
          (e, q, low, above-nil field value max (o.finite_num value e) fine)
    ]
  ]

  -- Such a number is read as an integer in the same bounds.
  pub small_integer-some :
      ⦃v : Conversions F⦄ (c : IsConverted F) (value : F) (min max : ℕ)
      → min ≤ max
      → max ≤ 4_294_967_295
      → d.is_finite value ≡ true
      → d.eq (d.fract value) (number 0) ≡ true
      → number min ≼ value
      → value ≼ number max
      → (n : ℕ) × (small_integer value ≡ some n) × (min ≤ n) × (n ≤ max)
  unfolding small_integer
  small_integer-some ⦃v⦄ c value min max ordered small finite whole low high =
      let above_zero =
        o.le_trans (number 0) (number min) value (c.lit_mono 0 min (omega arith)) low in
      let below = c.lit_mono max 4_294_967_295 small in
      let in_u32 = o.le_trans value (number max) (number 4_294_967_295) high below in
      let least : pos min ≤ℤ v.to_i64 value =
        subst (λ z. z ≤ℤ v.to_i64 value) (c.to_i64_lit min (omega arith))
          (c.to_i64_mono (number min) value (o.lit_finite (pos min)) finite low) in
      let most : v.to_i64 value ≤ℤ pos max =
        subst (λ z. v.to_i64 value ≤ℤ z) (c.to_i64_lit max (omega arith))
          (c.to_i64_mono value (number max) finite (o.lit_finite (pos max)) high) in
      let bounds = within (v.to_i64 value) min max least most in
      (pos_part (v.to_i64 value), rw whole (rw above_zero (rw in_u32 refl)), bounds.0, bounds.1)
