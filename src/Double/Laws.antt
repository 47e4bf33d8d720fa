-- ===== src/Double/Laws.antt =====
-- What IEEE 754 and <cmath> document of the operations that the theorems rely on. A value is a number
-- if it is `<=` itself; NaN is the only value that is not.
use motor_control.Base.{ℕ, ◌≡◌, true, false, ℤ, pos, arith, ◌≤ℤ◌, ◌^◌, ◌*◌, ◌≤◌, ◌<◌}
use motor_control.Double.{Double, ◌≼◌, ◌⊗◌, ◌⊘◌, nought, fclamp}

module _ (F : Type 0) ⦃d : Double F⦄ where
  open d use {of_int, lit, lt, lround, neg, is_finite}

  -- The order is total on the numbers, and NaN compares false.
  pub record IsOrdered : Type 0 where
    pub refl_of_le : (x y : F) → x ≼ y → (x ≼ x) × (y ≼ y)
    pub le_trans : (x y z : F) → x ≼ y → y ≼ z → x ≼ z
    pub le_of_lt : (x y : F) → lt x y ≡ true → x ≼ y
    pub le_of_not_lt : (x y : F) → x ≼ x → y ≼ y → lt x y ≡ false → y ≼ x
    pub of_int_mono : (a b : ℤ) → a ≤ℤ b → of_int a ≼ of_int b
    pub lit_mono : (a b e f : ℕ) → a * 10 ^ f ≤ b * 10 ^ e → lit (pos a) e ≼ lit (pos b) f
    pub nought_lem : lit (pos 0) 0 ≡ of_int (pos 0)

module _ (F : Type 0) ⦃d : Double F⦄ where
  open d use {of_int, lit, lround}

  -- Products, reciprocals and rounding of numbers that are not negative are monotone, and the product
  -- of two integers that are exact is rounded once.
  pub record IsMonotone : Type 0 where
    pub of_int_lit : (n : ℕ) → of_int (pos n) ≡ lit (pos n) 0
    pub mul_bounds :
        (a x : F) (m n : ℕ)
        → m ≤ 2 ^ 53
        → n ≤ 2 ^ 53
        → nought ≼ a
        → a ≼ lit (pos m) 0
        → nought ≼ x
        → x ≼ lit (pos n) 0
        → (nought ≼ a ⊗ x) × (a ⊗ x ≼ lit (pos (m * n)) 0)
    pub recip_bounds :
        (x : F)
        → lit (pos 1) 3 ≼ x
        → (nought ≼ lit (pos 1) 0 ⊘ x) × (lit (pos 1) 0 ⊘ x ≼ lit (pos 1000) 0)
    pub lround_bounds :
        (x : F) (n : ℕ)
        → n < 2 ^ 62
        → nought ≼ x
        → x ≼ lit (pos n) 0
        → (pos 0 ≤ℤ lround x) × (lround x ≤ℤ pos (2 * n))

module _ {F : Type 0} ⦃d : Double F⦄ (laws : IsOrdered F) where
  open laws use {refl_of_le, le_trans, le_of_lt}

  -- The clamp is within its bounds whatever is clamped, NaN included.
  pub fclamp_bounds : (lo hi x : F) → lo ≼ hi → (lo ≼ fclamp lo hi x) × (fclamp lo hi x ≼ hi)
  fclamp_bounds lo hi x h =
      ground (arith, refl_of_le lo hi h, le_of_lt x hi, le_of_lt lo x, le_of_lt lo hi)
