-- ===== src/Double/Rounding.antt =====
-- What IEEE 754 and <cmath> document of a product by a quotient that lies in a known range, and of
-- rounding to an integer, for numbers of either sign.
use motor_control.Base.{ℕ, suc, ◌≡◌, ℤ, pos, ◌≤ℤ◌, ◌^◌, ◌*◌, ◌≤◌, abs_ℕ, neg_ℤ}
use motor_control.Double.{Double, ◌≼◌, ◌⊗◌, ◌⊘◌, nought}

-- The integers of a magnitude that a double holds exactly.
abbrev pub IsExact : ℤ → Type 0
IsExact a = abs_ℕ a ≤ 2 ^ 53

module _ (F : Type 0) ⦃d : Double F⦄ where
  open d use {of_int, lit, lround}

  pub record IsRounding : Type 0 where
    pub quotient_bounds :
        (n m : ℕ)
        → n ≤ 2 ^ 53
        → let k : F = lit (pos n) 0 ⊘ of_int (pos (suc m)) in (nought ≼ k) × (k ≼ lit (pos n) 0)
    pub mul_between :
        (a b : ℤ) (x k : F) (n : ℕ)
        → n ≤ 2 ^ 53
        → IsExact a
        → IsExact b
        → of_int a ≼ x
        → x ≼ of_int b
        → nought ≼ k
        → k ≼ lit (pos n) 0
        → (of_int a ⊗ k ≼ x ⊗ k) × (x ⊗ k ≼ of_int b ⊗ k)
    pub mul_range :
        (a : ℤ) (k : F) (n : ℕ)
        → IsExact a
        → abs_ℕ a * n ≤ 2 ^ 53
        → nought ≼ k
        → k ≼ lit (pos n) 0
        → (of_int (neg_ℤ (pos (abs_ℕ a * n))) ≼ of_int a ⊗ k)
          × (of_int a ⊗ k ≼ of_int (pos (abs_ℕ a * n)))
    pub lround_mono :
        (a b : ℤ) (x y : F)
        → IsExact a
        → IsExact b
        → of_int a ≼ x
        → x ≼ y
        → y ≼ of_int b
        → lround x ≤ℤ lround y
    pub lround_int : (a : ℤ) → IsExact a → lround (of_int a) ≡ a
