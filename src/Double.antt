-- ===== src/Double.antt =====
-- The `double` of the platform, which the program uses and does not define: arithmetic, comparisons,
-- rounding and the functions of <cmath>. A decimal literal m * 10^-e of the source is `lit m e`,
-- `of_int` is static_cast<double>, `lround` is std::lround and std::llround, `to_float` is the
-- conversion to `float` and back.
pub mod Laws
pub mod Rounding
pub mod Fixed
use motor_control.Base.{ℕ, ◌≡◌, Bool, true, ℤ, pos, if◌then◌else◌}

pub record Double (F : Type 0) : Type 0 where
  pub lit : ℤ → ℕ → F
  pub of_int : ℤ → F
  pub add : F → F → F
  pub sub : F → F → F
  pub mul : F → F → F
  pub div : F → F → F
  pub neg : F → F
  pub abs : F → F
  pub lt : F → F → Bool
  pub le : F → F → Bool
  pub is_finite : F → Bool
  pub lround : F → ℤ
  pub sin : F → F
  pub cos : F → F
  pub tanh : F → F
  pub fmod : F → F → F
  pub to_float : F → F

module _ {F : Type 0} ⦃d : Double F⦄ where
  infixl 65 ◌⊕◌ ◌⊖◌
  infixl 70 ◌⊗◌ ◌⊘◌
  infix 4 ◌≼◌
  open d use {lit, add, sub, mul, div, lt, le}

  -- The literal 0.0.
  abbrev pub nought : F
  nought = lit (pos 0) 0

  abbrev pub ◌⊕◌ : F → F → F
  ◌⊕◌ = add

  abbrev pub ◌⊖◌ : F → F → F
  ◌⊖◌ = sub

  abbrev pub ◌⊗◌ : F → F → F
  ◌⊗◌ = mul

  abbrev pub ◌⊘◌ : F → F → F
  ◌⊘◌ = div

  abbrev pub ◌≼◌ : F → F → Type 0
  x ≼ y = le x y ≡ true

  -- `std::max` and `std::min` return their first argument unless the comparison holds.
  abbrev pub fmax : F → F → F
  fmax a b = if lt a b then b else a

  abbrev pub fmin : F → F → F
  fmin a b = if lt b a then b else a

  -- std::max(lo, std::min(hi, x))
  abbrev pub fclamp : F → F → F → F
  fclamp lo hi x = fmax lo (fmin hi x)
