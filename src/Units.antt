-- ===== src/Units.antt =====
-- cpp/src/epos_control/include/util/motor_units.hpp: newtons and millimetres as integers of
-- thousandths.
use motor_control.Base.{ℤ, pos, to_i32, if◌then◌else◌}
use motor_control.Double.{Double, ◌⊗◌, ◌⊘◌}

module _ {F : Type 0} ⦃d : Double F⦄ where
  open d use {lit, of_int, is_finite, lround, to_float}

  unfoldable pub n_to_mn : F → ℤ
  n_to_mn force = if is_finite force then to_i32 (lround (force ⊗ lit (pos 1000) 0)) else pos 0

  unfoldable pub mn_to_n_float : ℤ → F
  mn_to_n_float force = to_float (of_int force ⊗ (lit (pos 1) 0 ⊘ lit (pos 1000) 0))

  unfoldable pub mm_to_um : F → ℤ
  mm_to_um position =
      if is_finite position then to_i32 (lround (position ⊗ lit (pos 1000) 0)) else pos 0
