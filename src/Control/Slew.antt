-- ===== src/Control/Slew.antt =====
-- cpp/src/epos_control/include/control/slew_rate_limiter.hpp: the change of the velocity command in one
-- cycle.
pub mod Bounds
use motor_control.Base.{Bool, ℤ, pos, if◌then◌else◌}
use motor_control.Double.{Double, ◌⊕◌, ◌⊖◌, ◌⊗◌, ◌⊘◌, nought, fmin, fmax}

module _ {F : Type 0} ⦃d : Double F⦄ where
  open d use {lit, of_int, lt, le}

  abbrev pub max_step : F → ℤ → F
  max_step accel_per_s dt_ns = accel_per_s ⊗ (of_int dt_ns ⊘ lit (pos 1000000000) 0)

  unfoldable pub apply_slew_rate_limit : F → F → F → ℤ → F
  apply_slew_rate_limit current target accel_per_s dt_ns =
      if le accel_per_s nought
      then target
      else if lt current target
      then fmin (current ⊕ max_step accel_per_s dt_ns) target
      else if lt target current
      then fmax (current ⊖ max_step accel_per_s dt_ns) target
      else current
