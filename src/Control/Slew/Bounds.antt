-- ===== src/Control/Slew/Bounds.antt =====
-- cpp/src/epos_control/include/control/slew_rate_limiter.hpp: the limiter does not pass its target.
use motor_control.Base.{◌≡◌, ◌⊎◌, false, ℤ, arith}
use motor_control.Double.{Double, nought, ◌≼◌, ◌⊕◌, ◌⊖◌}
use motor_control.Double.Laws.{IsOrdered}
use motor_control.Control.Slew.{max_step, apply_slew_rate_limit}

module _ {F : Type 0} ⦃d : Double F⦄ where
  open d use {lt, le}

  -- With numbers ordered as IEEE 754 documents, a positive or NaN acceleration limit, and a
  -- step that neither lowers the velocity when added nor raises it when subtracted: the next
  -- velocity lies between the present one and the target, in either direction, or is the
  -- present one.
  slew_bounds :
      IsOrdered F
      → (current target accel : F) (dt_ns : ℤ)
      → let step = max_step accel dt_ns in
        current ≼ current ⊕ step
        → current ⊖ step ≼ current
        → le accel nought ≡ false
        → let next = apply_slew_rate_limit current target accel dt_ns in
          ((current ≼ next) × (next ≼ target))
          ⊎ ((target ≼ next) × (next ≼ current))
          ⊎ (next ≡ current)
  unfolding apply_slew_rate_limit
  slew_bounds laws current target accel dt_ns up down h = ground (
    arith,
    up,
    down,
    h,
    IsOrdered.refl_of_le laws current (current ⊕ max_step accel dt_ns) up,
    IsOrdered.refl_of_le laws (current ⊖ max_step accel dt_ns) current down,
    IsOrdered.le_of_lt laws current target,
    IsOrdered.le_of_lt laws target current,
    IsOrdered.refl_of_le laws current target,
    IsOrdered.refl_of_le laws target current,
    IsOrdered.le_of_not_lt laws target (current ⊕ max_step accel dt_ns),
    IsOrdered.le_of_not_lt laws (current ⊖ max_step accel dt_ns) target,
  )
