-- ===== src/Node/Topics/Spares.antt =====
-- The callbacks that store one value, but for those of the load cells, leave a tripped limit alone.
use motor_control.Base.{Bool, ℤ, arith}
use motor_control.Double.{Double}
use motor_control.Node.State.{Node}
use motor_control.Node.Latch.{Spares}
use motor_control.Node.Topics.{
  on_target_speed, on_target_position, on_target_torque, on_op_mode, on_accel_limit,
  on_pos_speed_limit, on_heartbeat, on_linear_count, on_enable, on_fault_reset, on_linear_mm,
  on_target_force,
}

module _ {F : Type 0} where
  pub targets-Spares :
      (now value : ℤ) (n : Node F)
      → Spares n (on_target_speed now value n)
        × Spares n (on_target_position now value n)
        × Spares n (on_target_torque now value n)
        × Spares n (on_linear_count now value n)
  unfolding on_target_speed on_target_position on_target_torque on_linear_count
  targets-Spares now value n = (ground arith, ground arith, ground arith, ground arith)

  pub settings-Spares :
      (value : ℤ) (n : Node F)
      → Spares n (on_op_mode value n)
        × Spares n (on_accel_limit value n)
        × Spares n (on_pos_speed_limit value n)
        × Spares n (on_heartbeat value n)
  unfolding on_op_mode on_accel_limit on_pos_speed_limit on_heartbeat
  settings-Spares value n = (ground arith, ground arith, ground arith, ground arith)

  pub services-Spares :
      (wanted : Bool) (n : Node F) → Spares n (on_enable wanted n) × Spares n (on_fault_reset n)
  unfolding on_enable on_fault_reset
  services-Spares wanted n = (ground arith, ground arith)

module _ {F : Type 0} ⦃d : Double F⦄ where
  pub values-Spares :
      (now : ℤ) (value : F) (n : Node F)
      → Spares n (on_linear_mm now value n) × Spares n (on_target_force value n)
  unfolding on_linear_mm on_target_force
  values-Spares now value n = (ground arith, ground arith)
