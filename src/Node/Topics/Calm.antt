-- ===== src/Node/Topics/Calm.antt =====
-- The callbacks that store a reading or a setting leave the timeouts and the enabling alone.
use motor_control.Base.{ℤ, arith}
use motor_control.Double.{Double}
use motor_control.Node.State.{Node}
use motor_control.Node.Calm.{Calm}
use motor_control.Node.Topics.{
  on_op_mode, on_accel_limit, on_pos_speed_limit, on_linear_count, on_fault_reset, on_force_ch0,
  on_force_ch1, on_linear_mm, on_target_force,
}

module _ {F : Type 0} where
  pub settings-Calm :
      (now value : ℤ) (n : Node F)
      → Calm n (on_op_mode value n)
        × Calm n (on_accel_limit value n)
        × Calm n (on_pos_speed_limit value n)
        × Calm n (on_linear_count now value n)
        × Calm n (on_fault_reset n)
  unfolding on_op_mode on_accel_limit on_pos_speed_limit on_linear_count on_fault_reset
  settings-Calm now value n = (ground arith, ground arith, ground arith, ground arith, ground arith)

module _ {F : Type 0} ⦃d : Double F⦄ where
  pub values-Calm :
      (now : ℤ) (value : F) (n : Node F)
      → Calm n (on_force_ch0 now value n)
        × Calm n (on_force_ch1 now value n)
        × Calm n (on_linear_mm now value n)
        × Calm n (on_target_force value n)
  unfolding on_force_ch0 on_force_ch1 on_linear_mm on_target_force
  values-Calm now value n = (ground arith, ground arith, ground arith, ground arith)
