-- ===== src/Node/Topics/Sound.antt =====
-- The callbacks that store one value keep the node sound.
use motor_control.Base.{Bool, ℤ, arith}
use motor_control.Double.{Double}
use motor_control.Node.State.{Node}
use motor_control.Node.Invariant.{IsSound}
use motor_control.Node.Topics.{
  on_target_speed, on_target_position, on_target_torque, on_op_mode, on_accel_limit,
  on_pos_speed_limit, on_heartbeat, on_linear_count, on_enable, on_fault_reset, on_force_ch0,
  on_force_ch1, on_linear_mm, on_target_force,
}

module _ {F : Type 0} where
  pub on_target_speed-IsSound :
      (now value : ℤ) (n : Node F) → IsSound n → IsSound (on_target_speed now value n)
  unfolding on_target_speed
  on_target_speed-IsSound now value n h = ground (arith, h)

  pub on_target_position-IsSound :
      (now value : ℤ) (n : Node F) → IsSound n → IsSound (on_target_position now value n)
  unfolding on_target_position
  on_target_position-IsSound now value n h = ground (arith, h)

  pub on_target_torque-IsSound :
      (now value : ℤ) (n : Node F) → IsSound n → IsSound (on_target_torque now value n)
  unfolding on_target_torque
  on_target_torque-IsSound now value n h = ground (arith, h)

  pub on_linear_count-IsSound :
      (now value : ℤ) (n : Node F) → IsSound n → IsSound (on_linear_count now value n)
  unfolding on_linear_count
  on_linear_count-IsSound now value n h = ground (arith, h)

  pub on_op_mode-IsSound : (value : ℤ) (n : Node F) → IsSound n → IsSound (on_op_mode value n)
  unfolding on_op_mode
  on_op_mode-IsSound value n h = ground (arith, h)

  pub on_accel_limit-IsSound :
      (value : ℤ) (n : Node F) → IsSound n → IsSound (on_accel_limit value n)
  unfolding on_accel_limit
  on_accel_limit-IsSound value n h = ground (arith, h)

  pub on_pos_speed_limit-IsSound :
      (value : ℤ) (n : Node F) → IsSound n → IsSound (on_pos_speed_limit value n)
  unfolding on_pos_speed_limit
  on_pos_speed_limit-IsSound value n h = ground (arith, h)

  pub on_heartbeat-IsSound : (value : ℤ) (n : Node F) → IsSound n → IsSound (on_heartbeat value n)
  unfolding on_heartbeat
  on_heartbeat-IsSound value n h = ground (arith, h)

  pub on_enable-IsSound : (wanted : Bool) (n : Node F) → IsSound n → IsSound (on_enable wanted n)
  unfolding on_enable
  on_enable-IsSound wanted n h = ground (arith, h)

  pub on_fault_reset-IsSound : (n : Node F) → IsSound n → IsSound (on_fault_reset n)
  unfolding on_fault_reset
  on_fault_reset-IsSound n h = ground (arith, h)

module _ {F : Type 0} ⦃d : Double F⦄ where
  pub on_force_ch0-IsSound :
      (now : ℤ) (value : F) (n : Node F) → IsSound n → IsSound (on_force_ch0 now value n)
  unfolding on_force_ch0
  on_force_ch0-IsSound now value n h = ground (arith, h)

  pub on_force_ch1-IsSound :
      (now : ℤ) (value : F) (n : Node F) → IsSound n → IsSound (on_force_ch1 now value n)
  unfolding on_force_ch1
  on_force_ch1-IsSound now value n h = ground (arith, h)

  pub on_linear_mm-IsSound :
      (now : ℤ) (value : F) (n : Node F) → IsSound n → IsSound (on_linear_mm now value n)
  unfolding on_linear_mm
  on_linear_mm-IsSound now value n h = ground (arith, h)

  pub on_target_force-IsSound :
      (value : F) (n : Node F) → IsSound n → IsSound (on_target_force value n)
  unfolding on_target_force
  on_target_force-IsSound value n h = ground (arith, h)
