-- ===== src/Node/Topics/Logged.antt =====
-- The callbacks that store one value leave the logger alone.
use motor_control.Base.{◌≡◌, refl, Bool, ℤ, arith}
use motor_control.Double.{Double}
use motor_control.Node.State.{Node}
use motor_control.Node.Topics.{
  on_target_speed, on_target_position, on_target_torque, on_op_mode, on_accel_limit,
  on_pos_speed_limit, on_heartbeat, on_linear_count, on_enable, on_fault_reset, on_force_ch0,
  on_force_ch1, on_linear_mm, on_target_force,
}

module _ {F : Type 0} where
  pub on_op_mode-logger : (value : ℤ) (n : Node F) → (on_op_mode value n).logger ≡ n.logger
  unfolding on_op_mode
  on_op_mode-logger value n = ground arith

  pub topics-logger :
      (now value : ℤ) (wanted : Bool) (n : Node F)
      → ((on_target_speed now value n).logger ≡ n.logger)
        × ((on_target_position now value n).logger ≡ n.logger)
        × ((on_target_torque now value n).logger ≡ n.logger)
        × ((on_accel_limit value n).logger ≡ n.logger)
        × ((on_pos_speed_limit value n).logger ≡ n.logger)
        × ((on_heartbeat now n).logger ≡ n.logger)
        × ((on_linear_count now value n).logger ≡ n.logger)
        × ((on_enable wanted n).logger ≡ n.logger)
        × ((on_fault_reset n).logger ≡ n.logger)
  unfolding on_target_speed on_target_position on_target_torque on_accel_limit on_pos_speed_limit
      on_heartbeat on_linear_count on_enable on_fault_reset
  topics-logger now value wanted n = (refl, refl, refl, refl, refl, refl, refl, refl, refl)

module _ {F : Type 0} ⦃d : Double F⦄ where
  pub values-logger :
      (now : ℤ) (value : F) (n : Node F)
      → ((on_force_ch0 now value n).logger ≡ n.logger)
        × ((on_force_ch1 now value n).logger ≡ n.logger)
        × ((on_linear_mm now value n).logger ≡ n.logger)
        × ((on_target_force value n).logger ≡ n.logger)
  unfolding on_force_ch0 on_force_ch1 on_linear_mm on_target_force
  values-logger now value n = (refl, refl, refl, refl)
