-- ===== src/Node/Topics.antt =====
-- cpp/src/epos_control/src/epos_motor_node.cpp: the subscriptions and services that store one value.
-- `now` is now_monotonic_ns() at the callback.
pub mod Sound
pub mod Spares
pub mod Calm
pub mod Silence
pub mod Logged
use motor_control.Base.{Bool, true, ◌||◌, ℤ, pos, eq_ℤ, to_i8, to_i16, if◌then◌else◌}
use motor_control.Double.{Double}
use motor_control.Units.{n_to_mn, mm_to_um}
use motor_control.Node.State.{Node}

-- The modes that /op_mode_cmd accepts.
abbrev pub is_mode : ℤ → Bool
is_mode mode = eq_ℤ mode (pos 8) || eq_ℤ mode (pos 9) || eq_ℤ mode (pos 10)

module _ {F : Type 0} where
  -- /target_speed
  pub on_target_speed : ℤ → ℤ → Node F → Node F
  on_target_speed now value n = record n {
    targets = record n.targets { target = value; last_cmd_ns = now };
  }

  -- /target_position
  pub on_target_position : ℤ → ℤ → Node F → Node F
  on_target_position now value n = record n {
    targets = record n.targets { target_pos = value; last_cmd_ns = now };
  }

  -- /target_torque
  pub on_target_torque : ℤ → ℤ → Node F → Node F
  on_target_torque now value n = record n {
    targets = record n.targets { target_trq = to_i16 value; last_cmd_ns = now };
  }

  -- /op_mode_cmd
  pub on_op_mode : ℤ → Node F → Node F
  on_op_mode value n =
      let mode = to_i8 value in
      if is_mode mode
      then record n { targets = record n.targets { requested_op_mode = mode } }
      else n

  -- /accel_limit_rpm_s
  pub on_accel_limit : ℤ → Node F → Node F
  on_accel_limit value n = record n { targets = record n.targets { accel_limit_rpm_s = value } }

  -- /pos_speed_limit
  pub on_pos_speed_limit : ℤ → Node F → Node F
  on_pos_speed_limit value n = record n { targets = record n.targets { pos_speed_limit = value } }

  -- /epos/heartbeat
  pub on_heartbeat : ℤ → Node F → Node F
  on_heartbeat now n = record n { targets = record n.targets { last_heartbeat_ns = now } }

  -- /linear_encoder/position_count
  pub on_linear_count : ℤ → ℤ → Node F → Node F
  on_linear_count now value n = record n {
    sensors = record n.sensors { linear_count = value; linear_ns = now };
  }

  -- ~/enable
  pub on_enable : Bool → Node F → Node F
  on_enable wanted n = record n { targets = record n.targets { enable_req = wanted } }

  -- ~/fault_reset
  pub on_fault_reset : Node F → Node F
  on_fault_reset n = record n { targets = record n.targets { fault_reset_req = true } }

module _ {F : Type 0} ⦃d : Double F⦄ where
  -- /load_cell/ch0_N
  pub on_force_ch0 : ℤ → F → Node F → Node F
  on_force_ch0 now value n = record n {
    sensors = record n.sensors { force_ch0_mn = n_to_mn value; force_ch0_ns = now };
  }

  -- /load_cell/ch1_N
  pub on_force_ch1 : ℤ → F → Node F → Node F
  on_force_ch1 now value n = record n {
    sensors = record n.sensors { force_ch1_mn = n_to_mn value; force_ch1_ns = now };
  }

  -- /linear_encoder/position_mm
  pub on_linear_mm : ℤ → F → Node F → Node F
  on_linear_mm now value n = record n {
    sensors = record n.sensors { linear_um = mm_to_um value; linear_ns = now };
  }

  -- /target_force_N
  pub on_target_force : F → Node F → Node F
  on_target_force value n = record n { force = record n.force { target_force_mn = n_to_mn value } }
