-- ===== src/Node/Start.antt =====
-- cpp/src/epos_control/src/epos_motor_node.cpp: what the constructor leaves for the loop, with the
-- initialisers of the members. The master is taken to have started; `now_ns` is the time after that.
use motor_control.Base.{Bool, true, false, ◌||◌, ℤ, pos, eq_ℤ, max_ℤ, min_ℤ, to_i8, if◌then◌else◌}
use motor_control.Double.{Double, ◌⊗◌, nought, fmax, fclamp}
use motor_control.Units.{n_to_mn}
use motor_control.Waveform.{default_config}
use motor_control.Control.ForcePid.{default_pid, default_tanh}
use motor_control.Ethercat.Axis.{DoubleBuffer}
use motor_control.Logging.AsyncLogger.{initial_logger}
use motor_control.Ring.{empty_ring}
use motor_control.Node.State.{Node}

-- The ROS parameters as they are declared.
pub record Options (F : Type 0) : Type 0 where
  pub cycle_hz : ℤ
  pub max_abs_target : ℤ
  pub cmd_timeout_ms : ℤ
  pub auto_enable : Bool
  pub overrun_thresh_us : ℤ
  pub wkc_recover_threshold : ℤ
  pub heartbeat_timeout_ms : ℤ
  pub pos_p_gain : F
  pub motor_ticks_per_rev : ℤ
  pub accel_limit_rpm_s : ℤ
  pub force_limit_n : F
  pub force_kp : F
  pub force_ki : F
  pub force_kd : F
  pub force_max_rpm : ℤ
  pub force_out_alpha : F
  pub force_tanh_sensitivity_n : F
  pub force_tanh_deadband_n : F
  pub slave_index : ℤ
  pub op_mode : ℤ

-- initial_mode
abbrev initial_mode : ℤ → ℤ
initial_mode op_mode =
    if eq_ℤ op_mode (pos 8) || eq_ℤ op_mode (pos 9) || eq_ℤ op_mode (pos 10)
    then to_i8 op_mode
    else pos 9

module _ {F : Type 0} ⦃d : Double F⦄ where
  open d use {lit}

  abbrev pub empty_buffers : DoubleBuffer F
  empty_buffers = record { buffer0 = default_config; buffer1 = default_config; active_idx = 0 }

  unfoldable pub start_node : Options F → ℤ → Node F
  start_node o now_ns = record {
    params = record {
      cycle_hz = o.cycle_hz;
      max_abs_target = o.max_abs_target;
      cmd_timeout_ms = o.cmd_timeout_ms;
      auto_enable = o.auto_enable;
      overrun_thresh_us = o.overrun_thresh_us;
      wkc_recover_threshold = o.wkc_recover_threshold;
      heartbeat_timeout_ms = o.heartbeat_timeout_ms;
      pos_p_gain = o.pos_p_gain;
      motor_ticks_per_rev = max_ℤ (pos 1) o.motor_ticks_per_rev;
    };
    axis = record {
      slave_index = o.slave_index;
      op_mode = initial_mode o.op_mode;
      wf = empty_buffers;
      last_pos = pos 0;
      last_vel = pos 0;
      last_trq = pos 0;
      last_status = 0;
      last_error_code = pos 0;
      force_wf = empty_buffers;
    };
    targets = record {
      target = pos 0;
      target_pos = pos 0;
      target_trq = pos 0;
      requested_op_mode = initial_mode o.op_mode;
      accel_limit_rpm_s = max_ℤ (pos 0) o.accel_limit_rpm_s;
      pos_speed_limit = pos 10000;
      last_cmd_ns = now_ns;
      last_heartbeat_ns = now_ns;
      enable_req = false;
      fault_reset_req = false;
    };
    sensors = record {
      force_ch0_mn = pos 0;
      force_ch1_mn = pos 0;
      force_ch0_ns = pos 0;
      force_ch1_ns = pos 0;
      tare_ch0_mn = pos 0;
      tare_ch1_mn = pos 0;
      linear_count = pos 0;
      linear_um = pos 0;
      linear_ns = pos 0;
    };
    limit = record {
      limit_mn = n_to_mn (fmax nought o.force_limit_n);
      tripped = false;
      peak_mn = pos 0;
      threshold_mn = pos 0;
      event = pos 0;
    };
    force = record {
      active = false;
      target_force_mn = pos 0;
      direction = pos 1;
      feedback_mode = pos 0;
      abs_mode = false;
      kp = o.force_kp;
      ki = o.force_ki;
      kd = o.force_kd;
      max_rpm = max_ℤ (pos 1) (min_ℤ o.max_abs_target o.force_max_rpm);
      out_alpha = fclamp (lit (pos 1) 2) (lit (pos 1) 0) o.force_out_alpha;
      ctrl_mode = pos 0;
      tanh_sensitivity = fmax (lit (pos 1) 3) o.force_tanh_sensitivity_n ⊗ lit (pos 1000) 0;
      tanh_deadband = fmax nought o.force_tanh_deadband_n ⊗ lit (pos 1000) 0;
    };
    diag = record {
      last_wkc = pos 0;
      cycle_dt_us = pos 0;
      cycle_jitter_us = pos 0;
      cycle_overrun_count = pos 0;
      wkc_error_count = pos 0;
      consecutive_wkc_errors = pos 0;
      fault_log_pending = false;
      pending_fault_status = 0;
      diag_ring = empty_ring 2048 (pos 0);
    };
    rt = record {
      next_ns = now_ns;
      last_cycle_ns = now_ns;
      first = true;
      was_fault = false;
      was_force_ctrl = false;
      current_cmd_vel = nought;
      pos_state = record { active_wave_start_ns = pos 0; wave_base_pos = pos 0 };
      fault_reset_hold = 0;
      pid = default_pid;
      tanh = default_tanh;
    };
    logger = record initial_logger { running = true };
    out = record {
      control_word = 0;
      mode_of_operation = pos 0;
      target_position = pos 0;
      target_velocity = pos 0;
      target_torque = pos 0;
    };
  }
