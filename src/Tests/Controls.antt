-- ===== src/Tests/Controls.antt =====
-- Runs of the control laws on concrete inputs.
use motor_control.Base.{◌≡◌, refl, pos, some, ◌+ℤ◌, ◌-ℤ◌, ◌*ℤ◌, ◌/ℤ◌, to_i32, to_i64}
use motor_control.Base.{negsuc, false, true, ◌≤ℤ◌, ◌<ℤ◌, arith}
use motor_control.Double.{◌⊗◌}
use motor_control.Double.Fixed.{Fixed, fixed_double, Fixed-IsOrdered}
use motor_control.Double.Fixed.Rounding.{Fixed-IsRounding}
use motor_control.Control.Position.Bounds.{rpm_per_tps, position_speed_bounds}
use motor_control.Waveform.{default_config, compute}
use motor_control.Control.Position.{
  PositionControlState, rebase, wave_goal, position_goal, max_tps_of, compute_position_csv_command,
}
use motor_control.Control.ForcePid.{default_pid, default_tanh, reset, pid_compute, tanh_compute}
use motor_control.Control.Force.{
  ForceControlParams, select_force_feedback, run_controller, compute_force_control_command,
}
use motor_control.Base.{◌≤◌, ◌⊎◌, abs_ℕ, if◌then◌else◌}
use motor_control.Waveform.{is_none, WaveformConfig}
use motor_control.Control.Slew.{apply_slew_rate_limit}
use motor_control.Control.Velocity.{compute_velocity_csv_command}
use motor_control.Control.Velocity.Bounds.{velocity_command_lem}
use motor_control.Node.Start.{start_node}
use motor_control.Node.Cycle.Force.{selected_force, force_params}
use motor_control.Node.Cycle.Finish.{log_record}
use motor_control.Node.Cycle.Command.{start_frame}
use motor_control.Tests.Data.{started, faulty_drive}

abbrev at_rest : PositionControlState
at_rest = record { active_wave_start_ns = pos 0; wave_base_pos = pos 0 }

-- 1000 ticks away, with gain 5 and 2000 ticks per revolution: 5000 ticks/s, which are 150 RPM.
move_command :
    (compute_position_csv_command default_config
      (pos 0)
      (pos 0)
      (pos 1000)
      (pos 10000)
      (some (pos 5_000_000))
      (pos 2000)
      at_rest).0.target_rpm
    ≡ pos 150
unfolding compute_position_csv_command position_goal wave_goal rebase max_tps_of ◌+ℤ◌ ◌-ℤ◌ ◌*ℤ◌ ◌/ℤ◌
    to_i32 to_i64
move_command = refl

position_speed_bounds_example :
    let rpm =
      (compute_position_csv_command default_config
        (pos 0)
        (pos 0)
        (pos 1000)
        (pos 10000)
        (some (pos 5_000_000))
        (pos 2000)
        at_rest).0.target_rpm in
    (fixed_double.lround (some (negsuc 9_999_999_999) ⊗ rpm_per_tps (pos 2000)) ≤ℤ rpm)
    × (rpm ≤ℤ fixed_double.lround (some (pos 10_000_000_000) ⊗ rpm_per_tps (pos 2000)))
    × ((rpm ≡ pos 0) ⊎ ((false ≡ true) × (false ≡ false)) ⊎ (pos 3 <ℤ pos 1000))
unfolding max_tps_of compute_position_csv_command position_goal to_i32 ◌-ℤ◌
position_speed_bounds_example =
    position_speed_bounds Fixed-IsOrdered Fixed-IsRounding default_config (pos 0) (pos 0) (pos 1000)
      (pos 10000) (some (pos 5_000_000)) (pos 2000) at_rest (omega arith)

abbrev pull_params : ForceControlParams Fixed
pull_params = record {
  target_force_mn = pos 1000;
  direction = pos 1;
  max_rpm = pos 50;
  ctrl_mode = pos 0;
  fallback_max_rpm = pos 3000;
  kp = some (pos 20_000);
  ki = some (pos 0);
  kd = some (pos 0);
  tanh_sensitivity_mn = some (pos 1_000_000_000);
  tanh_deadband_mn = some (pos 10_000_000);
  output_alpha = some (pos 1_000_000);
}

-- 500 mN short of the target, with gain 0.02: 10 RPM, for the PID and for the integral-free filter.
pull_command :
    (compute_force_control_command default_config
      (pos 0)
      (pos 500)
      pull_params
      (some (pos 0))
      (pos 1_000_000)
      (reset default_pid)
      default_tanh).target_rpm
    ≡ pos 10
unfolding compute_force_control_command run_controller pid_compute tanh_compute reset compute ◌+ℤ◌
    ◌-ℤ◌ ◌*ℤ◌ ◌/ℤ◌ to_i32 to_i64
pull_command = refl

params_at_start : (force_params started).max_rpm ≡ pos 50
unfolding force_params start_node
params_at_start = refl

no_force_at_start : (selected_force started).control_mn ≡ pos 0
unfolding selected_force start_node select_force_feedback ◌+ℤ◌ ◌-ℤ◌ ◌/ℤ◌ to_i32
no_force_at_start = refl

-- The record of a round in fault has the word of the drive and the mode of the frame.
logged_word :
    (log_record
      (pos 2_000_000)
      (pos 1000)
      faulty_drive
      (selected_force started)
      (start_frame faulty_drive started)).status_word
    ≡ 8
unfolding log_record
logged_word = refl

velocity_command_lem_example :
    let wave : WaveformConfig Fixed = default_config in
    let slewed =
      apply_slew_rate_limit
        (some (pos 0))
        (fixed_double.of_int (pos 100))
        (fixed_double.of_int (pos 5000))
        (pos 1_000_000) in
    let wanted =
      if is_none wave.type then to_i32 (fixed_double.lround slewed) else compute wave (pos 0) in
    let r =
      compute_velocity_csv_command wave
        (pos 0)
        (pos 77)
        (pos 100)
        (pos 5000)
        (pos 3000)
        (some (pos 0))
        (pos 1_000_000) in
    (abs_ℕ r.target_rpm ≤ 3000)
    × ((r.target_rpm ≡ wanted) ⊎ (3000 ≤ abs_ℕ wanted))
    × (r.filtered_rpm
        ≡ (if is_none wave.type then slewed else fixed_double.of_int (compute wave (pos 0))))
    × (r.hold_position ≡ pos 77)
velocity_command_lem_example =
    velocity_command_lem default_config (pos 0) (pos 77) (pos 100) (pos 5000) (pos 3000)
      (some (pos 0)) (pos 1_000_000)
