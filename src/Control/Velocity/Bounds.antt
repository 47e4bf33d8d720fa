-- ===== src/Control/Velocity/Bounds.antt =====
-- cpp/src/epos_control/include/control/velocity_control.hpp: the command is within its limit.
use motor_control.Base.{◌≡◌, ◌≤◌, ◌⊎◌, ℤ, abs_ℕ, pos_part, to_i32, arith, if◌then◌else◌}
use motor_control.Double.{Double}
use motor_control.Waveform.{WaveformConfig, is_none, compute}
use motor_control.Safety.Output.Guard.{clamp_abs_bounds, clamp_abs_id}
use motor_control.Control.Slew.{apply_slew_rate_limit}
use motor_control.Control.Velocity.{compute_velocity_csv_command}

module _ {F : Type 0} ⦃d : Double F⦄ where
  open d use {of_int, lround}

  -- The velocity of mode 9 is in magnitude at most the limit. It is the value of the waveform,
  -- or without one the rounded slewed velocity, unless that value's magnitude is the limit or
  -- more. The velocity that is kept for the next round is the one before the limit, and the
  -- position is the present one.
  pub velocity_command_lem :
      (wf : WaveformConfig F) (now position requested accel max_abs : ℤ) (previous : F) (dt_ns : ℤ)
      → let slewed = apply_slew_rate_limit previous (of_int requested) (of_int accel) dt_ns in
        let wanted = if is_none wf.type then to_i32 (lround slewed) else compute wf now in
        let r =
          compute_velocity_csv_command wf now position requested accel max_abs previous dt_ns in
        (abs_ℕ r.target_rpm ≤ pos_part max_abs)
        × ((r.target_rpm ≡ wanted) ⊎ (pos_part max_abs ≤ abs_ℕ wanted))
        × (r.filtered_rpm ≡ (if is_none wf.type then slewed else of_int (compute wf now)))
        × (r.hold_position ≡ position)
  unfolding compute_velocity_csv_command
  velocity_command_lem wf now position requested accel max_abs previous dt_ns =
      let slewed = apply_slew_rate_limit previous (of_int requested) (of_int accel) dt_ns in
      let wanted = if is_none wf.type then to_i32 (lround slewed) else compute wf now in
      ground (arith, clamp_abs_bounds max_abs wanted, clamp_abs_id max_abs wanted)
