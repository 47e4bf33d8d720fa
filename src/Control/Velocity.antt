-- ===== src/Control/Velocity.antt =====
-- cpp/src/epos_control/include/control/velocity_control.hpp: the command of mode 9 (CSV).
pub mod Bounds
use motor_control.Base.{Bool, not, ℤ, to_i32, if◌then◌else◌}
use motor_control.Double.{Double}
use motor_control.Waveform.{WaveformConfig, is_none, compute}
use motor_control.Safety.Output.{clamp_abs}
use motor_control.Control.Slew.{apply_slew_rate_limit}

-- struct VelocityControlResult
pub record VelocityControlResult (F : Type 0) : Type 0 where
  pub target_rpm : ℤ
  pub hold_position : ℤ
  pub filtered_rpm : F
  pub waveform_active : Bool

module _ {F : Type 0} ⦃d : Double F⦄ where
  open d use {of_int, lround}

  unfoldable pub compute_velocity_csv_command :
      WaveformConfig F → ℤ → ℤ → ℤ → ℤ → ℤ → F → ℤ → VelocityControlResult F
  compute_velocity_csv_command wf now_ns current_pos requested_rpm accel_limit max_abs_rpm
        previous_rpm dt_ns =
      let active = not (is_none wf.type) in
      let wave_rpm = compute wf now_ns in
      let slewed =
        apply_slew_rate_limit previous_rpm (of_int requested_rpm) (of_int accel_limit) dt_ns in
      let filtered = if active then of_int wave_rpm else slewed in
      let target = if active then wave_rpm else to_i32 (lround slewed) in
      record {
        target_rpm = clamp_abs max_abs_rpm target;
        hold_position = current_pos;
        filtered_rpm = filtered;
        waveform_active = active;
      }
