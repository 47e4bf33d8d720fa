-- ===== src/Control/Force.antt =====
-- cpp/src/epos_control/include/control/force_control.hpp: which force is controlled, and the velocity
-- that the PID or the tanh controller asks for.
pub mod Select
use motor_control.Base.{
  ℕ, Bool, true, false, ◌&&◌, not, ℤ, pos, ◌+ℤ◌, ◌/ℤ◌, lt_ℤ, eq_ℤ, max_ℤ, abs_i32, to_i32,
  if◌then◌else◌,
}
use motor_control.Double.{Double, ◌⊕◌, ◌⊖◌, ◌⊗◌, ◌⊘◌, nought}
use motor_control.Waveform.{WaveformConfig, is_none, compute}
use motor_control.Control.ForcePid.{ForcePid, ForceTanh, pid_compute, tanh_compute}

-- struct ForceFeedbackSelection
pub record ForceFeedbackSelection : Type 0 where
  pub signed_mn : ℤ
  pub abs_mn : ℤ
  pub control_mn : ℤ

abbrev selection : Bool → ℤ → ℤ → ForceFeedbackSelection
selection force_abs signed magnitude = record {
  signed_mn = signed;
  abs_mn = magnitude;
  control_mn = if force_abs then magnitude else signed;
}

-- The switch over `feedback_mode`; its default case is that of channel 0.
unfoldable pub select_force_feedback : ℤ → ℤ → ℤ → Bool → ForceFeedbackSelection
select_force_feedback force0 force1 feedback_mode force_abs =
    if eq_ℤ feedback_mode (pos 1)
    then selection force_abs force1 (abs_i32 force1)
    else if eq_ℤ feedback_mode (pos 2)
    then selection force_abs (to_i32 (force0 +ℤ force1) /ℤ 2)
        (to_i32 (abs_i32 force0 +ℤ abs_i32 force1) /ℤ 2)
    else if eq_ℤ feedback_mode (pos 3)
    then selection force_abs (if lt_ℤ (abs_i32 force0) (abs_i32 force1) then force1 else force0)
        (max_ℤ (abs_i32 force0) (abs_i32 force1))
    else selection force_abs force0 (abs_i32 force0)

-- struct ForceControlParams
pub record ForceControlParams (F : Type 0) : Type 0 where
  pub target_force_mn : ℤ
  pub direction : ℤ
  pub max_rpm : ℤ
  pub ctrl_mode : ℤ
  pub fallback_max_rpm : ℤ
  pub kp : F
  pub ki : F
  pub kd : F
  pub tanh_sensitivity_mn : F
  pub tanh_deadband_mn : F
  pub output_alpha : F

-- struct ForceControlOutput, and the two controllers after the call.
pub record ForceControlOutput (F : Type 0) : Type 0 where
  pub target_mn : F
  pub actual_mn : F
  pub axis_rpm : F
  pub motor_rpm : F
  pub filtered_rpm : F
  pub target_rpm : ℤ
  pub pid : ForcePid F
  pub tanh : ForceTanh F

module _ {F : Type 0} ⦃d : Double F⦄ where
  open d use {lit, of_int, abs, lt, lround}

  abbrev max_rpm_of : ForceControlParams F → F
  max_rpm_of p = of_int (if lt_ℤ (pos 0) p.max_rpm then p.max_rpm else p.fallback_max_rpm)

  abbrev tuned_tanh : ForceControlParams F → ForceTanh F
  tuned_tanh p = record {
    max_rpm = max_rpm_of p;
    sensitivity_mn = p.tanh_sensitivity_mn;
    deadband_mn = p.tanh_deadband_mn;
  }

  abbrev tuned_pid : ForceControlParams F → ForcePid F → ForcePid F
  tuned_pid p pid = record pid { kp = p.kp; ki = p.ki; kd = p.kd; output_limit = max_rpm_of p }

  -- The controller that `ctrl_mode` names: its output and the two controllers after the call.
  unfoldable pub run_controller :
      ForceControlParams F → F → F → ℤ → ForcePid F → ForceTanh F → F × ForcePid F × ForceTanh F
  run_controller p target_mn actual_mn dt_ns pid tanh =
      let (rpm, pid') =
        pid_compute (tuned_pid p pid) target_mn actual_mn (of_int dt_ns ⊘ lit (pos 1000000000) 0) in
      if eq_ℤ p.ctrl_mode (pos 1)
      then (tanh_compute (tuned_tanh p) target_mn actual_mn, pid, tuned_tanh p)
      else (rpm, pid', tanh)

  unfoldable pub compute_force_control_command :
      WaveformConfig F
      → ℤ
      → ℤ
      → ForceControlParams F
      → F
      → ℤ
      → ForcePid F
      → ForceTanh F
      → ForceControlOutput F
  compute_force_control_command wf now_ns actual_force_mn p previous_rpm dt_ns pid tanh =
      let target_mn = of_int (if is_none wf.type then p.target_force_mn else compute wf now_ns) in
      let actual_mn = of_int actual_force_mn in
      let (axis_rpm, pid', tanh') = run_controller p target_mn actual_mn dt_ns pid tanh in
      let motor_rpm = of_int p.direction ⊗ axis_rpm in
      let filtered =
        if eq_ℤ p.ctrl_mode (pos 1) && lt (abs axis_rpm) (lit (pos 1) 9)
        then nought
        else p.output_alpha ⊗ motor_rpm ⊕ (lit (pos 1) 0 ⊖ p.output_alpha) ⊗ previous_rpm in
      record {
        target_mn = target_mn;
        actual_mn = actual_mn;
        axis_rpm = axis_rpm;
        motor_rpm = motor_rpm;
        filtered_rpm = filtered;
        target_rpm = to_i32 (lround filtered);
        pid = pid';
        tanh = tanh';
      }
