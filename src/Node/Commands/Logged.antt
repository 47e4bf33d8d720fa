-- ===== src/Node/Commands/Logged.antt =====
-- Waveform commands keep the logger consistent.
use Prim.Native.String.{String}
use motor_control.Base.{Bool, true, false, not, Bool-cases, inl, inr, ℤ, Option, none, some}
use motor_control.Double.{Double}
use motor_control.Waveform.Hysteresis.{
  HysteresisPlan, make_hyst_velocity_plan, make_hyst_position_plan,
}
use motor_control.Commands.Reader.{TextReader}
use motor_control.Commands.Waveform.{
  WaveformCommandKind, WaveformCommand, WaveformCmd, waveform_command_from_msg,
}
use motor_control.Commands.WaveformText.{waveform_command_from_string}
use motor_control.Logging.AsyncLogger.{start_logging_window}
use motor_control.Node.State.{Node}
use motor_control.Logging.AsyncLogger.Invariant.{IsConsistent, start_logging_window-IsConsistent}
use motor_control.Node.Commands.{
  Outside, start_plan, start_hyst_sine, start_hyst_pos_sine, run_velocity_plan, run_position_plan,
  finish_position, waveform_switch, apply_waveform_command, handle_waveform_msg,
  handle_waveform_cmd,
}

module _ {F : Type 0} where
  start_plan-IsConsistent :
      (outside : Outside) (plan : HysteresisPlan F) (n : Node F)
      → IsConsistent n.logger
      → IsConsistent (start_plan outside plan n).1.logger
  unfolding start_plan
  start_plan-IsConsistent outside plan n h =
      let kept =
        start_logging_window-IsConsistent outside.opens plan.path plan.log_start_ns plan.log_end_ns
          n.logger h in
      let opened =
        (start_logging_window outside.opens plan.path plan.log_start_ns plan.log_end_ns
          n.logger).0 in
      elim (Bool-cases (not (outside.has_parent plan.path))) [
        | inl e ↦ rw e h
        | inr e ↦ elim (Bool-cases opened) [ inl o ↦ rw (e, o) kept | inr o ↦ rw (e, o) kept ]
      ]

module _ {F : Type 0} ⦃d : Double F⦄ where
  plans-IsConsistent :
      (outside : Outside) (plan : Option (HysteresisPlan F)) (n : Node F)
      → IsConsistent n.logger
      → IsConsistent (run_velocity_plan outside plan n).1.logger
        × IsConsistent (run_position_plan outside plan n).1.logger
  unfolding run_velocity_plan run_position_plan
  plans-IsConsistent outside none n h = (h, h)
  plans-IsConsistent outside (some plan) n h = (
    start_plan-IsConsistent outside plan n h,
    finished (start_plan outside plan n) (start_plan-IsConsistent outside plan n h),
  )
    where
      finished :
          (r : Bool × Node F)
          → IsConsistent r.1.logger
          → IsConsistent (finish_position plan r).1.logger
      finished (true, m) k = k
      finished (false, m) k = k

  waveform_switch-IsConsistent :
      (k : WaveformCommandKind) (outside : Outside) (now : ℤ) (cmd : WaveformCommand F) (n : Node F)
      → IsConsistent n.logger
      → IsConsistent (waveform_switch k outside now cmd n).logger
  unfolding waveform_switch start_hyst_sine start_hyst_pos_sine
  waveform_switch-IsConsistent WaveformCommandKind.start_hyst_velocity outside now cmd n h =
      (plans-IsConsistent outside
        (make_hyst_velocity_plan cmd.hyst_velocity n.params.max_abs_target now) n h).0
  waveform_switch-IsConsistent WaveformCommandKind.start_hyst_position outside now cmd n h =
      (plans-IsConsistent outside (make_hyst_position_plan cmd.hyst_position now) n h).1
  waveform_switch-IsConsistent _ outside now cmd n h = h

  pub handle_waveform_msg-IsConsistent :
      (outside : Outside) (now : ℤ) (msg : WaveformCmd F) (n : Node F)
      → IsConsistent n.logger
      → IsConsistent (handle_waveform_msg outside now msg n).logger
  unfolding handle_waveform_msg apply_waveform_command
  handle_waveform_msg-IsConsistent outside now msg n h =
      let cmd = waveform_command_from_msg msg n.params.max_abs_target now in
      waveform_switch-IsConsistent cmd.kind outside now cmd n h

  pub handle_waveform_cmd-IsConsistent :
      (reader : TextReader F) (outside : Outside) (now : ℤ) (cmd : String) (n : Node F)
      → IsConsistent n.logger
      → IsConsistent (handle_waveform_cmd reader outside now cmd n).logger
  unfolding handle_waveform_cmd apply_waveform_command
  handle_waveform_cmd-IsConsistent reader outside now cmd n h =
      let c = waveform_command_from_string reader cmd n.params.max_abs_target now in
      waveform_switch-IsConsistent c.kind outside now c n h
