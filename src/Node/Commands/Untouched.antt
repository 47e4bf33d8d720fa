-- ===== src/Node/Commands/Untouched.antt =====
-- Waveform commands leave a tripped limit and the timeouts alone.
use Prim.Native.String.{String}
use motor_control.Base.{Bool, true, false, ℤ, arith, Option, none, some}
use motor_control.Double.{Double}
use motor_control.Waveform.Hysteresis.{
  HysteresisPlan, make_hyst_velocity_plan, make_hyst_position_plan,
}
use motor_control.Commands.Reader.{TextReader}
use motor_control.Commands.Waveform.{
  WaveformCommandKind, WaveformCommand, WaveformCmd, waveform_command_from_msg,
}
use motor_control.Commands.WaveformText.{waveform_command_from_string}
use motor_control.Node.State.{Node}
use motor_control.Node.Calm.{Untouched}
use motor_control.Node.Commands.{
  Outside, start_plan, start_hyst_sine, start_hyst_pos_sine, run_velocity_plan, run_position_plan,
  finish_position, waveform_switch, apply_waveform_command, handle_waveform_msg,
  handle_waveform_cmd,
}

module _ {F : Type 0} where
  start_plan-Untouched :
      (outside : Outside) (plan : HysteresisPlan F) (n : Node F)
      → Untouched n (start_plan outside plan n).1
  unfolding start_plan
  start_plan-Untouched outside plan n = ground arith

module _ {F : Type 0} ⦃d : Double F⦄ where
  plans-Untouched :
      (outside : Outside) (plan : Option (HysteresisPlan F)) (n : Node F)
      → Untouched n (run_velocity_plan outside plan n).1
        × Untouched n (run_position_plan outside plan n).1
  unfolding run_velocity_plan run_position_plan
  plans-Untouched outside none n = (ground arith, ground arith)
  plans-Untouched outside (some plan) n = (
    start_plan-Untouched outside plan n,
    finished (start_plan outside plan n) (start_plan-Untouched outside plan n),
  )
    where
      finished : (r : Bool × Node F) → Untouched n r.1 → Untouched n (finish_position plan r).1
      finished (true, m) h = ground (arith, h)
      finished (false, m) h = h

  waveform_switch-Untouched :
      (k : WaveformCommandKind) (outside : Outside) (now : ℤ) (cmd : WaveformCommand F) (n : Node F)
      → Untouched n (waveform_switch k outside now cmd n)
  unfolding waveform_switch start_hyst_sine start_hyst_pos_sine
  waveform_switch-Untouched WaveformCommandKind.start_hyst_velocity outside now cmd n =
      (plans-Untouched outside
        (make_hyst_velocity_plan cmd.hyst_velocity n.params.max_abs_target now) n).0
  waveform_switch-Untouched WaveformCommandKind.start_hyst_position outside now cmd n =
      (plans-Untouched outside (make_hyst_position_plan cmd.hyst_position now) n).1
  waveform_switch-Untouched _ outside now cmd n = ground arith

  pub handle_waveform_msg-Untouched :
      (outside : Outside) (now : ℤ) (msg : WaveformCmd F) (n : Node F)
      → Untouched n (handle_waveform_msg outside now msg n)
  unfolding handle_waveform_msg apply_waveform_command
  handle_waveform_msg-Untouched outside now msg n =
      let cmd = waveform_command_from_msg msg n.params.max_abs_target now in
      waveform_switch-Untouched cmd.kind outside now cmd n

  pub handle_waveform_cmd-Untouched :
      (reader : TextReader F) (outside : Outside) (now : ℤ) (cmd : String) (n : Node F)
      → Untouched n (handle_waveform_cmd reader outside now cmd n)
  unfolding handle_waveform_cmd apply_waveform_command
  handle_waveform_cmd-Untouched reader outside now cmd n =
      let c = waveform_command_from_string reader cmd n.params.max_abs_target now in
      waveform_switch-Untouched c.kind outside now c n
