-- ===== src/Node/Commands/Sound.antt =====
-- Waveform commands keep the node sound.
use Prim.Native.String.{String}
use motor_control.Base.{Bool, true, false, ℤ, arith, Option, none, some}
use motor_control.Double.{Double}
use motor_control.Waveform.Hysteresis.{
  HysteresisPlan, make_hyst_velocity_plan, make_hyst_position_plan,
}
use motor_control.Ethercat.Axis.Handover.{set_waveform_index, stop_waveform_index}
use motor_control.Commands.Reader.{TextReader}
use motor_control.Commands.Waveform.{
  WaveformCommandKind, WaveformCommand, WaveformCmd, waveform_command_from_msg,
}
use motor_control.Commands.WaveformText.{waveform_command_from_string}
use motor_control.Node.State.{Node}
use motor_control.Node.Invariant.{IsSound}
use motor_control.Node.Commands.{
  Outside, start_plan, start_hyst_sine, start_hyst_pos_sine, run_velocity_plan, run_position_plan,
  finish_position, waveform_switch, apply_waveform_command, handle_waveform_msg,
  handle_waveform_cmd,
}

module _ {F : Type 0} where
  start_plan-IsSound :
      (outside : Outside) (plan : HysteresisPlan F) (n : Node F)
      → IsSound n
      → IsSound (start_plan outside plan n).1
  unfolding start_plan
  start_plan-IsSound outside plan n h =
      ground (arith, h, set_waveform_index plan.waveform n.axis.wf)

module _ {F : Type 0} ⦃d : Double F⦄ where
  run_velocity_plan-IsSound :
      (outside : Outside) (plan : Option (HysteresisPlan F)) (n : Node F)
      → IsSound n
      → IsSound (run_velocity_plan outside plan n).1
  unfolding run_velocity_plan
  run_velocity_plan-IsSound outside none n h = h
  run_velocity_plan-IsSound outside (some plan) n h = start_plan-IsSound outside plan n h

  finish_position-IsSound :
      (plan : HysteresisPlan F) (r : Bool × Node F)
      → IsSound r.1
      → IsSound (finish_position plan r).1
  finish_position-IsSound plan (true, n) h = ground (arith, h)
  finish_position-IsSound plan (false, n) h = h

  run_position_plan-IsSound :
      (outside : Outside) (plan : Option (HysteresisPlan F)) (n : Node F)
      → IsSound n
      → IsSound (run_position_plan outside plan n).1
  unfolding run_position_plan
  run_position_plan-IsSound outside none n h = h
  run_position_plan-IsSound outside (some plan) n h =
      finish_position-IsSound plan (start_plan outside plan n) (start_plan-IsSound outside plan n h)

  waveform_switch-IsSound :
      (k : WaveformCommandKind) (outside : Outside) (now : ℤ) (cmd : WaveformCommand F) (n : Node F)
      → IsSound n
      → IsSound (waveform_switch k outside now cmd n)
  unfolding waveform_switch start_hyst_sine start_hyst_pos_sine
  waveform_switch-IsSound WaveformCommandKind.stop outside now cmd n h =
      ground (arith, h, stop_waveform_index n.axis.wf)
  waveform_switch-IsSound WaveformCommandKind.start_general outside now cmd n h =
      ground (arith, h, set_waveform_index cmd.config n.axis.wf)
  waveform_switch-IsSound WaveformCommandKind.start_hyst_velocity outside now cmd n h =
      run_velocity_plan-IsSound outside
        (make_hyst_velocity_plan cmd.hyst_velocity n.params.max_abs_target now) n h
  waveform_switch-IsSound WaveformCommandKind.start_hyst_position outside now cmd n h =
      run_position_plan-IsSound outside (make_hyst_position_plan cmd.hyst_position now) n h
  waveform_switch-IsSound WaveformCommandKind.unknown outside now cmd n h = h
  waveform_switch-IsSound WaveformCommandKind.invalid outside now cmd n h = h

  pub handle_waveform_msg-IsSound :
      (outside : Outside) (now : ℤ) (msg : WaveformCmd F) (n : Node F)
      → IsSound n
      → IsSound (handle_waveform_msg outside now msg n)
  unfolding handle_waveform_msg apply_waveform_command
  handle_waveform_msg-IsSound outside now msg n h =
      let cmd = waveform_command_from_msg msg n.params.max_abs_target now in
      waveform_switch-IsSound cmd.kind outside now cmd n h

  pub handle_waveform_cmd-IsSound :
      (reader : TextReader F) (outside : Outside) (now : ℤ) (cmd : String) (n : Node F)
      → IsSound n
      → IsSound (handle_waveform_cmd reader outside now cmd n)
  unfolding handle_waveform_cmd apply_waveform_command
  handle_waveform_cmd-IsSound reader outside now cmd n h =
      let c = waveform_command_from_string reader cmd n.params.max_abs_target now in
      waveform_switch-IsSound c.kind outside now c n h
