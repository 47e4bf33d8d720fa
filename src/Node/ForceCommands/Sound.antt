-- ===== src/Node/ForceCommands/Sound.antt =====
-- Force commands keep the node sound.
use Prim.Native.String.{String}
use motor_control.Base.{ℤ, pos, arith}
use motor_control.Double.{Double}
use motor_control.Ethercat.Axis.Handover.{set_waveform_index, stop_waveform_index}
use motor_control.Commands.Reader.{TextReader}
use motor_control.Commands.WaveformText.{parse_command}
use motor_control.Commands.Force.{
  ForceCommandKind, ForceCommand, ForceCtrlCmd, force_command_from_msg,
}
use motor_control.Commands.ForceText.{parse_force_ctrl}
use motor_control.Node.State.{Node}
use motor_control.Node.Invariant.{IsSound}
use motor_control.Node.ForceCommands.{
  force_stop, set_max_rpm, set_tanh, set_tare, set_limit, set_waveform_payload, force_switch,
  apply_force_command, handle_force_ctrl_msg, handle_force_ctrl_cmd,
}

module _ {F : Type 0} ⦃d : Double F⦄ (reader : TextReader F) where
  set_waveform_payload-IsSound :
      (now : ℤ) (payload : String) (n : Node F)
      → IsSound n
      → IsSound (set_waveform_payload reader now payload n)
  unfolding set_waveform_payload
  set_waveform_payload-IsSound now payload n h = ground (
    arith,
    h,
    stop_waveform_index n.axis.force_wf,
    set_waveform_index (parse_command reader payload (pos 999999) now).config n.axis.force_wf,
  )

  force_switch-IsSound :
      (k : ForceCommandKind) (now : ℤ) (cmd : ForceCommand F) (n : Node F)
      → IsSound n
      → IsSound (force_switch reader k now cmd n)
  unfolding force_switch force_stop set_max_rpm set_tanh set_tare set_limit
  force_switch-IsSound k now cmd n h = ground (
    arith,
    h,
    stop_waveform_index n.axis.force_wf,
    set_waveform_payload-IsSound now cmd.waveform_payload n h,
  )

  pub handle_force_ctrl_msg-IsSound :
      (now : ℤ) (msg : ForceCtrlCmd F) (n : Node F)
      → IsSound n
      → IsSound (handle_force_ctrl_msg reader now msg n)
  unfolding handle_force_ctrl_msg apply_force_command
  handle_force_ctrl_msg-IsSound now msg n h =
      let cmd = force_command_from_msg msg in force_switch-IsSound cmd.kind now cmd n h

  pub handle_force_ctrl_cmd-IsSound :
      (now : ℤ) (cmd : String) (n : Node F)
      → IsSound n
      → IsSound (handle_force_ctrl_cmd reader now cmd n)
  unfolding handle_force_ctrl_cmd apply_force_command
  handle_force_ctrl_cmd-IsSound now cmd n h =
      let c = parse_force_ctrl reader cmd in force_switch-IsSound c.kind now c n h
