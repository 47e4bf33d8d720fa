-- ===== src/Node/ForceCommands/Spares.antt =====
-- Force commands that do not set the limit leave a tripped limit alone, and all of them the timeouts.
use Prim.Native.String.{String}
use motor_control.Base.{ℤ, ◌≢◌, arith}
use motor_control.Double.{Double}
use motor_control.Commands.Reader.{TextReader}
use motor_control.Commands.Force.{
  ForceCommandKind, ForceCommand, ForceCtrlCmd, force_command_from_msg,
}
use motor_control.Commands.ForceText.{parse_force_ctrl}
use motor_control.Node.State.{Node}
use motor_control.Node.Latch.{Spares}
use motor_control.Node.Calm.{Calm}
use motor_control.Node.ForceCommands.{
  force_stop, set_max_rpm, set_tanh, set_tare, set_limit, set_waveform_payload, force_switch,
  apply_force_command, handle_force_ctrl_msg, handle_force_ctrl_cmd,
}

module _ {F : Type 0} ⦃d : Double F⦄ (reader : TextReader F) where
  set_waveform_payload-Spares :
      (now : ℤ) (payload : String) (n : Node F)
      → Spares n (set_waveform_payload reader now payload n)
  unfolding set_waveform_payload
  set_waveform_payload-Spares now payload n = ground arith

  force_switch-Spares :
      (k : ForceCommandKind) (now : ℤ) (cmd : ForceCommand F) (n : Node F)
      → k ≢ ForceCommandKind.set_limit
      → Spares n (force_switch reader k now cmd n)
  unfolding force_switch force_stop set_max_rpm set_tanh set_tare
  force_switch-Spares k now cmd n h =
      ground (arith, set_waveform_payload-Spares now cmd.waveform_payload n)

  pub handle_force_ctrl_msg-Spares :
      (now : ℤ) (msg : ForceCtrlCmd F) (n : Node F)
      → (force_command_from_msg msg).kind ≢ ForceCommandKind.set_limit
      → Spares n (handle_force_ctrl_msg reader now msg n)
  unfolding handle_force_ctrl_msg apply_force_command
  handle_force_ctrl_msg-Spares now msg n h =
      let cmd = force_command_from_msg msg in force_switch-Spares cmd.kind now cmd n h

  pub handle_force_ctrl_cmd-Spares :
      (now : ℤ) (cmd : String) (n : Node F)
      → (parse_force_ctrl reader cmd).kind ≢ ForceCommandKind.set_limit
      → Spares n (handle_force_ctrl_cmd reader now cmd n)
  unfolding handle_force_ctrl_cmd apply_force_command
  handle_force_ctrl_cmd-Spares now cmd n h =
      let c = parse_force_ctrl reader cmd in force_switch-Spares c.kind now c n h

  set_waveform_payload-Calm :
      (now : ℤ) (payload : String) (n : Node F) → Calm n (set_waveform_payload reader now payload n)
  unfolding set_waveform_payload
  set_waveform_payload-Calm now payload n = ground arith

  force_switch-Calm :
      (k : ForceCommandKind) (now : ℤ) (cmd : ForceCommand F) (n : Node F)
      → Calm n (force_switch reader k now cmd n)
  unfolding force_switch force_stop set_max_rpm set_tanh set_tare set_limit
  force_switch-Calm ForceCommandKind.set_waveform now cmd n =
      set_waveform_payload-Calm now cmd.waveform_payload n
  force_switch-Calm k now cmd n = ground arith

  pub force_msg-Calm :
      (now : ℤ) (msg : ForceCtrlCmd F) (n : Node F)
      → Calm n (handle_force_ctrl_msg reader now msg n)
  unfolding handle_force_ctrl_msg apply_force_command
  force_msg-Calm now msg n = let m = force_command_from_msg msg in force_switch-Calm m.kind now m n

  pub force_text-Calm :
      (now : ℤ) (cmd : String) (n : Node F) → Calm n (handle_force_ctrl_cmd reader now cmd n)
  unfolding handle_force_ctrl_cmd apply_force_command
  force_text-Calm now cmd n =
      let c = parse_force_ctrl reader cmd in force_switch-Calm c.kind now c n
