-- ===== src/Node/ForceCommands/Logged.antt =====
-- Force commands leave the logger alone.
use Prim.Native.String.{String}
use motor_control.Base.{◌≡◌, ℤ, arith}
use motor_control.Double.{Double}
use motor_control.Commands.Reader.{TextReader}
use motor_control.Commands.Force.{
  ForceCommandKind, ForceCommand, ForceCtrlCmd, force_command_from_msg,
}
use motor_control.Commands.ForceText.{parse_force_ctrl}
use motor_control.Node.State.{Node}
use motor_control.Node.ForceCommands.{
  force_stop, set_max_rpm, set_tanh, set_tare, set_limit, set_waveform_payload, force_switch,
  apply_force_command, handle_force_ctrl_msg, handle_force_ctrl_cmd,
}

module _ {F : Type 0} ⦃d : Double F⦄ (reader : TextReader F) where
  payload-logger :
      (now : ℤ) (payload : String) (n : Node F)
      → (set_waveform_payload reader now payload n).logger ≡ n.logger
  unfolding set_waveform_payload
  payload-logger now payload n = ground arith

  force_switch-logger :
      (k : ForceCommandKind) (now : ℤ) (cmd : ForceCommand F) (n : Node F)
      → (force_switch reader k now cmd n).logger ≡ n.logger
  unfolding force_switch force_stop set_max_rpm set_tanh set_tare set_limit
  force_switch-logger ForceCommandKind.set_waveform now cmd n =
      payload-logger now cmd.waveform_payload n
  force_switch-logger k now cmd n = ground arith

  pub force_msg-logger :
      (now : ℤ) (msg : ForceCtrlCmd F) (n : Node F)
      → (handle_force_ctrl_msg reader now msg n).logger ≡ n.logger
  unfolding handle_force_ctrl_msg apply_force_command
  force_msg-logger now msg n =
      let m = force_command_from_msg msg in force_switch-logger m.kind now m n

  pub force_text-logger :
      (now : ℤ) (cmd : String) (n : Node F)
      → (handle_force_ctrl_cmd reader now cmd n).logger ≡ n.logger
  unfolding handle_force_ctrl_cmd apply_force_command
  force_text-logger now cmd n =
      let c = parse_force_ctrl reader cmd in force_switch-logger c.kind now c n
