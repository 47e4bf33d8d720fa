-- ===== src/Node/LogCommands/Sound.antt =====
-- Log commands keep the node sound.
use Prim.Native.String.{String}
use motor_control.Base.{ℤ, arith}
use motor_control.Double.{Double}
use motor_control.Commands.Reader.{TextReader}
use motor_control.Node.State.{Node}
use motor_control.Node.Invariant.{IsSound}
use motor_control.Node.Commands.{Outside}
use motor_control.Node.LogCommands.{LogCommand, parse_log_command, log_switch, handle_log_cmd}

module _ {F : Type 0} where
  log_switch-IsSound :
      (outside : Outside) (now : ℤ) (c : LogCommand) (n : Node F)
      → IsSound n
      → IsSound (log_switch outside now c n)
  unfolding log_switch
  log_switch-IsSound outside now c n h = ground (arith, h)

module _ {F : Type 0} ⦃d : Double F⦄ (reader : TextReader F) where
  pub handle_log_cmd-IsSound :
      (outside : Outside) (now : ℤ) (default_path cmd : String) (n : Node F)
      → IsSound n
      → IsSound (handle_log_cmd reader outside now default_path cmd n)
  unfolding handle_log_cmd
  handle_log_cmd-IsSound outside now default_path cmd n h =
      log_switch-IsSound outside now (parse_log_command reader default_path cmd) n h
