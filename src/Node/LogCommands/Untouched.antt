-- ===== src/Node/LogCommands/Untouched.antt =====
-- Log commands leave a tripped limit and the timeouts alone.
use Prim.Native.String.{String}
use motor_control.Base.{ℤ, arith}
use motor_control.Double.{Double}
use motor_control.Commands.Reader.{TextReader}
use motor_control.Node.State.{Node}
use motor_control.Node.Calm.{Untouched}
use motor_control.Node.Commands.{Outside}
use motor_control.Node.LogCommands.{LogCommand, log_switch, parse_log_command, handle_log_cmd}

module _ {F : Type 0} where
  log_switch-Untouched :
      (outside : Outside) (now : ℤ) (c : LogCommand) (n : Node F)
      → Untouched n (log_switch outside now c n)
  unfolding log_switch
  log_switch-Untouched outside now c n = ground arith

module _ {F : Type 0} ⦃d : Double F⦄ (reader : TextReader F) where
  pub handle_log_cmd-Untouched :
      (outside : Outside) (now : ℤ) (default_path cmd : String) (n : Node F)
      → Untouched n (handle_log_cmd reader outside now default_path cmd n)
  unfolding handle_log_cmd
  handle_log_cmd-Untouched outside now default_path cmd n =
      log_switch-Untouched outside now (parse_log_command reader default_path cmd) n
