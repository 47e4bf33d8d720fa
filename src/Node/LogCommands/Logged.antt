-- ===== src/Node/LogCommands/Logged.antt =====
-- Log commands keep the logger consistent.
use Prim.Native.String.{String}
use motor_control.Base.{ℤ, pos, Bool-cases, inl, inr}
use motor_control.Double.{Double}
use motor_control.Commands.Reader.{TextReader}
use motor_control.Logging.AsyncLogger.{start_logging}
use motor_control.Logging.AsyncLogger.Invariant.{
  IsConsistent, start_logging_window-IsConsistent, stop_logging-IsConsistent,
}
use motor_control.Node.State.{Node}
use motor_control.Node.Commands.{Outside}
use motor_control.Node.LogCommands.{LogCommand, log_switch, parse_log_command, handle_log_cmd}

module _ {F : Type 0} where
  log_switch-IsConsistent :
      (outside : Outside) (now : ℤ) (cmd : LogCommand) (n : Node F)
      → IsConsistent n.logger
      → IsConsistent (log_switch outside now cmd n).logger
  unfolding log_switch start_logging
  log_switch-IsConsistent outside now LogCommand.stop n h = stop_logging-IsConsistent n.logger h
  log_switch-IsConsistent outside now (LogCommand.start path) n h =
      elim (Bool-cases (outside.has_parent path)) [
        | inl e ↦ rw e (start_logging_window-IsConsistent outside.opens path now (pos 0) n.logger h)
        | inr e ↦ rw e h
      ]
  log_switch-IsConsistent outside now (LogCommand.invalid word) n h = h
  log_switch-IsConsistent outside now LogCommand.unknown n h = h

module _ {F : Type 0} ⦃d : Double F⦄ (reader : TextReader F) where
  pub handle_log_cmd-IsConsistent :
      (outside : Outside) (now : ℤ) (path cmd : String) (n : Node F)
      → IsConsistent n.logger
      → IsConsistent (handle_log_cmd reader outside now path cmd n).logger
  unfolding handle_log_cmd
  handle_log_cmd-IsConsistent outside now path cmd n h =
      log_switch-IsConsistent outside now (parse_log_command reader path cmd) n h
