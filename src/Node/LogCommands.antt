-- ===== src/Node/LogCommands.antt =====
-- cpp/src/epos_control/include/logging/log_command.hpp and handle_log_cmd of
-- cpp/src/epos_control/src/epos_motor_node.cpp. The default path, which holds the date, is an argument.
pub mod Sound
pub mod Untouched
pub mod Logged
use Prim.Native.String.{String}
use text.Mathlib.Text.{◌==◌ as str_eq}
use motor_control.Base.{Bool, not, ℤ, some, if◌then◌else◌}
use motor_control.Double.{Double}
use motor_control.Commands.Reader.{TextReader, read_word, read_line}
use motor_control.Logging.AsyncLogger.{start_logging, stop_logging}
use motor_control.Node.State.{Node}
use motor_control.Node.Commands.{Outside}

-- enum class LogCommandKind, with the path of START and the word of INVALID.
pub data LogCommand : Type 0 where
  unknown stop : LogCommand
  start : String → LogCommand
  invalid : String → LogCommand

module _ {F : Type 0} ⦃d : Double F⦄ (reader : TextReader F) where
  unfoldable pub parse_log_command : String → String → LogCommand
  parse_log_command default_path cmd =
      let (action, iss) = read_word reader (some cmd) "" in
      let path = read_line reader iss in
      if str_eq action ""
      then LogCommand.unknown
      else if str_eq action "stop"
      then LogCommand.stop
      else if str_eq action "start"
      then LogCommand.start (if str_eq path "" then default_path else path)
      else LogCommand.invalid action

module _ {F : Type 0} where
  -- The switch of handle_log_cmd.
  pub log_switch : Outside → ℤ → LogCommand → Node F → Node F
  log_switch outside now LogCommand.stop n = record n { logger = stop_logging n.logger }
  log_switch outside now (LogCommand.start path) n =
      if outside.has_parent path
      then record n { logger = (start_logging outside.opens path now n.logger).1 }
      else n
  log_switch outside now (LogCommand.invalid word) n = n
  log_switch outside now LogCommand.unknown n = n

module _ {F : Type 0} ⦃d : Double F⦄ (reader : TextReader F) where
  -- /epos/log_cmd
  pub handle_log_cmd : Outside → ℤ → String → String → Node F → Node F
  handle_log_cmd outside now default_path cmd n =
      log_switch outside now (parse_log_command reader default_path cmd) n
