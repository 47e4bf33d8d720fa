-- ===== src/Node/Commands.antt =====
-- cpp/src/epos_control/src/epos_motor_node.cpp: the handlers of force, waveform and log commands. What
-- is outside the program is in `Outside`: which log directories can be made, which files opened.
pub mod Sound
pub mod Untouched
pub mod Protocols
pub mod Logged
pub mod Hysteresis
use Prim.Native.String.{String}
use text.Mathlib.Text.{◌==◌ as str_eq}
use motor_control.Base.{
  Bool, true, false, ◌&&◌, ◌||◌, not, ℤ, pos, negsuc, lt_ℤ, le_ℤ, eq_ℤ, max_ℤ, min_ℤ, to_i32,
  Option, none, some, if◌then◌else◌,
}
use motor_control.Double.{Double, ◌⊗◌, nought, fmax, fclamp}
use motor_control.Units.{n_to_mn}
use motor_control.Waveform.{WaveformConfig}
use motor_control.Waveform.Hysteresis.{
  HysteresisPlan, make_hyst_velocity_plan, make_hyst_position_plan,
}
use motor_control.Ethercat.Axis.{set_waveform, stop_waveform}
use motor_control.Commands.Reader.{TextReader}
use motor_control.Commands.Waveform.{
  HystVelocityCommand, HystPositionCommand, WaveformCommandKind, WaveformCommand, WaveformCmd,
  waveform_command_from_msg, CommandError,
}
use motor_control.Commands.WaveformText.{ParseResult, parse_command, waveform_command_from_string}
use motor_control.Commands.Force.{
  ForceCommandKind, ForceCommand, ForceCtrlCmd, force_command_from_msg,
}
use motor_control.Commands.ForceText.{parse_force_ctrl}
use motor_control.Logging.AsyncLogger.{start_logging, start_logging_window, stop_logging}
use motor_control.Node.State.{Node, ForceControl}

pub record Outside : Type 0 where
  -- ensure_parent_dir(path).ok
  pub has_parent : String → Bool
  -- whether std::ofstream::open succeeds
  pub opens : String → Bool

module _ {F : Type 0} where
  abbrev set_wave : WaveformConfig F → Node F → Node F
  set_wave wf n = record n { axis = record n.axis { wf = set_waveform wf n.axis.wf } }

  abbrev stop_wave : Node F → Node F
  stop_wave n = record n { axis = record n.axis { wf = stop_waveform n.axis.wf } }

  abbrev pub set_force_wave : WaveformConfig F → Node F → Node F
  set_force_wave wf n = record n {
    axis = record n.axis { force_wf = set_waveform wf n.axis.force_wf };
  }

  abbrev pub stop_force_wave : Node F → Node F
  stop_force_wave n = record n { axis = record n.axis { force_wf = stop_waveform n.axis.force_wf } }

  -- What the two kinds of test have in common: the directory, the log window, the waveform. The Bool
  -- is the result of the source's function.
  pub start_plan : Outside → HysteresisPlan F → Node F → Bool × Node F
  start_plan outside plan n =
      let (opened, logger) =
        start_logging_window outside.opens plan.path plan.log_start_ns plan.log_end_ns n.logger in
      let logging = record n { logger = logger } in
      if not (outside.has_parent plan.path)
      then (false, n)
      else if opened
      then (true, set_wave plan.waveform logging)
      else (false, logging)

module _ {F : Type 0} ⦃d : Double F⦄ where
  open d use {lit, lround}

  -- The rest of start_hyst_sine, given its plan.
  pub run_velocity_plan : Outside → Option (HysteresisPlan F) → Node F → Bool × Node F
  run_velocity_plan outside none n = (false, n)
  run_velocity_plan outside (some plan) n = start_plan outside plan n

  -- start_hyst_sine
  pub start_hyst_sine : Outside → ℤ → HystVelocityCommand F → Node F → Bool × Node F
  start_hyst_sine outside now cmd n =
      run_velocity_plan outside (make_hyst_velocity_plan cmd n.params.max_abs_target now) n

  -- The mode and the speed limit of a position test, stored once its log is open.
  abbrev position_targets : HysteresisPlan F → Node F → Node F
  position_targets plan n = record n {
    targets = record n.targets {
      requested_op_mode = pos 8;
      pos_speed_limit = to_i32 (lround plan.max_tps);
    };
  }

  abbrev pub finish_position : HysteresisPlan F → Bool × Node F → Bool × Node F
  finish_position plan (true, n) = (true, position_targets plan n)
  finish_position plan (false, n) = (false, n)

  -- The rest of start_hyst_pos_sine, given its plan.
  pub run_position_plan : Outside → Option (HysteresisPlan F) → Node F → Bool × Node F
  run_position_plan outside none n = (false, n)
  run_position_plan outside (some plan) n = finish_position plan (start_plan outside plan n)

  -- start_hyst_pos_sine
  pub start_hyst_pos_sine : Outside → ℤ → HystPositionCommand F → Node F → Bool × Node F
  start_hyst_pos_sine outside now cmd n =
      run_position_plan outside (make_hyst_position_plan cmd now) n

  -- The switch of apply_waveform_command.
  pub waveform_switch : WaveformCommandKind → Outside → ℤ → WaveformCommand F → Node F → Node F
  waveform_switch WaveformCommandKind.stop outside now cmd n = stop_wave n
  waveform_switch WaveformCommandKind.start_general outside now cmd n = set_wave cmd.config n
  waveform_switch WaveformCommandKind.start_hyst_velocity outside now cmd n =
      (start_hyst_sine outside now cmd.hyst_velocity n).1
  waveform_switch WaveformCommandKind.start_hyst_position outside now cmd n =
      (start_hyst_pos_sine outside now cmd.hyst_position n).1
  waveform_switch _ outside now cmd n = n

  pub apply_waveform_command : Outside → ℤ → WaveformCommand F → Node F → Node F
  apply_waveform_command outside now cmd n = waveform_switch cmd.kind outside now cmd n

  -- /epos/waveform_cmd_v2
  pub handle_waveform_msg : Outside → ℤ → WaveformCmd F → Node F → Node F
  handle_waveform_msg outside now msg n =
      apply_waveform_command outside now (waveform_command_from_msg msg n.params.max_abs_target now)
        n

  -- /epos/waveform_cmd
  pub handle_waveform_cmd : TextReader F → Outside → ℤ → String → Node F → Node F
  handle_waveform_cmd reader outside now cmd n =
      apply_waveform_command outside now
        (waveform_command_from_string reader cmd n.params.max_abs_target now) n
