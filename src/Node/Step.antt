-- ===== src/Node/Step.antt =====
-- The node as a state machine: whatever happens to it, in any order, is an event. A callback and a
-- round of the real-time loop each run to their end before the next event.
pub mod Sound
pub mod Latch
pub mod Silence
pub mod Logged
use Prim.Native.String.{String}
use motor_control.Base.{ℕ, Bool, ℤ, List, [], ◌∷◌, Option, none, some}
use motor_control.Double.{Double}
use motor_control.Commands.Reader.{TextReader}
use motor_control.Commands.Waveform.{WaveformCmd}
use motor_control.Commands.Force.{ForceCtrlCmd}
use motor_control.Logging.AsyncLogger.{process_round}
use motor_control.Node.State.{Node}
use motor_control.Node.Cycle.{CycleInput, rt_cycle}
use motor_control.Node.Topics.{
  on_target_speed, on_target_position, on_target_torque, on_op_mode, on_accel_limit,
  on_pos_speed_limit, on_heartbeat, on_linear_count, on_enable, on_fault_reset, on_force_ch0,
  on_force_ch1, on_linear_mm, on_target_force,
}
use motor_control.Node.Commands.{Outside, handle_waveform_msg, handle_waveform_cmd}
use motor_control.Node.ForceCommands.{handle_force_ctrl_msg, handle_force_ctrl_cmd}
use motor_control.Node.LogCommands.{handle_log_cmd}
use motor_control.Node.Feedback.{
  handle_pending_fault_log, publish_force_limit_events, publish_diag_summary,
}

-- The first ℤ of an event with two is the time of the callback.
pub data Event (F : Type 0) : Type 0 where
  target_speed target_position target_torque linear_count : ℤ → ℤ → Event F
  op_mode_cmd accel_limit pos_speed_limit heartbeat : ℤ → Event F
  force_ch0 force_ch1 linear_mm : ℤ → F → Event F
  target_force : F → Event F
  enable : Bool → Event F
  fault_reset : Event F
  waveform_msg : ℤ → WaveformCmd F → Event F
  waveform_cmd : ℤ → String → Event F
  force_msg : ℤ → ForceCtrlCmd F → Event F
  force_cmd : ℤ → String → Event F
  log_cmd : ℤ → String → String → Event F
  fault_log : Option ℕ → Event F
  report_limit report_diag log_round : Event F
  cycle : CycleInput → Event F

module _ {F : Type 0} ⦃d : Double F⦄ (reader : TextReader F) (outside : Outside) where
  pub step : Event F → Node F → Node F
  step (Event.target_speed now v) n = on_target_speed now v n
  step (Event.target_position now v) n = on_target_position now v n
  step (Event.target_torque now v) n = on_target_torque now v n
  step (Event.linear_count now v) n = on_linear_count now v n
  step (Event.op_mode_cmd v) n = on_op_mode v n
  step (Event.accel_limit v) n = on_accel_limit v n
  step (Event.pos_speed_limit v) n = on_pos_speed_limit v n
  step (Event.heartbeat now) n = on_heartbeat now n
  step (Event.force_ch0 now v) n = on_force_ch0 now v n
  step (Event.force_ch1 now v) n = on_force_ch1 now v n
  step (Event.linear_mm now v) n = on_linear_mm now v n
  step (Event.target_force v) n = on_target_force v n
  step (Event.enable wanted) n = on_enable wanted n
  step Event.fault_reset n = on_fault_reset n
  step (Event.waveform_msg now msg) n = handle_waveform_msg outside now msg n
  step (Event.waveform_cmd now cmd) n = handle_waveform_cmd reader outside now cmd n
  step (Event.force_msg now msg) n = handle_force_ctrl_msg reader now msg n
  step (Event.force_cmd now cmd) n = handle_force_ctrl_cmd reader now cmd n
  step (Event.log_cmd now default_path cmd) n = handle_log_cmd reader outside now default_path cmd n
  step (Event.fault_log sdo) n = handle_pending_fault_log sdo n
  step Event.report_limit n = (publish_force_limit_events n).1
  step Event.report_diag n = (publish_diag_summary n).1
  step Event.log_round n = record n { logger = process_round n.logger }
  step (Event.cycle input) n = rt_cycle input n

  pub run : List (Event F) → Node F → Node F
  run [] n = n
  run (e ∷ es) n = run es (step e n)
