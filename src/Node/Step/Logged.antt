-- ===== src/Node/Step/Logged.antt =====
-- The logger's files over any sequence of events.
use mathlib.Core.Path.{subst}
use motor_control.Base.{◌≡◌, sym, false, ℤ, pos, List, [], ◌∷◌, none}
use motor_control.Double.{Double}
use motor_control.Commands.Reader.{TextReader}
use motor_control.Logging.AsyncLogger.{AsyncLogger}
use motor_control.Logging.AsyncLogger.Invariant.{
  IsConsistent, process_round-IsConsistent, initial_logger-IsConsistent,
}
use motor_control.Node.State.{Node}
use motor_control.Node.Start.{Options, start_node}
use motor_control.Node.Commands.{Outside}
use motor_control.Node.Topics.Logged.{on_op_mode-logger, topics-logger, values-logger}
use motor_control.Node.Commands.Logged.{
  handle_waveform_msg-IsConsistent, handle_waveform_cmd-IsConsistent,
}
use motor_control.Node.ForceCommands.Logged.{force_msg-logger, force_text-logger}
use motor_control.Node.LogCommands.Logged.{handle_log_cmd-IsConsistent}
use motor_control.Node.Feedback.Logged.{timers-logger}
use motor_control.Node.Cycle.Logged.{rt_cycle-IsConsistent}
use motor_control.Node.Step.{Event, step, run}

same : {F : Type 0} {l m : AsyncLogger F} → m ≡ l → IsConsistent l → IsConsistent m
same e h = subst IsConsistent (sym e) h

module _ {F : Type 0} ⦃d : Double F⦄ where
  start_node-IsConsistent : (o : Options F) (now : ℤ) → IsConsistent (start_node o now).logger
  unfolding start_node
  start_node-IsConsistent o now =
      let h = initial_logger-IsConsistent ⦃d = d⦄ in record { window = h.window; closed = h.closed }

module _ {F : Type 0} ⦃d : Double F⦄ (reader : TextReader F) (outside : Outside) where
  step-IsConsistent :
      (e : Event F) (n : Node F)
      → IsConsistent n.logger
      → IsConsistent (step reader outside e n).logger
  unfolding step
  step-IsConsistent (Event.target_speed now v) n h = same (topics-logger now v false n).0 h
  step-IsConsistent (Event.target_position now v) n h = same (topics-logger now v false n).1 h
  step-IsConsistent (Event.target_torque now v) n h = same (topics-logger now v false n).2 h
  step-IsConsistent (Event.accel_limit v) n h = same (topics-logger v v false n).3 h
  step-IsConsistent (Event.pos_speed_limit v) n h = same (topics-logger v v false n).4 h
  step-IsConsistent (Event.heartbeat now) n h = same (topics-logger now now false n).5 h
  step-IsConsistent (Event.linear_count now v) n h = same (topics-logger now v false n).6 h
  step-IsConsistent (Event.op_mode_cmd v) n h = same (on_op_mode-logger v n) h
  step-IsConsistent (Event.force_ch0 now v) n h = same (values-logger now v n).0 h
  step-IsConsistent (Event.force_ch1 now v) n h = same (values-logger now v n).1 h
  step-IsConsistent (Event.linear_mm now v) n h = same (values-logger now v n).2 h
  step-IsConsistent (Event.target_force v) n h = same (values-logger (pos 0) v n).3 h
  step-IsConsistent (Event.enable wanted) n h = same (topics-logger (pos 0) (pos 0) wanted n).7 h
  step-IsConsistent Event.fault_reset n h = same (topics-logger (pos 0) (pos 0) false n).8 h
  step-IsConsistent (Event.force_msg now msg) n h = same (force_msg-logger reader now msg n) h
  step-IsConsistent (Event.force_cmd now cmd) n h = same (force_text-logger reader now cmd n) h
  step-IsConsistent (Event.fault_log sdo) n h = same (timers-logger sdo n).0 h
  step-IsConsistent Event.report_limit n h = same (timers-logger none n).1 h
  step-IsConsistent Event.report_diag n h = same (timers-logger none n).2 h
  step-IsConsistent (Event.waveform_msg now msg) n h =
      handle_waveform_msg-IsConsistent outside now msg n h
  step-IsConsistent (Event.waveform_cmd now cmd) n h =
      handle_waveform_cmd-IsConsistent reader outside now cmd n h
  step-IsConsistent (Event.log_cmd now path cmd) n h =
      handle_log_cmd-IsConsistent reader outside now path cmd n h
  step-IsConsistent Event.log_round n h = process_round-IsConsistent n.logger h
  step-IsConsistent (Event.cycle input) n h = rt_cycle-IsConsistent input n h

  run-IsConsistent :
      (es : List (Event F)) (n : Node F)
      → IsConsistent n.logger
      → IsConsistent (run reader outside es n).logger
  unfolding run
  run-IsConsistent [] n h = h
  run-IsConsistent (e ∷ es) n h =
      run-IsConsistent es (step reader outside e n) (step-IsConsistent e n h)

  -- After any sequence of callbacks, timers, logger rounds and real-time rounds of a node that
  -- was started with any options: every row of the open log lies in its window, that is not
  -- before its start and, if its end is positive, before its end; no more rows of it are
  -- flushed than it has; and of every closed file all rows are flushed.
  pub reached-IsConsistent :
      (o : Options F) (now : ℤ) (es : List (Event F))
      → IsConsistent (run reader outside es (start_node o now)).logger
  reached-IsConsistent o now es =
      run-IsConsistent es (start_node o now) (start_node-IsConsistent o now)
