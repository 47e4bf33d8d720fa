-- ===== src/Node/Step/Sound.antt =====
-- Every event keeps the node sound, so that it is sound after any run of events.
use motor_control.Base.{ℤ, arith, List, [], ◌∷◌, to_i8_id}
use motor_control.Double.{Double}
use motor_control.Commands.Reader.{TextReader}
use motor_control.Node.State.{Node}
use motor_control.Node.Start.{Options, start_node}
use motor_control.Node.Invariant.{IsSound}
use motor_control.Node.Commands.{Outside}
use motor_control.Node.Topics.Sound.{
  on_target_speed-IsSound, on_target_position-IsSound, on_target_torque-IsSound,
  on_linear_count-IsSound, on_op_mode-IsSound, on_accel_limit-IsSound, on_pos_speed_limit-IsSound,
  on_heartbeat-IsSound, on_enable-IsSound, on_fault_reset-IsSound, on_force_ch0-IsSound,
  on_force_ch1-IsSound, on_linear_mm-IsSound, on_target_force-IsSound,
}
use motor_control.Node.Commands.Sound.{handle_waveform_msg-IsSound, handle_waveform_cmd-IsSound}
use motor_control.Node.ForceCommands.Sound.{
  handle_force_ctrl_msg-IsSound, handle_force_ctrl_cmd-IsSound,
}
use motor_control.Node.LogCommands.Sound.{handle_log_cmd-IsSound}
use motor_control.Node.Feedback.Sound.{
  handle_pending_fault_log-IsSound, publish_force_limit_events-IsSound,
  publish_diag_summary-IsSound,
}
use motor_control.Node.Cycle.Sound.{rt_cycle-IsSound}
use motor_control.Node.Step.{Event, step, run}

module _ {F : Type 0} ⦃d : Double F⦄ where
  pub start_node-IsSound : (o : Options F) (now : ℤ) → IsSound (start_node o now)
  unfolding start_node
  start_node-IsSound o now = ground (arith, to_i8_id o.op_mode)

module _ {F : Type 0} ⦃d : Double F⦄ (reader : TextReader F) (outside : Outside) where
  step-IsSound : (e : Event F) (n : Node F) → IsSound n → IsSound (step reader outside e n)
  unfolding step
  step-IsSound (Event.target_speed now v) n h = on_target_speed-IsSound now v n h
  step-IsSound (Event.target_position now v) n h = on_target_position-IsSound now v n h
  step-IsSound (Event.target_torque now v) n h = on_target_torque-IsSound now v n h
  step-IsSound (Event.linear_count now v) n h = on_linear_count-IsSound now v n h
  step-IsSound (Event.op_mode_cmd v) n h = on_op_mode-IsSound v n h
  step-IsSound (Event.accel_limit v) n h = on_accel_limit-IsSound v n h
  step-IsSound (Event.pos_speed_limit v) n h = on_pos_speed_limit-IsSound v n h
  step-IsSound (Event.heartbeat now) n h = on_heartbeat-IsSound now n h
  step-IsSound (Event.force_ch0 now v) n h = on_force_ch0-IsSound now v n h
  step-IsSound (Event.force_ch1 now v) n h = on_force_ch1-IsSound now v n h
  step-IsSound (Event.linear_mm now v) n h = on_linear_mm-IsSound now v n h
  step-IsSound (Event.target_force v) n h = on_target_force-IsSound v n h
  step-IsSound (Event.enable wanted) n h = on_enable-IsSound wanted n h
  step-IsSound Event.fault_reset n h = on_fault_reset-IsSound n h
  step-IsSound (Event.waveform_msg now msg) n h = handle_waveform_msg-IsSound outside now msg n h
  step-IsSound (Event.waveform_cmd now cmd) n h =
      handle_waveform_cmd-IsSound reader outside now cmd n h
  step-IsSound (Event.force_msg now msg) n h = handle_force_ctrl_msg-IsSound reader now msg n h
  step-IsSound (Event.force_cmd now cmd) n h = handle_force_ctrl_cmd-IsSound reader now cmd n h
  step-IsSound (Event.log_cmd now path cmd) n h =
      handle_log_cmd-IsSound reader outside now path cmd n h
  step-IsSound (Event.fault_log sdo) n h = handle_pending_fault_log-IsSound sdo n h
  step-IsSound Event.report_limit n h = publish_force_limit_events-IsSound n h
  step-IsSound Event.report_diag n h = publish_diag_summary-IsSound n h
  step-IsSound Event.log_round n h = ground (arith, h)
  step-IsSound (Event.cycle input) n h = rt_cycle-IsSound input n h

  run-IsSound : (es : List (Event F)) (n : Node F) → IsSound n → IsSound (run reader outside es n)
  unfolding run
  run-IsSound [] n h = h
  run-IsSound (e ∷ es) n h = run-IsSound es (step reader outside e n) (step-IsSound e n h)

  -- After any sequence of callbacks, timers, logger rounds and real-time rounds of a node that
  -- was started with any options: the operation mode and the requested one are each 8, 9 or 10,
  -- the indices of both double buffers are at most 1, the direction of the force is 1 or -1,
  -- the maximal speed of force control is at least 1, and at most 20 rounds of fault reset are
  -- held.
  pub reached-IsSound :
      (o : Options F) (now : ℤ) (es : List (Event F))
      → IsSound (run reader outside es (start_node o now))
  reached-IsSound o now es = run-IsSound es (start_node o now) (start_node-IsSound o now)
