-- ===== src/Node/Cycle/Sound.antt =====
-- A round keeps the node sound.
use motor_control.Base.{◌≡◌, ◌⊎◌, true, ℤ, pos, arith, if_holds, le_ℤ, ap, ◌∙◌, Option, none, some}
use motor_control.Double.{Double}
use motor_control.Ethercat.Pdo.{InPdo}
use motor_control.Control.Force.{ForceFeedbackSelection}
use motor_control.Node.State.{Node}
use motor_control.Node.Topics.{is_mode}
use motor_control.Node.Invariant.{IsSound}
use motor_control.Node.Cycle.Timing.{
  schedule, measure, exchange_ok, exchange_failed, dt_of, dt_us_of,
}
use motor_control.Node.Cycle.Mode.{read_drive, on_fault_edge, switch_mode, wave_mode, force_mode}
use motor_control.Node.Cycle.Command.{
  Frame, start_frame, position_command, velocity_command, torque_command, mode_command,
}
use motor_control.Node.Cycle.Force.{
  limit_stage, force_start, force_keep, force_command, force_control_stage, force_stage,
  selected_force,
}
use motor_control.Node.Cycle.Finish.{
  control_of, control_stage, safety_stage, write_pdo, log_stage, finish,
}
use motor_control.Node.Cycle.Output.{final_frame, finish-out}
use motor_control.Node.Cycle.{CycleInput, prepare, control_round, with_data, rt_cycle}

-- The frame's node is sound and its mode is one of the three.
pub record IsSoundFrame {F : Type 0} (f : Frame F) : Type 0 where
  pub node : IsSound f.node
  pub mode : is_mode f.mode ≡ true

-- In mode 8 the mode that is sent has been chosen: it is 9.
abbrev SendsVelocity : {F : Type 0} → Frame F → Type 0
SendsVelocity f = f.mode ≡ pos 8 → f.node.out.mode_of_operation ≡ pos 9

module _ {F : Type 0} ⦃d : Double F⦄ where
  switch_mode-IsSound : (i : InPdo) (n : Node F) → IsSound n → IsSound (switch_mode i n)
  unfolding switch_mode
  switch_mode-IsSound i n h = ground (arith, h)

  on_fault_edge-IsSound : (i : InPdo) (n : Node F) → IsSound n → IsSound (on_fault_edge i n)
  unfolding on_fault_edge
  on_fault_edge-IsSound i n h = ground (arith, h)

  wave_mode-IsSound : (n : Node F) → IsSound n → IsSound (wave_mode n)
  unfolding wave_mode force_mode
  wave_mode-IsSound n h = ground (arith, h)

  prepare-IsSound : (i : InPdo) (n : Node F) → IsSound n → IsSound (prepare i n)
  unfolding prepare read_drive
  prepare-IsSound i n h =
      let r = read_drive i n in
      let s : IsSound r = ground (arith, h) in
      wave_mode-IsSound (switch_mode i (on_fault_edge i r))
        (switch_mode-IsSound i (on_fault_edge i r) (on_fault_edge-IsSound i r s))

  start_frame-IsSound : (i : InPdo) (n : Node F) → IsSound n → IsSoundFrame (start_frame i n)
  unfolding start_frame
  start_frame-IsSound i n h = record { node = h; mode = h.op_mode }

  mode_command-IsSound :
      (now dt : ℤ) (i : InPdo) (f : Frame F)
      → IsSoundFrame f
      → IsSoundFrame (mode_command now dt i f)
  unfolding mode_command position_command velocity_command torque_command
  mode_command-IsSound now dt i f h = ground (arith, h, h.node)

  limit_stage-IsSound : (now : ℤ) (n : Node F) → IsSound n → IsSound (limit_stage now n)
  unfolding limit_stage
  limit_stage-IsSound now n h = ground (arith, h)

  force_control_stage-IsSound :
      (now dt : ℤ) (s : ForceFeedbackSelection) (i : InPdo) (f : Frame F)
      → IsSoundFrame f
      → IsSoundFrame (force_control_stage now dt s i f)
  unfolding force_control_stage force_start force_keep force_command force_mode
  force_control_stage-IsSound now dt s i f h = ground (arith, h, h.node)

  finish-IsSound :
      (now dt_us : ℤ) (i : InPdo) (s : ForceFeedbackSelection) (f : Frame F)
      → IsSoundFrame f
      → IsSound (finish now dt_us i s f)
  unfolding finish control_stage control_of safety_stage write_pdo log_stage
  finish-IsSound now dt_us i s f h = ground (arith, h, h.node)

  -- The frame at the end of a round, of a node that is sound.
  final-IsSoundFrame :
      (now dt_ns : ℤ) (i : InPdo) (n : Node F)
      → IsSound n
      → IsSoundFrame (final_frame now dt_ns i n)
  unfolding force_stage
  final-IsSoundFrame now dt_ns i n h =
      let ready = prepare i n in
      let c = mode_command now dt_ns i (start_frame i ready) in
      let hc =
        mode_command-IsSound now dt_ns i (start_frame i ready)
          (start_frame-IsSound i ready (prepare-IsSound i n h)) in
      force_control_stage-IsSound now dt_ns (selected_force c.node) i
        (record c { node = limit_stage now c.node })
        (record { node = limit_stage-IsSound now c.node hc.node; mode = hc.mode })

  control_round-IsSound :
      (now dt_ns dt_us : ℤ) (i : InPdo) (n : Node F)
      → IsSound n
      → IsSound (control_round now dt_ns dt_us i n)
  unfolding control_round
  control_round-IsSound now dt_ns dt_us i n h =
      let c = mode_command now dt_ns i (start_frame i (prepare i n)) in
      finish-IsSound now dt_us i (selected_force c.node) (final_frame now dt_ns i n)
        (final-IsSoundFrame now dt_ns i n h)

  -- The part of a round before the drive's data are read.
  ok-IsSound :
      (scheduled now wkc : ℤ) (n : Node F)
      → IsSound n
      → IsSound (exchange_ok wkc (measure now (schedule scheduled n)))
  unfolding exchange_ok measure schedule
  ok-IsSound scheduled now wkc n h = ground (arith, h)

  failed-IsSound :
      (scheduled now wkc dt_us : ℤ) (n : Node F)
      → IsSound n
      → IsSound (exchange_failed wkc now dt_us (measure now (schedule scheduled n)))
  unfolding exchange_failed measure schedule
  failed-IsSound scheduled now wkc dt_us n h = ground (arith, h)

  with_data-IsSound :
      (now dt_ns dt_us : ℤ) (inputs : Option InPdo) (n : Node F)
      → IsSound n
      → IsSound (with_data now dt_ns dt_us inputs n)
  unfolding with_data
  with_data-IsSound now dt_ns dt_us none n h = h
  with_data-IsSound now dt_ns dt_us (some i) n h = control_round-IsSound now dt_ns dt_us i n h

  pub rt_cycle-IsSound : (input : CycleInput) (n : Node F) → IsSound n → IsSound (rt_cycle input n)
  unfolding rt_cycle
  rt_cycle-IsSound input n h =
      let time = input.time in
      let dt_us = dt_us_of time.now_ns n in
      let measured = measure time.now_ns (schedule time.scheduled_ns n) in
      if_holds IsSound (le_ℤ input.wkc (pos 0))
        (exchange_failed input.wkc time.now_ns dt_us measured)
        (with_data time.now_ns (dt_of time.now_ns n) dt_us input.inputs
          (exchange_ok input.wkc measured))
        (failed-IsSound time.scheduled_ns time.now_ns input.wkc dt_us n h)
        (with_data-IsSound time.now_ns (dt_of time.now_ns n) dt_us input.inputs
          (exchange_ok input.wkc measured) (ok-IsSound time.scheduled_ns time.now_ns input.wkc n h))

  mode_command-SendsVelocity :
      (now dt : ℤ) (i : InPdo) (f : Frame F) → SendsVelocity (mode_command now dt i f)
  unfolding mode_command position_command velocity_command torque_command
  mode_command-SendsVelocity now dt i f e = ground (arith, e)

  force_control_stage-SendsVelocity :
      (now dt : ℤ) (s : ForceFeedbackSelection) (i : InPdo) (f : Frame F)
      → SendsVelocity f
      → SendsVelocity (force_control_stage now dt s i f)
  unfolding force_control_stage force_start force_keep force_command force_mode
  force_control_stage-SendsVelocity now dt s i f h e = ground (arith, h, e)

  limit_stage-out : (now : ℤ) (n : Node F) → (limit_stage now n).out ≡ n.out
  unfolding limit_stage
  limit_stage-out now n = ground arith

  final-SendsVelocity :
      (now dt_ns : ℤ) (i : InPdo) (n : Node F) → SendsVelocity (final_frame now dt_ns i n)
  unfolding force_stage
  final-SendsVelocity now dt_ns i n =
      let c = mode_command now dt_ns i (start_frame i (prepare i n)) in
      let h = mode_command-SendsVelocity now dt_ns i (start_frame i (prepare i n)) in
      force_control_stage-SendsVelocity now dt_ns (selected_force c.node) i
        (record c { node = limit_stage now c.node })
        (λ e. ap (λ o. o.mode_of_operation) (limit_stage-out now c.node) ∙ h e)

  -- From a sound node, the mode of operation that a control round writes for the drive is 9 or
  -- 10: position control too is sent as a velocity.
  pub round_mode :
      (now dt_ns dt_us : ℤ) (i : InPdo) (n : Node F)
      → IsSound n
      → let mode = (control_round now dt_ns dt_us i n).out.mode_of_operation in
        (mode ≡ pos 9) ⊎ (mode ≡ pos 10)
  unfolding control_round
  round_mode now dt_ns dt_us i n h =
      let f = final_frame now dt_ns i n in
      let s = selected_force (mode_command now dt_ns i (start_frame i (prepare i n))).node in
      let (_, _, m) = finish-out now dt_us i s f in
      let g = final-IsSoundFrame now dt_ns i n h in
      ground (arith, m, g.mode, final-SendsVelocity now dt_ns i n)
