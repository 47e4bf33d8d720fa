-- ===== src/Tests/Rounds.antt =====
-- The theorems on rounds of the loop and on runs of events.
use motor_control.Base.{false}
use motor_control.Base.{◌≡◌, refl, ◌≤◌, ◌⊎◌, pos, ◌≤ℤ◌, abs_ℕ, [], ◌∷◌, arith, ◌<ℤ◌, ◌+ℤ◌}
use motor_control.Double.Fixed.{Fixed, fixed_double}
use motor_control.Ethercat.Cia402.{is_fault}
use motor_control.Node.Start.{start_node}
use motor_control.Node.Invariant.{IsSound}
use motor_control.Node.Cycle.{rt_cycle, control_round}
use motor_control.Node.Cycle.Timing.{period_ns, schedule}
use motor_control.Node.Cycle.Timing.Schedule.{schedule_lem}
use motor_control.Node.Cycle.Mode.{enable_wanted}
use motor_control.Node.Cycle.Safe.{good_round, MustStop, round_stops, round_velocity_bounds}
use motor_control.Node.Cycle.Sound.{round_mode}
use motor_control.Node.Cycle.Word.{Answers, round_word}
use motor_control.Node.Cycle.Failures.{rounds, failed_rounds}
use motor_control.Node.Step.{run}
use motor_control.Node.Step.Sound.{start_node-IsSound, reached-IsSound}
use motor_control.Waveform.{WaveformType}
use motor_control.Tests.Data.{feedback_msg}
use motor_control.Ethercat.Axis.{get_copy}
use motor_control.Node.Cycle.Command.{Frame, start_frame}
use motor_control.Node.Cycle.Force.{selected_force, force_control_stage}
use motor_control.Node.ForceCommands.{handle_force_ctrl_msg}
use motor_control.Node.ForceCommands.Stop.{stop_msg, stop_ends}
use motor_control.Tests.Data.{
  options, started, enabled_drive, faulty_drive, clock, lost, reader, outside, events,
}

round_stops_example :
    let out = (rt_cycle (good_round clock 2 faulty_drive) started).out in
    (out.target_velocity ≡ pos 0) × (out.target_torque ≡ pos 0)
unfolding is_fault
round_stops_example = round_stops clock 2 faulty_drive started (MustStop.fault refl)

round_velocity_bounds_example :
    abs_ℕ (rt_cycle (good_round clock 2 enabled_drive) started).out.target_velocity ≤ 3000
unfolding start_node
round_velocity_bounds_example = round_velocity_bounds clock 2 enabled_drive started

round_word_example :
    Answers 0x0027
      (enable_wanted started)
      (rt_cycle (good_round clock 2 enabled_drive) started).out.control_word
round_word_example = round_word clock 2 enabled_drive started

round_mode_example :
    let round = control_round (pos 2_000_000) (pos 1_000_000) (pos 1000) enabled_drive started in
    let mode = round.out.mode_of_operation in (mode ≡ pos 9) ⊎ (mode ≡ pos 10)
round_mode_example =
    round_mode (pos 2_000_000) (pos 1_000_000) (pos 1000) enabled_drive started
      (start_node-IsSound options (pos 1_000_000))

reached-IsSound_example : IsSound (run reader outside events started)
reached-IsSound_example = reached-IsSound reader outside options (pos 1_000_000) events

failed_rounds_example :
    let m = rounds (lost ∷ lost ∷ []) started in
    (m.diag.consecutive_wkc_errors ≡ pos 2)
    × (m.out ≡ started.out)
    × (m.targets ≡ started.targets)
    × (m.force ≡ started.force)
    × (m.limit ≡ started.limit)
unfolding start_node
failed_rounds_example =
    failed_rounds (lost ∷ lost ∷ []) started 0 (omega arith, (omega arith, tt)) refl (omega arith)

schedule_lem_example :
    let period = period_ns started.params in
    let next = started.rt.next_ns +ℤ period in
    let m = schedule (pos 1_500_000) started in
    (pos 1_500_000 <ℤ m.rt.next_ns)
    × (pos 0 <ℤ period)
    × (period ≤ℤ pos 1_000_000_000)
    × ((m.rt.next_ns ≡ next) ⊎ ((next ≤ℤ pos 1_500_000) × (m.rt.next_ns ≡ pos 1_500_000 +ℤ period)))
unfolding start_node
schedule_lem_example =
    schedule_lem (pos 1_500_000) started (omega arith) (omega arith) (omega arith)

abbrev first_frame : Frame Fixed
first_frame = start_frame enabled_drive started

stop_ends_example :
    let m = handle_force_ctrl_msg reader (pos 7) (stop_msg feedback_msg) started in
    let selected = selected_force started in
    let g =
      force_control_stage
        (pos 9)
        (pos 2)
        selected
        enabled_drive
        (record first_frame { node = m }) in
    (m.targets.target ≡ pos 0)
    × ((get_copy m.axis.force_wf).type ≡ WaveformType.none)
    × (g.out_vel ≡ first_frame.out_vel)
    × (g.mode ≡ first_frame.mode)
    × (g.node.rt.pid ≡ started.rt.pid)
    × (g.node.rt.was_force_ctrl ≡ false)
unfolding start_node
stop_ends_example =
    stop_ends reader (pos 7) feedback_msg started (pos 9) (pos 2) (selected_force started)
      enabled_drive first_frame (omega arith)
