-- ===== src/Node/Cycle.antt =====
-- cpp/src/epos_control/src/epos_motor_node.cpp: control_loop_rt. One round of its loop, `rt_cycle`,
-- is composed of the stages of the children in the order of the source. A round that finds the
-- communication failed, or no process data, ends early, as `continue` does.
pub mod Timing
pub mod Mode
pub mod Command
pub mod Force
pub mod Finish
pub mod Kept
pub mod Output
pub mod Safe
pub mod Sound
pub mod Failures
pub mod Word
pub mod Latch
pub mod Silence
pub mod Logged
pub mod Follows
use motor_control.Base.{Bool, ℤ, pos, le_ℤ, Option, none, some, if◌then◌else◌}
use motor_control.Double.{Double}
use motor_control.Ethercat.Pdo.{InPdo}
use motor_control.Node.State.{Node}
use Timing.{CycleTime, schedule, measure, dt_of, dt_us_of, exchange_failed, exchange_ok}
use Mode.{read_drive, on_fault_edge, switch_mode, wave_mode}
use Command.{Frame, start_frame, mode_command}
use Force.{force_stage, selected_force}
use Finish.{finish}

-- What a round reads from outside: its clock, the working counter and the drive's process data,
-- which is absent where the pointers into the process image are null.
pub record CycleInput : Type 0 where
  pub time : CycleTime
  pub wkc : ℤ
  pub inputs : Option InPdo

module _ {F : Type 0} ⦃d : Double F⦄ where
  -- The state of the drive, the fault edge and the mode.
  pub prepare : InPdo → Node F → Node F
  prepare i n = wave_mode (switch_mode i (on_fault_edge i (read_drive i n)))

  -- The round from the process data on.
  pub control_round : ℤ → ℤ → ℤ → InPdo → Node F → Node F
  control_round now dt_ns dt_us i n =
      let ready = prepare i n in
      let commanded = mode_command now dt_ns i (start_frame i ready) in
      let forced = force_stage now dt_ns i commanded in
      finish now dt_us i (selected_force commanded.node) forced

  -- A round whose exchange worked: without process data it ends here.
  pub with_data : ℤ → ℤ → ℤ → Option InPdo → Node F → Node F
  with_data now dt_ns dt_us none n = n
  with_data now dt_ns dt_us (some i) n = control_round now dt_ns dt_us i n

  -- One round of the loop.
  pub rt_cycle : CycleInput → Node F → Node F
  rt_cycle input n =
      let now = input.time.now_ns in
      let scheduled = schedule input.time.scheduled_ns n in
      let dt_ns = dt_of now n in
      let dt_us = dt_us_of now n in
      let measured = measure now scheduled in
      if le_ℤ input.wkc (pos 0)
      then exchange_failed input.wkc now dt_us measured
      else with_data now dt_ns dt_us input.inputs (exchange_ok input.wkc measured)
