-- ===== src/Tests/Silences.antt =====
-- The theorems on missing messages, for a target that was last sent 0.5 s ago, and on rounds in which
-- none is missing.
use motor_control.Base.{
  true, ◌≡◌, refl, List, [], ◌∷◌, some, pos, ◌+ℤ◌, ◌-ℤ◌, ◌*ℤ◌, to_i8, to_i32, to_i64, arith,
}
use motor_control.Double.Fixed.{Fixed, fixed_double}
use motor_control.Node.Start.{start_node}
use motor_control.Node.Silence.{Silence, IsStopped}
use motor_control.Node.Cycle.Timing.{CycleTime}
use motor_control.Node.Cycle.{rt_cycle}
use motor_control.Node.Cycle.Safe.{good_round}
use motor_control.Node.Step.{Event, run}
use motor_control.Node.Step.Silence.{silence_stops}
use motor_control.Units.{n_to_mn}
use motor_control.Ethercat.Cia402.{is_fault}
use motor_control.Ethercat.Axis.{get_copy}
use motor_control.Safety.Output.{timeout_expired, clamp_abs}
use motor_control.Safety.ForceLimit.{is_recent_sample, check_force_limit}
use motor_control.Control.Velocity.{VelocityControlResult}
use motor_control.Node.State.{Node}
use motor_control.Node.Cycle.Mode.{enable_wanted}
use motor_control.Node.Cycle.Force.{limit_check}
use motor_control.Node.Cycle.Timing.{dt_of}
use motor_control.Node.Cycle.Follows.{velocity_of, position_of}
use motor_control.Node.Cycle.Follows.Round.{round_follows}
use motor_control.Node.Cycle.Follows.Position.{round_moves}
use motor_control.Node.Cycle.Follows.Pull.{force_of, round_pulls}
use motor_control.Control.Force.{ForceControlOutput}
use motor_control.Tests.Data.{clock, started, enabled_drive, reader, outside, sine_msg}

abbrev late : CycleTime
late = record { scheduled_ns = pos 600_000_000; now_ns = pos 600_000_000 }

abbrev later : CycleTime
later = record { scheduled_ns = pos 601_000_000; now_ns = pos 601_000_000 }

-- A waveform is started, and a round follows.
abbrev wave_events : List (Event Fixed)
wave_events =
    Event.waveform_msg (pos 600_500_000) sine_msg
    ∷ Event.cycle (record { time = later; wkc = pos 3; inputs = some enabled_drive })
    ∷ []

silence_stops_example :
    IsStopped Silence.no_target
      (pos 600_000_000)
      (run reader outside wave_events (rt_cycle (good_round late 2 enabled_drive) started))
unfolding start_node
silence_stops_example =
    silence_stops reader outside Silence.no_target late 2 enabled_drive started wave_events
      (omega arith) (omega arith) (tt, ((omega arith, omega arith), tt))

-- 500 RPM is asked for.
abbrev asked : Node Fixed
asked = record started { targets = record started.targets { target = pos 500 } }

abbrev sent : Node Fixed
sent = rt_cycle (good_round clock 2 enabled_drive) asked

abbrev commanded : VelocityControlResult Fixed
commanded = velocity_of clock.now_ns (dt_of clock.now_ns asked) enabled_drive asked

round_follows_example :
    (sent.out.target_velocity ≡ commanded.target_rpm)
    × (sent.out.target_torque ≡ pos 0)
    × (sent.out.mode_of_operation ≡ pos 9)
    × (sent.rt.current_cmd_vel ≡ commanded.filtered_rpm)
unfolding start_node is_fault enable_wanted limit_check is_recent_sample n_to_mn to_i32 to_i64 ◌-ℤ◌
    ◌*ℤ◌ ◌+ℤ◌ get_copy check_force_limit timeout_expired to_i8
round_follows_example =
    round_follows clock 2 enabled_drive asked
      (record {
        healthy = refl;
        wanted = refl;
        same_mode = refl;
        untripped = refl;
        under = refl;
        commanded = refl;
        alive = refl;
      })
      (record { mode = refl; wave = refl; no_force = refl })

-- A target 1000 ticks away, in mode 8.
abbrev placed : Node Fixed
placed = record started {
  axis = record started.axis { op_mode = pos 8 };
  targets = record started.targets { requested_op_mode = pos 8; target_pos = pos 1000 };
}

abbrev moved : Node Fixed
moved = rt_cycle (good_round clock 2 enabled_drive) placed

round_moves_example :
    let (cmd, state) = position_of clock.now_ns enabled_drive placed in
    (moved.out.target_velocity ≡ clamp_abs placed.params.max_abs_target cmd.target_rpm)
    × (moved.out.target_torque ≡ pos 0)
    × (moved.out.mode_of_operation ≡ pos 9)
    × (moved.targets.target_pos ≡ cmd.target_pos)
    × (moved.rt.pos_state ≡ state)
unfolding start_node is_fault enable_wanted limit_check is_recent_sample n_to_mn to_i32 to_i64 ◌-ℤ◌
    ◌*ℤ◌ ◌+ℤ◌ get_copy check_force_limit timeout_expired to_i8
round_moves_example =
    round_moves clock 2 enabled_drive placed
      (record {
        healthy = refl;
        wanted = refl;
        same_mode = refl;
        untripped = refl;
        under = refl;
        commanded = refl;
        alive = refl;
      })
      (record { mode = refl; wave = refl; no_force = refl })

-- Force control that has been on, towards 1 N.
abbrev pulling : Node Fixed
pulling = record started {
  force = record started.force { active = true; target_force_mn = pos 1000 };
  rt = record started.rt { was_force_ctrl = true };
}

abbrev pulled : Node Fixed
pulled = rt_cycle (good_round clock 2 enabled_drive) pulling

abbrev pull_command : ForceControlOutput Fixed
pull_command =
    let dt_ns = dt_of clock.now_ns pulling in
    force_of clock.now_ns dt_ns (velocity_of clock.now_ns dt_ns enabled_drive pulling).filtered_rpm
      pulling

round_pulls_example :
    (pulled.out.target_velocity ≡ clamp_abs pulling.params.max_abs_target pull_command.target_rpm)
    × (pulled.out.target_torque ≡ pos 0)
    × (pulled.out.mode_of_operation ≡ pos 9)
    × (pulled.rt.current_cmd_vel ≡ pull_command.filtered_rpm)
    × (pulled.rt.pid ≡ pull_command.pid)
    × (pulled.rt.tanh ≡ pull_command.tanh)
unfolding start_node is_fault enable_wanted limit_check is_recent_sample n_to_mn to_i32 to_i64 ◌-ℤ◌
    ◌*ℤ◌ ◌+ℤ◌ get_copy check_force_limit timeout_expired to_i8
round_pulls_example =
    round_pulls clock 2 enabled_drive pulling
      (record {
        healthy = refl;
        wanted = refl;
        same_mode = refl;
        untripped = refl;
        under = refl;
        commanded = refl;
        alive = refl;
      })
      (record { mode = refl; wave = refl; active = refl; held = refl })
