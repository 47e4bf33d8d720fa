-- ===== src/Node/Cycle/Follows.antt =====
-- A round of velocity, position or force control in which nothing stops the motor: when a round is one, and
-- what its stages leave and command.
pub mod Prepare
pub mod Stages
pub mod Round
pub mod Position
pub mod Pull
use motor_control.Base.{◌≡◌, true, false, ◌||◌, ℤ, pos, eq_ℤ}
use motor_control.Double.{Double}
use motor_control.Waveform.{is_none, is_position_sine}
use motor_control.Ethercat.Pdo.{InPdo}
use motor_control.Ethercat.Cia402.{is_fault}
use motor_control.Ethercat.Axis.{get_copy}
use motor_control.Safety.Output.{timeout_expired}
use motor_control.Control.Velocity.{VelocityControlResult, compute_velocity_csv_command}
use motor_control.Control.Position.{
  PositionControlState, PositionControlResult, compute_position_csv_command,
}
use motor_control.Node.State.{Node}
use motor_control.Node.Cycle.Mode.{enable_wanted, read_drive}
use motor_control.Node.Cycle.Command.{Frame}
use motor_control.Node.Cycle.Force.{limit_check}

module _ {F : Type 0} ⦃d : Double F⦄ where
  -- None of the reasons to stop or to switch the mode.
  pub record Unhindered (now : ℤ) (i : InPdo) (n : Node F) : Type 0 where
    pub healthy : is_fault i.status_word ≡ false
    pub wanted : enable_wanted n ≡ true
    pub same_mode : eq_ℤ n.axis.op_mode n.targets.requested_op_mode ≡ true
    pub untripped : n.limit.tripped ≡ false
    pub under : (limit_check now n).over_limit ≡ false
    pub commanded : timeout_expired now n.targets.last_cmd_ns n.params.cmd_timeout_ms ≡ false
    pub alive :
        timeout_expired now n.targets.last_heartbeat_ns n.params.heartbeat_timeout_ms ≡ false

  -- Velocity control, without force control or a waveform of the position.
  pub record MayRun (n : Node F) : Type 0 where
    pub mode : n.axis.op_mode ≡ pos 9
    pub wave : is_position_sine (get_copy n.axis.wf).type ≡ false
    pub no_force : n.force.active ≡ false

  -- Position control, without force control, with a waveform of the position or none.
  pub record MayMove (n : Node F) : Type 0 where
    pub mode : n.axis.op_mode ≡ pos 8
    pub wave :
        (is_position_sine (get_copy n.axis.wf).type || is_none (get_copy n.axis.wf).type) ≡ true
    pub no_force : n.force.active ≡ false

  -- Force control that was on in the last round as well, without a waveform of the position.
  pub record MayPull (n : Node F) : Type 0 where
    pub mode : n.axis.op_mode ≡ pos 9
    pub wave : is_position_sine (get_copy n.axis.wf).type ≡ false
    pub active : n.force.active ≡ true
    pub held : n.rt.was_force_ctrl ≡ true

  -- The command of the state before the round.
  abbrev pub velocity_of : ℤ → ℤ → InPdo → Node F → VelocityControlResult F
  velocity_of now dt_ns i n =
      compute_velocity_csv_command (get_copy n.axis.wf) now i.actual_position n.targets.target
        n.targets.accel_limit_rpm_s n.params.max_abs_target n.rt.current_cmd_vel dt_ns

  -- The same of position control, with the state of its waveform.
  abbrev pub position_of : ℤ → InPdo → Node F → PositionControlResult × PositionControlState
  position_of now i n =
      compute_position_csv_command (get_copy n.axis.wf) now i.actual_position n.targets.target_pos
        n.targets.pos_speed_limit n.params.pos_p_gain n.params.motor_ticks_per_rev n.rt.pos_state

  -- The node past the first stages, if a waveform of the position runs.
  abbrev pub steady : InPdo → Node F → Node F
  steady i n = let m = read_drive i n in record m { rt = record m.rt { was_fault = false } }

  -- The same without such a waveform.
  abbrev pub idle : InPdo → Node F → Node F
  idle i n =
      let m = steady i n in
      record m {
        rt = record m.rt { pos_state = record m.rt.pos_state { active_wave_start_ns = pos 0 } };
      }

  -- A frame in whose node the round has noted whether force control was on.
  abbrev pub marked : Frame F → Frame F
  marked f = record f {
    node = record f.node { rt = record f.node.rt { was_force_ctrl = f.node.force.active } };
  }
