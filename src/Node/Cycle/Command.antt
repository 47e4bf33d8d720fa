-- ===== src/Node/Cycle/Command.antt =====
-- cpp/src/epos_control/src/epos_motor_node.cpp: the command that the operation mode computes.
use motor_control.Base.{ℤ, pos, eq_ℤ, if◌then◌else◌}
use motor_control.Double.{Double}
use motor_control.Ethercat.Pdo.{InPdo}
use motor_control.Ethercat.Axis.{get_copy}
use motor_control.Control.Position.{compute_position_csv_command}
use motor_control.Control.Velocity.{compute_velocity_csv_command}
use motor_control.Node.State.{Node}

-- The locals of a round: current_mode, out_vel, out_pos and out_trq, with the node.
pub record Frame (F : Type 0) : Type 0 where
  pub node : Node F
  pub mode : ℤ
  pub out_vel : ℤ
  pub out_pos : ℤ
  pub out_trq : ℤ

module _ {F : Type 0} ⦃d : Double F⦄ where
  unfoldable pub start_frame : InPdo → Node F → Frame F
  start_frame i n = record {
    node = n;
    mode = n.axis.op_mode;
    out_vel = pos 0;
    out_pos = i.actual_position;
    out_trq = pos 0;
  }

  -- current_mode == 8, sent to the drive as mode 9.
  unfoldable pub position_command : ℤ → InPdo → Frame F → Frame F
  position_command now i f =
      let n = f.node in
      let (cmd, pos_state) =
        compute_position_csv_command (get_copy n.axis.wf) now i.actual_position n.targets.target_pos
          n.targets.pos_speed_limit n.params.pos_p_gain n.params.motor_ticks_per_rev
          n.rt.pos_state in
      record f {
        node = record n {
          targets = record n.targets { target_pos = cmd.target_pos };
          rt = record n.rt { pos_state = pos_state };
          out = record n.out { mode_of_operation = pos 9 };
        };
        out_vel = cmd.target_rpm;
        out_pos = i.actual_position;
      }

  -- current_mode == 9
  unfoldable pub velocity_command : ℤ → ℤ → InPdo → Frame F → Frame F
  velocity_command now dt_ns i f =
      let n = f.node in
      let cmd =
        compute_velocity_csv_command (get_copy n.axis.wf) now i.actual_position n.targets.target
          n.targets.accel_limit_rpm_s n.params.max_abs_target n.rt.current_cmd_vel dt_ns in
      record f {
        node = record n { rt = record n.rt { current_cmd_vel = cmd.filtered_rpm } };
        out_vel = cmd.target_rpm;
        out_pos = cmd.hold_position;
      }

  -- current_mode == 10
  unfoldable pub torque_command : InPdo → Frame F → Frame F
  torque_command i f = record f { out_trq = f.node.targets.target_trq; out_pos = i.actual_position }

  unfoldable pub mode_command : ℤ → ℤ → InPdo → Frame F → Frame F
  mode_command now dt_ns i f =
      if eq_ℤ f.mode (pos 8)
      then position_command now i f
      else if eq_ℤ f.mode (pos 9)
      then velocity_command now dt_ns i f
      else if eq_ℤ f.mode (pos 10)
      then torque_command i f
      else f
