-- ===== src/Node/Cycle/Force.antt =====
-- cpp/src/epos_control/src/epos_motor_node.cpp: the force of a round: the selection, the limit and the
-- force controller, which overwrites the velocity.
use motor_control.Base.{
  Bool, true, false, ◌&&◌, not, ℤ, pos, negsuc, ◌-ℤ◌, eq_ℤ, to_i32, if◌then◌else◌,
}
use motor_control.Double.{Double, nought}
use motor_control.Ethercat.Pdo.{InPdo}
use motor_control.Ethercat.Axis.{get_copy}
use motor_control.Safety.ForceLimit.{ForceLimitCheck, check_force_limit, default_stale_ns}
use motor_control.Control.Force.{
  ForceFeedbackSelection, select_force_feedback, ForceControlParams, compute_force_control_command,
}
use motor_control.Control.ForcePid.{reset}
use motor_control.Node.State.{Node, ForceLimit, Sensors}
use motor_control.Node.Cycle.Mode.{force_mode}
use motor_control.Node.Cycle.Command.{Frame}

-- The readings less the tare.
abbrev pub net_ch0 : Sensors → ℤ
net_ch0 s = to_i32 (s.force_ch0_mn -ℤ s.tare_ch0_mn)

abbrev pub net_ch1 : Sensors → ℤ
net_ch1 s = to_i32 (s.force_ch1_mn -ℤ s.tare_ch1_mn)

-- What a trip or a release leaves for the log.
abbrev limit_event : ℤ → Bool → ForceLimitCheck → ForceLimit → ForceLimit
limit_event event tripped check l = record l {
  tripped = tripped;
  peak_mn = check.peak_mn;
  threshold_mn = l.limit_mn;
  event = event;
}

module _ {F : Type 0} where
  unfoldable pub selected_force : Node F → ForceFeedbackSelection
  selected_force n =
      select_force_feedback (net_ch0 n.sensors) (net_ch1 n.sensors) n.force.feedback_mode
        n.force.abs_mode

  unfoldable pub limit_check : ℤ → Node F → ForceLimitCheck
  limit_check now n =
      check_force_limit n.limit.limit_mn now (net_ch0 n.sensors) (net_ch1 n.sensors)
        n.sensors.force_ch0_ns n.sensors.force_ch1_ns default_stale_ns

  unfoldable pub force_params : Node F → ForceControlParams F
  force_params n = record {
    target_force_mn = n.force.target_force_mn;
    direction = n.force.direction;
    max_rpm = n.force.max_rpm;
    ctrl_mode = n.force.ctrl_mode;
    fallback_max_rpm = n.params.max_abs_target;
    kp = n.force.kp;
    ki = n.force.ki;
    kd = n.force.kd;
    tanh_sensitivity_mn = n.force.tanh_sensitivity;
    tanh_deadband_mn = n.force.tanh_deadband;
    output_alpha = n.force.out_alpha;
  }

module _ {F : Type 0} ⦃d : Double F⦄ where
  -- The force limit trips, or is released, when there is a fresh reading.
  unfoldable pub limit_stage : ℤ → Node F → Node F
  limit_stage now n =
      let check = limit_check now n in
      let trip = record n {
        limit = limit_event (pos 1) true check n.limit;
        targets = record n.targets { target = pos 0 };
        rt = record n.rt { current_cmd_vel = nought };
      } in
      let release = record n { limit = limit_event (negsuc 0) false check n.limit } in
      if not check.has_valid_data
      then n
      else if check.over_limit && not n.limit.tripped
      then trip
      else if not check.over_limit && n.limit.tripped
      then release
      else n

  -- The first round of force control: the controller is reset and mode 9 is forced.
  unfoldable pub force_start : Frame F → Frame F
  unfolding force_mode
  force_start f =
      let n = f.node in
      record f {
        node = force_mode (pos 9) (record n {
          rt = record n.rt { pid = reset n.rt.pid; current_cmd_vel = nought };
          targets = record n.targets { target = pos 0 };
        });
        mode = pos 9;
      }

  -- Mode 9 is kept while force control is active.
  unfoldable pub force_keep : Frame F → Frame F
  unfolding force_mode
  force_keep f =
      if eq_ℤ f.mode (pos 9) then f else record f { node = force_mode (pos 9) f.node; mode = pos 9 }

  -- The velocity of the force controller, 0 while the limit is tripped.
  unfoldable pub force_command : ℤ → ℤ → ForceFeedbackSelection → InPdo → Frame F → Frame F
  force_command now dt_ns selected i f =
      let n = f.node in
      let cmd =
        compute_force_control_command (get_copy n.axis.force_wf) now selected.control_mn
          (force_params n) n.rt.current_cmd_vel dt_ns n.rt.pid n.rt.tanh in
      record f {
        node = record n {
          rt = record n.rt {
            pid = cmd.pid;
            tanh = cmd.tanh;
            current_cmd_vel = if n.limit.tripped then nought else cmd.filtered_rpm;
          };
          out = record n.out { mode_of_operation = pos 9 };
        };
        out_vel = if n.limit.tripped then pos 0 else cmd.target_rpm;
        out_pos = i.actual_position;
      }

  unfoldable pub force_control_stage : ℤ → ℤ → ForceFeedbackSelection → InPdo → Frame F → Frame F
  force_control_stage now dt_ns selected i f =
      let active = f.node.force.active in
      let started = if active && not f.node.rt.was_force_ctrl then force_start f else f in
      let marked = record started {
        node = record started.node { rt = record started.node.rt { was_force_ctrl = active } };
      } in
      if active then force_command now dt_ns selected i (force_keep marked) else marked

  unfoldable pub force_stage : ℤ → ℤ → InPdo → Frame F → Frame F
  force_stage now dt_ns i f =
      let selected = selected_force f.node in
      force_control_stage now dt_ns selected i (record f { node = limit_stage now f.node })
