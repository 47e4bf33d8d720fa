-- ===== src/Node/Cycle/Mode.antt =====
-- cpp/src/epos_control/src/epos_motor_node.cpp: the state of the drive, the edge of a fault and the
-- choice of the operation mode.
use motor_control.Base.{Bool, true, ◌&&◌, ◌||◌, not, ℤ, pos, eq_ℤ, if◌then◌else◌}
use motor_control.Double.{Double, nought}
use motor_control.Waveform.{is_none, is_position_sine}
use motor_control.Ethercat.Pdo.{InPdo}
use motor_control.Ethercat.Cia402.{is_fault}
use motor_control.Ethercat.Axis.{get_copy}
use motor_control.Node.State.{Node, Targets}

-- The targets that a mode starts with.
abbrev enter_mode : ℤ → ℤ → Targets → Targets
enter_mode mode position t =
    if eq_ℤ mode (pos 8)
    then record t { target_pos = position }
    else if eq_ℤ mode (pos 9)
    then record t { target = pos 0 }
    else if eq_ℤ mode (pos 10)
    then record t { target_trq = pos 0 }
    else t

module _ {F : Type 0} where
  unfoldable pub read_drive : InPdo → Node F → Node F
  read_drive i n = record n {
    axis = record n.axis {
      last_status = i.status_word;
      last_pos = i.actual_position;
      last_vel = i.actual_velocity;
      last_trq = i.actual_torque;
    };
  }

  unfoldable pub enable_wanted : Node F → Bool
  enable_wanted n = n.params.auto_enable || n.targets.enable_req

  -- op_mode and requested_op_mode both become `mode`.
  unfoldable pub force_mode : ℤ → Node F → Node F
  force_mode mode n = record n {
    axis = record n.axis { op_mode = mode };
    targets = record n.targets { requested_op_mode = mode };
  }

  -- The waveform that is active decides the mode: a position sine runs in 8, any other in 9.
  unfoldable pub wave_mode : Node F → Node F
  unfolding force_mode
  wave_mode n =
      let wf = get_copy n.axis.wf in
      let idle = record n {
        rt = record n.rt { pos_state = record n.rt.pos_state { active_wave_start_ns = pos 0 } };
      } in
      if is_position_sine wf.type
      then (if eq_ℤ n.axis.op_mode (pos 8) then n else force_mode (pos 8) n)
      else if not (is_none wf.type) && not (eq_ℤ n.axis.op_mode (pos 9))
      then force_mode (pos 9) n
      else idle

module _ {F : Type 0} ⦃d : Double F⦄ where
  -- A fault that was not there in the last round: the targets become the present state.
  unfoldable pub on_fault_edge : InPdo → Node F → Node F
  on_fault_edge i n =
      let fault = is_fault i.status_word in
      let held = record n {
        diag = record n.diag { pending_fault_status = i.status_word; fault_log_pending = true };
        targets = record n.targets {
          target_pos = i.actual_position;
          target = pos 0;
          target_trq = pos 0;
        };
        rt = record n.rt { current_cmd_vel = nought; was_fault = true };
      } in
      if fault && not n.rt.was_fault
      then held
      else record n { rt = record n.rt { was_fault = fault } }

  -- A requested mode that is not the present one.
  unfoldable pub switch_mode : InPdo → Node F → Node F
  switch_mode i n =
      let mode = n.targets.requested_op_mode in
      let entered = record n {
        axis = record n.axis { op_mode = mode };
        targets = enter_mode mode i.actual_position n.targets;
        rt = record n.rt {
          current_cmd_vel = if eq_ℤ mode (pos 9) then nought else n.rt.current_cmd_vel;
        };
      } in
      if eq_ℤ n.axis.op_mode mode then n else entered
