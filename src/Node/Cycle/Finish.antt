-- ===== src/Node/Cycle/Finish.antt =====
-- cpp/src/epos_control/src/epos_motor_node.cpp: the end of a round: the control word, the safety guard,
-- the process data and the log record.
pub mod ResetHold
use motor_control.Base.{
  ℕ, zero, suc, ◌-◌, Bool, true, false, not, ℤ, pos, eq_ℤ, abs_i32, ◌==◌, ltb, if◌then◌else◌,
}
use motor_control.Double.{Double, ◌⊘◌}
use motor_control.Units.{mn_to_n_float}
use motor_control.Waveform.{type_code}
use motor_control.Ethercat.Pdo.{InPdo, OutPdo}
use motor_control.Ethercat.Cia402.{
  control_shutdown, control_fault_reset, is_fault, next_control_word,
}
use motor_control.Ethercat.Axis.{get_copy}
use motor_control.Safety.Output.{OutputSafetyInput, apply_output_safety}
use motor_control.Control.Force.{ForceFeedbackSelection}
use motor_control.Logging.Record.{LogRecord}
use motor_control.Logging.AsyncLogger.{push_record}
use motor_control.Node.State.{Node}
use motor_control.Node.Cycle.Mode.{enable_wanted}
use motor_control.Node.Cycle.Command.{Frame}

-- The control word of a round, and what is left of the fault-reset hold and of the request.
pub record Control : Type 0 where
  pub word : ℕ
  pub hold : ℕ
  pub request : Bool

unfoldable pub control_of : Bool → ℕ → Bool → Bool → ℕ → Control
control_of fault status enable request hold =
    let held = if request then 20 else hold in
    if not fault
    then record { word = next_control_word status enable; hold = 0; request = request }
    else record {
      word = if held == 0 then control_shutdown else control_fault_reset;
      hold = held - 1;
      request = false;
    }

module _ {F : Type 0} where
  unfoldable pub control_stage : InPdo → Frame F → ℕ × Frame F
  control_stage i f =
      let n = f.node in
      let c =
        control_of (is_fault i.status_word) i.status_word (enable_wanted n)
          n.targets.fault_reset_req n.rt.fault_reset_hold in
      (
        c.word,
        record f {
          node = record n {
            targets = record n.targets { fault_reset_req = c.request };
            rt = record n.rt { fault_reset_hold = c.hold };
          };
        },
      )

  unfoldable pub safety_input : ℤ → InPdo → Node F → OutputSafetyInput
  safety_input now i n = record {
    now_ns = now;
    is_fault = is_fault i.status_word;
    enable_desired = enable_wanted n;
    force_limit_tripped = n.limit.tripped;
    cmd_timeout_ms = n.params.cmd_timeout_ms;
    last_cmd_ns = n.targets.last_cmd_ns;
    heartbeat_timeout_ms = n.params.heartbeat_timeout_ms;
    last_heartbeat_ns = n.targets.last_heartbeat_ns;
    max_abs_rpm = n.params.max_abs_target;
  }

  -- The guard over the velocity and the torque.
  unfoldable pub safety_stage : ℤ → InPdo → Frame F → Frame F
  safety_stage now i f =
      let safe = apply_output_safety f.out_vel f.out_trq (safety_input now i f.node) in
      record f { out_vel = safe.target_velocity; out_trq = safe.target_torque }

  -- The output process data; in mode 8 the mode was written before.
  unfoldable pub write_pdo : ℕ → Frame F → Frame F
  write_pdo control f =
      let n = f.node in
      let out : OutPdo = record {
        control_word = control;
        mode_of_operation = if eq_ℤ f.mode (pos 8) then n.out.mode_of_operation else f.mode;
        target_position = f.out_pos;
        target_velocity = f.out_vel;
        target_torque = f.out_trq;
      } in
      record f { node = record n { out = out } }

module _ {F : Type 0} ⦃d : Double F⦄ where
  open d use {lit, of_int, to_float}

  unfoldable pub log_record : ℤ → ℤ → InPdo → ForceFeedbackSelection → Frame F → LogRecord F
  log_record now dt_us i selected f =
      let n = f.node in
      record {
        timestamp_ns = now;
        op_mode = f.mode;
        target_pos = f.out_pos;
        actual_pos = i.actual_position;
        target_vel = f.out_vel;
        actual_vel = i.actual_velocity;
        target_trq = f.out_trq;
        actual_trq = i.actual_torque;
        dt_us = dt_us;
        status_word = i.status_word;
        error_code = n.axis.last_error_code;
        wf_type = type_code (get_copy n.axis.wf).type;
        load_cell_n = mn_to_n_float selected.signed_mn;
        lc_ch0_n = mn_to_n_float n.sensors.force_ch0_mn;
        lc_ch1_n = mn_to_n_float n.sensors.force_ch1_mn;
        load_cell_abs_n = mn_to_n_float selected.abs_mn;
        lc_ch0_abs_n = mn_to_n_float (abs_i32 n.sensors.force_ch0_mn);
        lc_ch1_abs_n = mn_to_n_float (abs_i32 n.sensors.force_ch1_mn);
        linear_encoder_count = n.sensors.linear_count;
        linear_encoder_mm = to_float (of_int n.sensors.linear_um ⊘ lit (pos 1000) 0);
      }

  unfoldable pub log_stage : ℤ → ℤ → InPdo → ForceFeedbackSelection → Frame F → Node F
  log_stage now dt_us i selected f =
      let n = f.node in
      record n { logger = push_record n.logger (log_record now dt_us i selected f) }

  unfoldable pub finish : ℤ → ℤ → InPdo → ForceFeedbackSelection → Frame F → Node F
  finish now dt_us i selected f =
      let (control, f') = control_stage i f in
      log_stage now dt_us i selected (write_pdo control (safety_stage now i f'))
