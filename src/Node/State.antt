-- ===== src/Node/State.antt =====
-- cpp/src/epos_control/src/epos_motor_node.cpp: the members of EposNode and the locals of its
-- real-time loop, grouped by their use. Every atomic is a plain field: a callback and a cycle of the
-- loop are each one step.
use motor_control.Base.{ℕ, Bool, ℤ}
use motor_control.Control.Position.{PositionControlState}
use motor_control.Control.ForcePid.{ForcePid, ForceTanh}
use motor_control.Ethercat.Pdo.{OutPdo}
use motor_control.Ethercat.Axis.{AxisState}
use motor_control.Logging.AsyncLogger.{AsyncLogger}
use motor_control.Ring.{RingBuffer}

-- The ROS parameters, which do not change after the constructor.
pub record Params (F : Type 0) : Type 0 where
  pub cycle_hz : ℤ
  pub max_abs_target : ℤ
  pub cmd_timeout_ms : ℤ
  pub auto_enable : Bool
  pub overrun_thresh_us : ℤ
  pub wkc_recover_threshold : ℤ
  pub heartbeat_timeout_ms : ℤ
  pub pos_p_gain : F
  pub motor_ticks_per_rev : ℤ

-- The commands of the operator.
pub record Targets : Type 0 where
  pub target : ℤ
  pub target_pos : ℤ
  pub target_trq : ℤ
  pub requested_op_mode : ℤ
  pub accel_limit_rpm_s : ℤ
  pub pos_speed_limit : ℤ
  pub last_cmd_ns : ℤ
  pub last_heartbeat_ns : ℤ
  pub enable_req : Bool
  pub fault_reset_req : Bool

-- The last readings of the load cells and of the linear encoder.
pub record Sensors : Type 0 where
  pub force_ch0_mn : ℤ
  pub force_ch1_mn : ℤ
  pub force_ch0_ns : ℤ
  pub force_ch1_ns : ℤ
  pub tare_ch0_mn : ℤ
  pub tare_ch1_mn : ℤ
  pub linear_count : ℤ
  pub linear_um : ℤ
  pub linear_ns : ℤ

-- The force limit, and the event that it leaves for the log.
pub record ForceLimit : Type 0 where
  pub limit_mn : ℤ
  pub tripped : Bool
  pub peak_mn : ℤ
  pub threshold_mn : ℤ
  pub event : ℤ

-- The settings of the force controller.
pub record ForceControl (F : Type 0) : Type 0 where
  pub active : Bool
  pub target_force_mn : ℤ
  pub direction : ℤ
  pub feedback_mode : ℤ
  pub abs_mode : Bool
  pub kp : F
  pub ki : F
  pub kd : F
  pub max_rpm : ℤ
  pub out_alpha : F
  pub ctrl_mode : ℤ
  pub tanh_sensitivity : F
  pub tanh_deadband : F

-- Counters and flags for the publishers.
pub record Diagnostics : Type 0 where
  pub last_wkc : ℤ
  pub cycle_dt_us : ℤ
  pub cycle_jitter_us : ℤ
  pub cycle_overrun_count : ℤ
  pub wkc_error_count : ℤ
  pub consecutive_wkc_errors : ℤ
  pub fault_log_pending : Bool
  pub pending_fault_status : ℕ
  pub diag_ring : RingBuffer ℤ

-- What belongs to the real-time thread alone.
pub record RtState (F : Type 0) : Type 0 where
  pub next_ns : ℤ
  pub last_cycle_ns : ℤ
  pub first : Bool
  pub was_fault : Bool
  pub was_force_ctrl : Bool
  pub current_cmd_vel : F
  pub pos_state : PositionControlState
  pub fault_reset_hold : ℕ
  pub pid : ForcePid F
  pub tanh : ForceTanh F

pub record Node (F : Type 0) : Type 0 where
  pub params : Params F
  pub axis : AxisState F
  pub targets : Targets
  pub sensors : Sensors
  pub limit : ForceLimit
  pub force : ForceControl F
  pub diag : Diagnostics
  pub rt : RtState F
  pub logger : AsyncLogger F
  -- The output area of the process image.
  pub out : OutPdo
