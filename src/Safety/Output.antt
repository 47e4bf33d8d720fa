-- ===== src/Safety/Output.antt =====
-- cpp/src/epos_control/include/safety/output_safety_guard.hpp: the last guard before the PDO is
-- written.
pub mod Guard
use motor_control.Base.{
  ◌*◌, Bool, true, false, ◌&&◌, ◌||◌, not, ℤ, pos, ◌-ℤ◌, ◌*ℤ◌, lt_ℤ, le_ℤ, max_ℤ, min_ℤ, neg_ℤ,
  to_i64, if◌then◌else◌,
}

-- struct OutputSafetyInput
pub record OutputSafetyInput : Type 0 where
  pub now_ns : ℤ
  pub is_fault : Bool
  pub enable_desired : Bool
  pub force_limit_tripped : Bool
  pub cmd_timeout_ms : ℤ
  pub last_cmd_ns : ℤ
  pub heartbeat_timeout_ms : ℤ
  pub last_heartbeat_ns : ℤ
  pub max_abs_rpm : ℤ

-- struct OutputSafetyResult
pub record OutputSafetyResult : Type 0 where
  pub target_velocity : ℤ
  pub target_torque : ℤ
  pub stopped : Bool
  pub disabled_or_fault : Bool
  pub force_limit : Bool
  pub command_timeout : Bool
  pub heartbeat_timeout : Bool

unfoldable pub timeout_expired : ℤ → ℤ → ℤ → Bool
timeout_expired now_ns last_ns timeout_ms =
    if le_ℤ timeout_ms (pos 0) || le_ℤ last_ns (pos 0)
    then false
    else lt_ℤ (to_i64 (timeout_ms *ℤ pos 1000000)) (to_i64 (now_ns -ℤ last_ns))

-- std::max(-limit, std::min(limit, x)) with limit = std::max(0, max_abs)
abbrev pub clamp_abs : ℤ → ℤ → ℤ
clamp_abs max_abs x = let limit = max_ℤ (pos 0) max_abs in max_ℤ (neg_ℤ limit) (min_ℤ limit x)

pub apply_output_safety : ℤ → ℤ → OutputSafetyInput → OutputSafetyResult
apply_output_safety target_velocity target_torque input =
    let disabled_or_fault = input.is_fault || not input.enable_desired in
    let command_timeout = timeout_expired input.now_ns input.last_cmd_ns input.cmd_timeout_ms in
    let heartbeat_timeout =
      timeout_expired input.now_ns input.last_heartbeat_ns input.heartbeat_timeout_ms in
    let stopped =
      disabled_or_fault || input.force_limit_tripped || command_timeout || heartbeat_timeout in
    record {
      target_velocity = clamp_abs input.max_abs_rpm (if stopped then pos 0 else target_velocity);
      target_torque = if stopped then pos 0 else target_torque;
      stopped = stopped;
      disabled_or_fault = disabled_or_fault;
      force_limit = input.force_limit_tripped;
      command_timeout = command_timeout;
      heartbeat_timeout = heartbeat_timeout;
    }
