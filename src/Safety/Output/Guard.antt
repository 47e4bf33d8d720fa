-- ===== src/Safety/Output/Guard.antt =====
-- What the output guard promises, stated over the integers.
use motor_control.Base.{
  ◌≡◌, ◌*◌, ◌+◌, ◌≤◌, ◌<◌, ◌^◌, ◌↔◌, true, false, ℤ, pos, ◌<ℤ◌, ◌-ℤ◌, ◌*ℤ◌, abs_ℕ, pos_part,
  neg_part, arith, to_i64_id,
}
use motor_control.Safety.Output.{OutputSafetyInput, timeout_expired, clamp_abs, apply_output_safety}

-- The clamp keeps the magnitude within the limit, whatever it is given.
pub clamp_abs_bounds : (m x : ℤ) → abs_ℕ (clamp_abs m x) ≤ pos_part m
clamp_abs_bounds m x = ground arith

-- A value that is within the limit passes the clamp unchanged.
pub clamp_abs_id : (m x : ℤ) → abs_ℕ x ≤ pos_part m → clamp_abs m x ≡ x
clamp_abs_id m x h = ground arith

pub velocity_bounds :
    (v t : ℤ) (input : OutputSafetyInput)
    → abs_ℕ (apply_output_safety v t input).target_velocity ≤ pos_part input.max_abs_rpm
unfolding apply_output_safety
velocity_bounds v t input = ground arith

-- The conditions under which the guard stops the motor.
pub data Stops (input : OutputSafetyInput) : Type 0 where
  fault : input.is_fault ≡ true → Stops input
  disabled : input.enable_desired ≡ false → Stops input
  tripped : input.force_limit_tripped ≡ true → Stops input
  command : timeout_expired input.now_ns input.last_cmd_ns input.cmd_timeout_ms ≡ true → Stops input
  heartbeat :
      timeout_expired input.now_ns input.last_heartbeat_ns input.heartbeat_timeout_ms ≡ true
      → Stops input

pub Stops-zero :
    (v t : ℤ) (input : OutputSafetyInput)
    → Stops input
    → let out = apply_output_safety v t input in
      (out.target_velocity ≡ pos 0) × (out.target_torque ≡ pos 0) × (out.stopped ≡ true)
unfolding apply_output_safety
Stops-zero v t input (fault h) = ground arith
Stops-zero v t input (disabled h) = ground arith
Stops-zero v t input (tripped h) = ground arith
Stops-zero v t input (command h) = ground arith
Stops-zero v t input (heartbeat h) = ground arith

-- The guard stops for no other reason.
pub unstopped :
    (v t : ℤ) (input : OutputSafetyInput)
    → input.is_fault ≡ false
    → input.enable_desired ≡ true
    → input.force_limit_tripped ≡ false
    → timeout_expired input.now_ns input.last_cmd_ns input.cmd_timeout_ms ≡ false
    → timeout_expired input.now_ns input.last_heartbeat_ns input.heartbeat_timeout_ms ≡ false
    → (apply_output_safety v t input).stopped ≡ false
unfolding apply_output_safety
unstopped v t input healthy wish untripped commanded alive = ground arith

-- The outcome of the guard: stopped for one of the conditions, or the torque as it was and the
-- velocity as it was if it is within the limit.
pub passes :
    (v t : ℤ) (input : OutputSafetyInput)
    → (apply_output_safety v t input).stopped ≡ false
    → let out = apply_output_safety v t input in
      (out.target_torque ≡ t) × (out.target_velocity ≡ clamp_abs input.max_abs_rpm v)
unfolding apply_output_safety
passes v t input h = ground arith

-- For times of magnitude below 2^62 ns and a timeout of magnitude below 2^31 ms, a timeout has
-- expired exactly when the timeout is positive, a message has come at a positive time, and more
-- than the timeout lies between the message and now.
pub timeout_expired_iff :
    (now last timeout : ℤ)
    → abs_ℕ now < 2 ^ 62
    → abs_ℕ last < 2 ^ 62
    → abs_ℕ timeout < 2 ^ 31
    → (timeout_expired now last timeout ≡ true) ↔ (
        (pos 0 <ℤ timeout)
        × (pos 0 <ℤ last)
        × (pos_part timeout * 1_000_000 + pos_part last + neg_part now < pos_part now))
unfolding timeout_expired ◌-ℤ◌ ◌*ℤ◌
timeout_expired_iff now last timeout hn hl ht =
    ground (arith, to_i64_id (now -ℤ last), to_i64_id (timeout *ℤ pos 1_000_000))
