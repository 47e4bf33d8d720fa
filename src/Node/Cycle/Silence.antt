-- ===== src/Node/Cycle/Silence.antt =====
-- A round of the loop keeps the motor stopped while a message that it needs does not come.
use motor_control.Base.{ℕ, zero, suc, ◌∙◌, refl, ℤ, pos, negsuc, ◌≤ℤ◌, arith, Option, none, some}
use motor_control.Double.{Double}
use motor_control.Ethercat.Pdo.{InPdo}
use motor_control.Control.Force.{ForceFeedbackSelection}
use motor_control.Node.State.{Node}
use motor_control.Node.Calm.{Steady, Calm}
use motor_control.Node.Silence.{
  Silence, Holds, IsAfter, IsStopped, Steady-Holds, Calm-IsStopped, holds-MustStop,
}
use motor_control.Node.Cycle.Timing.{
  CycleTime, dt_of, dt_us_of, schedule, measure, exchange_ok, exchange_failed,
}
use motor_control.Node.Cycle.Command.{Frame, start_frame, mode_command}
use motor_control.Node.Cycle.Force.{selected_force}
use motor_control.Node.Cycle.Finish.{control_stage, safety_stage, write_pdo, log_stage, finish}
use motor_control.Node.Cycle.Output.{final_frame, final-Kept}
use motor_control.Node.Cycle.Safe.{good_round, ready, good_round-control_round, round_stops}
use motor_control.Node.Cycle.{CycleInput, prepare, control_round, with_data, rt_cycle}

module _ {F : Type 0} ⦃d : Double F⦄ where
  finish-Steady :
      (now dt_us : ℤ) (i : InPdo) (s : ForceFeedbackSelection) (f : Frame F)
      → Steady f.node (finish now dt_us i s f)
  unfolding finish control_stage safety_stage write_pdo log_stage
  finish-Steady now dt_us i s f = record {
    params = refl;
    last_cmd_ns = refl;
    last_heartbeat_ns = refl;
    enable_req = refl;
  }

  good_round-Steady :
      (time : CycleTime) (w : ℕ) (i : InPdo) (n : Node F)
      → Steady n (rt_cycle (good_round time w i) n)
  unfolding exchange_ok measure schedule control_round
  good_round-Steady time w i n =
      let m = ready time w n in
      let s =
        selected_force
          (mode_command time.now_ns (dt_of time.now_ns n) i (start_frame i (prepare i m))).node in
      let f = final_frame time.now_ns (dt_of time.now_ns n) i m in
      let (k, _) = final-Kept time.now_ns (dt_of time.now_ns n) i m in
      let done = finish-Steady time.now_ns (dt_us_of time.now_ns n) i s f in
      rw (good_round-control_round time w i n) (record {
        params = done.params ∙ k.params;
        last_cmd_ns = done.last_cmd_ns ∙ k.last_cmd_ns;
        last_heartbeat_ns = done.last_heartbeat_ns ∙ k.last_heartbeat_ns;
        enable_req = done.enable_req ∙ k.enable_req;
      })

  -- The round stops the motor.
  pub good_round-IsStopped :
      (s : Silence) (since : ℤ) (time : CycleTime) (w : ℕ) (i : InPdo) (n : Node F)
      → IsAfter since time.now_ns
      → Holds s since n
      → IsStopped s since (rt_cycle (good_round time w i) n)
  good_round-IsStopped s since time w i n after h =
      let (velocity, torque) =
        round_stops time w i n (holds-MustStop s since time.now_ns i n h after) in
      record {
        silence = Steady-Holds s since n _ (good_round-Steady time w i n) h;
        velocity = velocity;
        torque = torque;
      }

  -- A round without process data, and one whose exchange fails.
  no_data-Calm :
      (time : CycleTime) (wkc : ℤ) (n : Node F)
      → Calm n (rt_cycle (record { time = time; wkc = wkc; inputs = none }) n)
  unfolding rt_cycle with_data exchange_ok exchange_failed measure schedule
  no_data-Calm time wkc n = ground arith

  failed-Calm :
      (time : CycleTime) (wkc : ℤ) (inputs : Option InPdo) (n : Node F)
      → wkc ≤ℤ pos 0
      → Calm n (rt_cycle (record { time = time; wkc = wkc; inputs = inputs }) n)
  unfolding rt_cycle exchange_failed measure schedule
  failed-Calm time wkc inputs n h = ground arith

  cycle-IsStopped :
      (s : Silence) (since : ℤ) (time : CycleTime) (wkc : ℤ) (inputs : Option InPdo) (n : Node F)
      → IsAfter since time.now_ns
      → IsStopped s since n
      → IsStopped s since (rt_cycle (record { time = time; wkc = wkc; inputs = inputs }) n)
  cycle-IsStopped s since time (pos (suc w)) (some i) n after h =
      good_round-IsStopped s since time w i n after h.silence
  cycle-IsStopped s since time (pos zero) inputs n after h =
      Calm-IsStopped s since n _ (failed-Calm time (pos 0) inputs n (omega arith)) h
  cycle-IsStopped s since time (negsuc w) inputs n after h =
      Calm-IsStopped s since n _ (failed-Calm time (negsuc w) inputs n (omega arith)) h
  cycle-IsStopped s since time wkc none n after h =
      Calm-IsStopped s since n _ (no_data-Calm time wkc n) h

  pub rt_cycle-IsStopped :
      (s : Silence) (since : ℤ) (input : CycleInput) (n : Node F)
      → IsAfter since input.time.now_ns
      → IsStopped s since n
      → IsStopped s since (rt_cycle input n)
  rt_cycle-IsStopped s since input n = cycle-IsStopped s since input.time input.wkc input.inputs n
