-- ===== src/Node/Cycle/Safe.antt =====
-- The safety of a round: what the drive is sent when a condition to stop holds.
use motor_control.Base.{
  ◌≡◌, ◌≤◌, ◌<◌, ◌^◌, ◌⊎◌, ◌∙◌, true, false, ℤ, pos, suc, ℕ, ◌<ℤ◌, ◌≤ℤ◌, abs_ℕ, pos_part, arith,
  some, if◌then◌else◌,
}
use motor_control.Base.{ap, Option, to_i32, ◌+ℤ◌, le_ℤ}
use motor_control.Double.{Double}
use motor_control.Ethercat.Pdo.{InPdo}
use motor_control.Ethercat.Cia402.{is_fault}
use motor_control.Safety.Output.{apply_output_safety, timeout_expired}
use motor_control.Safety.Output.Guard.{velocity_bounds, Stops, Stops-zero}
use motor_control.Safety.ForceLimit.{default_stale_ns}
use motor_control.Safety.ForceLimit.Trip.{IsOver, over_limit_iff, valid_of_over}
use motor_control.Node.State.{Node}
use motor_control.Node.Cycle.Timing.{
  CycleTime, schedule, measure, exchange_ok, exchange_failed, dt_of, dt_us_of,
}
use motor_control.Node.Cycle.Mode.{enable_wanted}
use motor_control.Node.Cycle.Finish.{safety_input}
use motor_control.Node.Cycle.Force.{limit_check, net_ch0, net_ch1}
use motor_control.Node.Cycle.Output.{guard_input, trip_after, round-out, final_frame}
use motor_control.Node.Cycle.{CycleInput, control_round, with_data, rt_cycle}

-- A round in which the communication works and the drive's data are there.
abbrev pub good_round : CycleTime → ℕ → InPdo → CycleInput
good_round time w i = record { time = time; wkc = pos (suc w); inputs = some i }

wkc-is_good : (w : ℕ) → le_ℤ (pos (suc w)) (pos 0) ≡ false
wkc-is_good w = ground arith

module _ {F : Type 0} ⦃d : Double F⦄ where
  -- The state in which such a round begins to control: its times and counters are up to date.
  abbrev pub ready : CycleTime → ℕ → Node F → Node F
  ready time w n = exchange_ok (pos (suc w)) (measure time.now_ns (schedule time.scheduled_ns n))

  pub good_round-control_round :
      (time : CycleTime) (w : ℕ) (i : InPdo) (n : Node F)
      → rt_cycle (good_round time w i) n
        ≡ control_round time.now_ns
            (dt_of time.now_ns n)
            (dt_us_of time.now_ns n)
            i
            (ready time w n)
  unfolding rt_cycle with_data
  good_round-control_round time w i n =
      ap
        (λ b.
          if b
          then exchange_failed (pos (suc w)) time.now_ns (dt_us_of time.now_ns n)
              (measure time.now_ns (schedule time.scheduled_ns n))
          else control_round time.now_ns (dt_of time.now_ns n) (dt_us_of time.now_ns n) i
              (ready time w n))
        (wkc-is_good w)

  pub good_round-out :
      (time : CycleTime) (w : ℕ) (i : InPdo) (n : Node F)
      → let f = final_frame time.now_ns (dt_of time.now_ns n) i (ready time w n) in
        let safe = apply_output_safety f.out_vel f.out_trq (guard_input time.now_ns i n) in
        let out = (rt_cycle (good_round time w i) n).out in
        (out.target_velocity ≡ safe.target_velocity) × (out.target_torque ≡ safe.target_torque)
  unfolding guard_input exchange_ok measure schedule safety_input limit_check enable_wanted
  good_round-out time w i n =
      let c = good_round-control_round time w i n in
      let (v, t) =
        round-out time.now_ns (dt_of time.now_ns n) (dt_us_of time.now_ns n) i (ready time w n) in
      (ap (λ m. m.out.target_velocity) c ∙ v, ap (λ m. m.out.target_torque) c ∙ t)

  -- In every round that exchanges process data, whatever the mode, the waveform and the force
  -- controller ask for, the magnitude of the velocity written for the drive is at most
  -- max_abs_target, and it is 0 if max_abs_target is negative.
  pub round_velocity_bounds :
      (time : CycleTime) (w : ℕ) (i : InPdo) (n : Node F)
      → abs_ℕ (rt_cycle (good_round time w i) n).out.target_velocity
        ≤ pos_part n.params.max_abs_target
  unfolding guard_input safety_input
  round_velocity_bounds time w i n =
      let f = final_frame time.now_ns (dt_of time.now_ns n) i (ready time w n) in
      let (v, _) = good_round-out time w i n in
      ground (arith, v, velocity_bounds f.out_vel f.out_trq (guard_input time.now_ns i n))

  -- The conditions under which a round must stop the motor: a fault, no wish to enable the drive, a
  -- fresh force over the limit, a limit that was tripped while no reading is fresh, and the two
  -- timeouts.
  pub data MustStop (now : ℤ) (i : InPdo) (n : Node F) : Type 0 where
    fault : is_fault i.status_word ≡ true → MustStop now i n
    disabled : enable_wanted n ≡ false → MustStop now i n
    over :
        abs_ℕ (net_ch0 n.sensors) < 2 ^ 31
        → abs_ℕ (net_ch1 n.sensors) < 2 ^ 31
        → pos 0 <ℤ n.limit.limit_mn
        → IsOver n.limit.limit_mn now (net_ch0 n.sensors) n.sensors.force_ch0_ns
          ⊎ IsOver n.limit.limit_mn now (net_ch1 n.sensors) n.sensors.force_ch1_ns
        → MustStop now i n
    latched : n.limit.tripped ≡ true → (limit_check now n).has_valid_data ≡ false → MustStop now i n
    command :
        timeout_expired now n.targets.last_cmd_ns n.params.cmd_timeout_ms ≡ true → MustStop now i n
    heartbeat :
        timeout_expired now n.targets.last_heartbeat_ns n.params.heartbeat_timeout_ms ≡ true
        → MustStop now i n

  pub over-trip_after :
      (now : ℤ) (n : Node F) → (limit_check now n).over_limit ≡ true → trip_after now n ≡ true
  unfolding limit_check
  over-trip_after now n h = ground (
    arith,
    h,
    valid_of_over n.limit.limit_mn now (net_ch0 n.sensors) (net_ch1 n.sensors)
        n.sensors.force_ch0_ns n.sensors.force_ch1_ns default_stale_ns h,
  )

  pub over-limit_check :
      (now : ℤ) (n : Node F)
      → abs_ℕ (net_ch0 n.sensors) < 2 ^ 31
      → abs_ℕ (net_ch1 n.sensors) < 2 ^ 31
      → pos 0 <ℤ n.limit.limit_mn
      → IsOver n.limit.limit_mn now (net_ch0 n.sensors) n.sensors.force_ch0_ns
        ⊎ IsOver n.limit.limit_mn now (net_ch1 n.sensors) n.sensors.force_ch1_ns
      → (limit_check now n).over_limit ≡ true
  unfolding limit_check
  over-limit_check now n h0 h1 l o =
      (over_limit_iff n.limit.limit_mn now (net_ch0 n.sensors) (net_ch1 n.sensors)
          n.sensors.force_ch0_ns n.sensors.force_ch1_ns h0 h1).1
        (l, o)

  must_stop-Stops :
      (now : ℤ) (i : InPdo) (n : Node F) → MustStop now i n → Stops (guard_input now i n)
  unfolding guard_input safety_input
  must_stop-Stops now i n (fault h) = Stops.fault h
  must_stop-Stops now i n (disabled h) = Stops.disabled h
  must_stop-Stops now i n (over h0 h1 l o) =
      Stops.tripped (over-trip_after now n (over-limit_check now n h0 h1 l o))
  must_stop-Stops now i n (latched h v) = Stops.tripped (ground (arith, h, v))
  must_stop-Stops now i n (command h) = Stops.command h
  must_stop-Stops now i n (heartbeat h) = Stops.heartbeat h

  -- In a round of the real-time loop that exchanges process data, the velocity and the torque
  -- written for the drive are both 0 if one of these holds: the status word shows a fault; the
  -- drive is not to be enabled; the force limit is on, both channels are below 2^31 mN in
  -- magnitude and one with a recent sample is over the limit; the limit was tripped and no
  -- channel gives a verdict; the command timeout has expired; the heartbeat timeout has
  -- expired.
  pub round_stops :
      (time : CycleTime) (w : ℕ) (i : InPdo) (n : Node F)
      → MustStop time.now_ns i n
      → let out = (rt_cycle (good_round time w i) n).out in
        (out.target_velocity ≡ pos 0) × (out.target_torque ≡ pos 0)
  round_stops time w i n h =
      let f = final_frame time.now_ns (dt_of time.now_ns n) i (ready time w n) in
      let g = guard_input time.now_ns i n in
      let (v, t) = good_round-out time w i n in
      let (zv, zt, _) = Stops-zero f.out_vel f.out_trq g (must_stop-Stops time.now_ns i n h) in
      (v ∙ zv, t ∙ zt)

  -- A round whose exchange fails writes nothing for the drive and leaves every command as it is; it
  -- counts the error.
  pub failed_round :
      (time : CycleTime) (wkc : ℤ) (inputs : Option InPdo) (n : Node F)
      → wkc ≤ℤ pos 0
      → let m = rt_cycle (record { time = time; wkc = wkc; inputs = inputs }) n in
        (m.out ≡ n.out)
        × (m.targets ≡ n.targets)
        × (m.force ≡ n.force)
        × (m.limit ≡ n.limit)
        × (m.diag.wkc_error_count ≡ to_i32 (n.diag.wkc_error_count +ℤ pos 1))
        × (m.diag.consecutive_wkc_errors ≡ to_i32 (n.diag.consecutive_wkc_errors +ℤ pos 1))
  unfolding rt_cycle exchange_failed measure schedule
  failed_round time wkc inputs n h = ground arith
