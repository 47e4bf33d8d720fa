-- ===== src/Node/Cycle/Latch.antt =====
-- A round of the loop keeps the motor stopped while the limit is tripped and no reading is recent.
use motor_control.Base.{
  ℕ, zero, suc, ◌^◌, ◌<◌, ◌<ℤ◌, ◌⊎◌, abs_ℕ, ◌≡◌, ◌∙◌, refl, ap, false, ℤ, pos, negsuc, ◌≤ℤ◌, arith,
  Option, none, some,
}
use motor_control.Double.{Double}
use motor_control.Ethercat.Pdo.{InPdo}
use motor_control.Safety.ForceLimit.{default_stale_ns, is_recent_sample}
use motor_control.Control.Force.{ForceFeedbackSelection}
use motor_control.Node.State.{Node}
use motor_control.Node.Latch.{Spares, IsLatched, spared-IsLatched}
use motor_control.Node.Cycle.Timing.{
  CycleTime, dt_of, dt_us_of, schedule, measure, exchange_ok, exchange_failed,
}
use motor_control.Node.Cycle.Command.{Frame, start_frame, mode_command}
use motor_control.Node.Cycle.Force.{limit_check, net_ch0, net_ch1, selected_force}
use motor_control.Node.Cycle.Finish.{control_stage, safety_stage, write_pdo, log_stage, finish}
use motor_control.Node.Cycle.Output.{trip_after, final_frame, final-Kept}
use motor_control.Node.Cycle.Safe.{
  good_round, ready, good_round-control_round, MustStop, round_stops, over-trip_after,
  over-limit_check,
}
use motor_control.Safety.ForceLimit.Trip.{IsOver, has_valid_data_iff}
use motor_control.Node.Cycle.{CycleInput, prepare, control_round, with_data, rt_cycle}

-- No reading of these times is recent.
abbrev pub IsStale : ℤ → ℤ → ℤ → Type 0
IsStale last0 last1 now =
    (is_recent_sample now last0 default_stale_ns ≡ false)
    × (is_recent_sample now last1 default_stale_ns ≡ false)

module _ {F : Type 0} ⦃d : Double F⦄ where
  stale-limit_check :
      (last0 last1 now : ℤ) (n : Node F)
      → IsLatched last0 last1 n
      → IsStale last0 last1 now
      → (limit_check now n).has_valid_data ≡ false
  unfolding limit_check
  stale-limit_check last0 last1 now n h stale = ground (
    arith,
    h.ch0,
    h.ch1,
    stale,
    has_valid_data_iff n.limit.limit_mn now (net_ch0 n.sensors) (net_ch1 n.sensors)
        n.sensors.force_ch0_ns n.sensors.force_ch1_ns,
  )

  finish_keeps :
      (now dt_us : ℤ) (i : InPdo) (s : ForceFeedbackSelection) (f : Frame F)
      → let m = finish now dt_us i s f in (m.limit ≡ f.node.limit) × (m.sensors ≡ f.node.sensors)
  unfolding finish control_stage safety_stage write_pdo log_stage
  finish_keeps now dt_us i s f = (refl, refl)

  -- The limit and the readings after a round.
  round_limit :
      (time : CycleTime) (w : ℕ) (i : InPdo) (n : Node F)
      → let m = rt_cycle (good_round time w i) n in
        (m.limit.tripped ≡ trip_after time.now_ns n) × (m.sensors ≡ n.sensors)
  unfolding exchange_ok measure schedule control_round limit_check
  round_limit time w i n =
      let m = ready time w n in
      let s =
        selected_force
          (mode_command time.now_ns (dt_of time.now_ns n) i (start_frame i (prepare i m))).node in
      let f = final_frame time.now_ns (dt_of time.now_ns n) i m in
      let (k, tripped) = final-Kept time.now_ns (dt_of time.now_ns n) i m in
      let (limit, sensors) = finish_keeps time.now_ns (dt_us_of time.now_ns n) i s f in
      rw (good_round-control_round time w i n)
        (ap (λ l. l.tripped) limit ∙ tripped, sensors ∙ k.sensors)

  good_round-IsLatched :
      (last0 last1 : ℤ) (time : CycleTime) (w : ℕ) (i : InPdo) (n : Node F)
      → IsStale last0 last1 time.now_ns
      → IsLatched last0 last1 n
      → IsLatched last0 last1 (rt_cycle (good_round time w i) n)
  good_round-IsLatched last0 last1 time w i n stale h =
      let dead = stale-limit_check last0 last1 time.now_ns n h stale in
      let (velocity, torque) = round_stops time w i n (MustStop.latched h.tripped dead) in
      let (tripped, sensors) = round_limit time w i n in
      record {
        tripped = ground (arith, tripped, dead, h.tripped);
        ch0 = ap (λ s. s.force_ch0_ns) sensors ∙ h.ch0;
        ch1 = ap (λ s. s.force_ch1_ns) sensors ∙ h.ch1;
        velocity = velocity;
        torque = torque;
      }

  -- A round without process data, and one whose exchange fails.
  no_data-Spares :
      (time : CycleTime) (wkc : ℤ) (n : Node F)
      → Spares n (rt_cycle (record { time = time; wkc = wkc; inputs = none }) n)
  unfolding rt_cycle with_data exchange_ok exchange_failed measure schedule
  no_data-Spares time wkc n = ground arith

  failed-Spares :
      (time : CycleTime) (wkc : ℤ) (inputs : Option InPdo) (n : Node F)
      → wkc ≤ℤ pos 0
      → Spares n (rt_cycle (record { time = time; wkc = wkc; inputs = inputs }) n)
  unfolding rt_cycle exchange_failed measure schedule
  failed-Spares time wkc inputs n h = ground arith

  cycle-IsLatched :
      (last0 last1 : ℤ) (time : CycleTime) (wkc : ℤ) (inputs : Option InPdo) (n : Node F)
      → IsStale last0 last1 time.now_ns
      → IsLatched last0 last1 n
      → IsLatched last0 last1 (rt_cycle (record { time = time; wkc = wkc; inputs = inputs }) n)
  cycle-IsLatched last0 last1 time (pos (suc w)) (some i) n stale h =
      good_round-IsLatched last0 last1 time w i n stale h
  cycle-IsLatched last0 last1 time (pos zero) inputs n stale h =
      spared-IsLatched last0 last1 n _ (failed-Spares time (pos 0) inputs n (omega arith)) h
  cycle-IsLatched last0 last1 time (negsuc w) inputs n stale h =
      spared-IsLatched last0 last1 n _ (failed-Spares time (negsuc w) inputs n (omega arith)) h
  cycle-IsLatched last0 last1 time wkc none n stale h =
      spared-IsLatched last0 last1 n _ (no_data-Spares time wkc n) h

  pub rt_cycle-IsLatched :
      (last0 last1 : ℤ) (input : CycleInput) (n : Node F)
      → IsStale last0 last1 input.time.now_ns
      → IsLatched last0 last1 n
      → IsLatched last0 last1 (rt_cycle input n)
  rt_cycle-IsLatched last0 last1 input n =
      cycle-IsLatched last0 last1 input.time input.wkc input.inputs n

  -- A channel with a recent sample is over a limit that is on, and both are of a size that the check
  -- can handle.
  pub record Exceeds (now : ℤ) (n : Node F) : Type 0 where
    pub small0 : abs_ℕ (net_ch0 n.sensors) < 2 ^ 31
    pub small1 : abs_ℕ (net_ch1 n.sensors) < 2 ^ 31
    pub on : pos 0 <ℤ n.limit.limit_mn
    pub over :
        IsOver n.limit.limit_mn now (net_ch0 n.sensors) n.sensors.force_ch0_ns
        ⊎ IsOver n.limit.limit_mn now (net_ch1 n.sensors) n.sensors.force_ch1_ns

  -- The round that finds the excess stops the motor and trips the limit.
  pub trip-IsLatched :
      (time : CycleTime) (w : ℕ) (i : InPdo) (n : Node F)
      → Exceeds time.now_ns n
      → IsLatched n.sensors.force_ch0_ns n.sensors.force_ch1_ns (rt_cycle (good_round time w i) n)
  trip-IsLatched time w i n x =
      let (velocity, torque) =
        round_stops time w i n (MustStop.over x.small0 x.small1 x.on x.over) in
      let (tripped, sensors) = round_limit time w i n in
      let found = over-limit_check time.now_ns n x.small0 x.small1 x.on x.over in
      record {
        tripped = tripped ∙ over-trip_after time.now_ns n found;
        ch0 = ap (λ s. s.force_ch0_ns) sensors;
        ch1 = ap (λ s. s.force_ch1_ns) sensors;
        velocity = velocity;
        torque = torque;
      }
