-- ===== src/Node/Cycle/Follows/Round.antt =====
-- What a round of velocity control sends.
use motor_control.Base.{if_false, if_same, ℕ, ◌≡◌, ◌∙◌, ap, refl, false, ℤ, pos, eq_ℤ, arith}
use motor_control.Double.{Double}
use motor_control.Ethercat.Pdo.{InPdo}
use motor_control.Ethercat.Axis.{get_copy}
use motor_control.Safety.Output.{apply_output_safety, clamp_abs}
use motor_control.Safety.Output.Guard.{clamp_abs_id, passes, unstopped}
use motor_control.Control.Velocity.Bounds.{velocity_command_lem}
use motor_control.Control.Force.{ForceFeedbackSelection}
use motor_control.Node.State.{Node}
use motor_control.Node.Cycle.Timing.{CycleTime, dt_of, dt_us_of, schedule, measure, exchange_ok}
use motor_control.Node.Cycle.Mode.{enable_wanted, read_drive}
use motor_control.Node.Cycle.Command.{Frame, start_frame, mode_command, velocity_command}
use motor_control.Node.Cycle.Force.{limit_check, selected_force}
use motor_control.Node.Cycle.Finish.{
  control_stage, safety_stage, safety_input, write_pdo, log_stage, finish,
}
use motor_control.Node.Cycle.Output.{final_frame, finish-out, guard_input, trip_after}
use motor_control.Node.Cycle.Safe.{good_round, ready, good_round-control_round, good_round-out}
use motor_control.Node.Cycle.{prepare, control_round, rt_cycle}
use motor_control.Node.Cycle.Follows.{Unhindered, MayRun, velocity_of}
use motor_control.Node.Cycle.Follows.Stages.{final_frame-velocity}

module _ {F : Type 0} ⦃d : Double F⦄ where
  pub Unhindered-unstopped :
      (now : ℤ) (i : InPdo) (n : Node F) (v t : ℤ)
      → Unhindered now i n
      → (apply_output_safety v t (guard_input now i n)).stopped ≡ false
  unfolding guard_input safety_input
  Unhindered-unstopped now i n v t h =
      let calm : trip_after now n ≡ false = if_same _ _ _ h.under h.untripped in
      unstopped v t (guard_input now i n) h.healthy h.wanted calm h.commanded h.alive

  -- The end of a round leaves the state of the commands.
  pub finish-kept :
      (now dt_us : ℤ) (i : InPdo) (s : ForceFeedbackSelection) (f : Frame F)
      → let m = finish now dt_us i s f in
        (m.rt.current_cmd_vel ≡ f.node.rt.current_cmd_vel)
        × (m.rt.pos_state ≡ f.node.rt.pos_state)
        × (m.targets.target_pos ≡ f.node.targets.target_pos)
  unfolding finish control_stage safety_stage write_pdo log_stage
  finish-kept now dt_us i s f = (refl, refl, refl)

  pub ready-Unhindered :
      (time : CycleTime) (w : ℕ) (i : InPdo) (n : Node F)
      → Unhindered time.now_ns i n
      → Unhindered time.now_ns i (ready time w n)
  unfolding exchange_ok measure schedule limit_check enable_wanted
  ready-Unhindered time w i n h = record {
    healthy = h.healthy;
    wanted = h.wanted;
    same_mode = h.same_mode;
    untripped = h.untripped;
    under = h.under;
    commanded = h.commanded;
    alive = h.alive;
  }

  ready-MayRun : (time : CycleTime) (w : ℕ) (n : Node F) → MayRun n → MayRun (ready time w n)
  unfolding exchange_ok measure schedule
  ready-MayRun time w n r = record { mode = r.mode; wave = r.wave; no_force = r.no_force }

  -- The velocity and the torque of an unhindered round: the guard clamps the one and passes the other.
  pub good_round-passes :
      (time : CycleTime) (w : ℕ) (i : InPdo) (n : Node F)
      → Unhindered time.now_ns i n
      → let f = final_frame time.now_ns (dt_of time.now_ns n) i (ready time w n) in
        let out = (rt_cycle (good_round time w i) n).out in
        (out.target_velocity ≡ clamp_abs n.params.max_abs_target f.out_vel)
        × (out.target_torque ≡ f.out_trq)
  unfolding guard_input safety_input
  good_round-passes time w i n h =
      let now = time.now_ns in
      let f = final_frame now (dt_of now n) i (ready time w n) in
      let (v, t) = good_round-out time w i n in
      let (torque, velocity) =
        passes f.out_vel f.out_trq (guard_input now i n)
          (Unhindered-unstopped now i n f.out_vel f.out_trq h) in
      (v ∙ velocity, t ∙ torque)

  -- In a round that exchanges process data, with velocity control as the mode and no waveform
  -- of the position, no other mode requested, no fault, a wish to enable, no force control, a
  -- force limit that is neither tripped nor over, and no timeout that has expired: the velocity
  -- written for the drive is exactly the one that compute_velocity_csv_command gives for the
  -- state before the round, at its time and over the time since the round before, with no
  -- torque and mode 9; and the velocity kept for the next round is the filtered one.
  pub round_follows :
      (time : CycleTime) (w : ℕ) (i : InPdo) (n : Node F)
      → Unhindered time.now_ns i n
      → MayRun n
      → let cmd = velocity_of time.now_ns (dt_of time.now_ns n) i n in
        let m = rt_cycle (good_round time w i) n in
        (m.out.target_velocity ≡ cmd.target_rpm)
        × (m.out.target_torque ≡ pos 0)
        × (m.out.mode_of_operation ≡ pos 9)
        × (m.rt.current_cmd_vel ≡ cmd.filtered_rpm)
  unfolding start_frame velocity_command read_drive exchange_ok measure schedule control_round
  round_follows time w i n h r =
      let now = time.now_ns in
      let dt = dt_of now n in
      let cmd = velocity_of now dt i n in
      let m = ready time w n in
      let f = final_frame now dt i m in
      let s = selected_force (mode_command now dt i (start_frame i (prepare i m))).node in
      let frame =
        final_frame-velocity now dt i m (ready-Unhindered time w i n h) (ready-MayRun time w n r) in
      let round = good_round-control_round time w i n in
      let (_, _, mode) = finish-out now (dt_us_of now n) i s f in
      let (filtered, _, _) = finish-kept now (dt_us_of now n) i s f in
      let nine : f.mode ≡ pos 9 = ap (λ g. g.mode) frame ∙ r.mode in
      let not_eight : eq_ℤ f.mode (pos 8) ≡ false = ground (arith, nine) in
      let (velocity, torque) = good_round-passes time w i n h in
      let (bound, _, _, _) =
        velocity_command_lem (get_copy n.axis.wf) now i.actual_position n.targets.target
          n.targets.accel_limit_rpm_s n.params.max_abs_target n.rt.current_cmd_vel dt in
      (
        velocity
            ∙ ap (λ g. clamp_abs n.params.max_abs_target g.out_vel) frame
            ∙ clamp_abs_id n.params.max_abs_target cmd.target_rpm bound,
        torque ∙ ap (λ g. g.out_trq) frame,
        ap (λ m. m.out.mode_of_operation) round ∙ mode ∙ if_false _ _ not_eight ∙ nine,
        ap (λ m. m.rt.current_cmd_vel) round ∙ filtered ∙ ap (λ g. g.node.rt.current_cmd_vel) frame,
      )
