-- ===== src/Node/Cycle/Follows/Pull.antt =====
-- What a round of force control sends.
use motor_control.Base.{
  ℕ, ◌≡◌, ◌∙◌, ap, refl, true, false, ◌&&◌, not, ℤ, pos, eq_ℤ, arith, if_true, if_false,
}
use motor_control.Double.{Double}
use motor_control.Ethercat.Pdo.{InPdo}
use motor_control.Ethercat.Axis.{get_copy}
use motor_control.Safety.Output.{clamp_abs}
use motor_control.Control.Force.{
  ForceFeedbackSelection, ForceControlOutput, compute_force_control_command,
}
use motor_control.Node.State.{Node}
use motor_control.Node.Cycle.Timing.{CycleTime, dt_of, dt_us_of, schedule, measure, exchange_ok}
use motor_control.Node.Cycle.Mode.{read_drive}
use motor_control.Node.Cycle.Command.{Frame, start_frame, mode_command, velocity_command}
use motor_control.Node.Cycle.Force.{
  limit_check, selected_force, force_params, force_keep, force_command, force_control_stage,
  force_stage,
}
use motor_control.Node.Cycle.Finish.{control_stage, safety_stage, write_pdo, log_stage, finish}
use motor_control.Node.Cycle.Output.{final_frame, finish-out}
use motor_control.Node.Cycle.Safe.{good_round, ready, good_round-control_round}
use motor_control.Node.Cycle.{prepare, control_round, rt_cycle}
use motor_control.Node.Cycle.Follows.{Unhindered, MayPull, velocity_of, idle, marked}
use motor_control.Node.Cycle.Follows.Stages.{velocity_stage, limit_stage-quiet}
use motor_control.Node.Cycle.Follows.Round.{good_round-passes, ready-Unhindered, finish-kept}

module _ {F : Type 0} ⦃d : Double F⦄ where
  -- The command of the state before the round, after a command that was sent at `previous`.
  abbrev pub force_of : ℤ → ℤ → F → Node F → ForceControlOutput F
  force_of now dt_ns previous n =
      compute_force_control_command (get_copy n.axis.force_wf) now (selected_force n).control_mn
        (force_params n) previous dt_ns n.rt.pid n.rt.tanh

  -- The frame of a force command.
  record Pulls (cmd : ForceControlOutput F) (f : Frame F) : Type 0 where
    velocity : f.out_vel ≡ cmd.target_rpm
    torque : f.out_trq ≡ pos 0
    mode : f.mode ≡ pos 9
    filtered : f.node.rt.current_cmd_vel ≡ cmd.filtered_rpm
    pid : f.node.rt.pid ≡ cmd.pid
    tanh : f.node.rt.tanh ≡ cmd.tanh

  force_control_stage-on :
      (now dt_ns : ℤ) (s : ForceFeedbackSelection) (i : InPdo) (f : Frame F)
      → f.node.force.active ≡ true
      → f.node.rt.was_force_ctrl ≡ true
      → f.mode ≡ pos 9
      → force_control_stage now dt_ns s i f ≡ force_command now dt_ns s i (marked f)
  unfolding force_control_stage force_keep
  force_control_stage-on now dt_ns s i f a w m =
      let begun : (f.node.force.active && not f.node.rt.was_force_ctrl) ≡ false =
        ground (arith, w) in
      let nine : eq_ℤ f.mode (pos 9) ≡ true = ground (arith, m) in
      if_true _ _ a
      ∙ ap
          (λ (g : Frame F). force_command now dt_ns s i (
            force_keep (record g {
              node = record g.node {
                rt = record g.node.rt { was_force_ctrl = f.node.force.active };
              };
            })))
          (if_false _ _ begun)
      ∙ ap (force_command now dt_ns s i) (if_true _ _ nine)

  force_stage-on :
      (now dt_ns : ℤ) (i : InPdo) (f : Frame F)
      → (limit_check now f.node).over_limit ≡ false
      → f.node.limit.tripped ≡ false
      → f.node.force.active ≡ true
      → f.node.rt.was_force_ctrl ≡ true
      → f.mode ≡ pos 9
      → force_stage now dt_ns i f ≡ force_command now dt_ns (selected_force f.node) i (marked f)
  unfolding force_stage
  force_stage-on now dt_ns i f o t a w m =
      ap (λ m. force_control_stage now dt_ns (selected_force f.node) i (record f { node = m }))
        (limit_stage-quiet now f.node o t)
      ∙ force_control_stage-on now dt_ns (selected_force f.node) i f a w m

  pub final_frame-force :
      (now dt_ns : ℤ) (i : InPdo) (n : Node F)
      → Unhindered now i n
      → MayPull n
      → final_frame now dt_ns i n
        ≡ force_command now dt_ns
            (selected_force n)
            i
            (marked (velocity_command now dt_ns i (start_frame i (idle i n))))
  unfolding start_frame velocity_command limit_check read_drive selected_force
  final_frame-force now dt_ns i n h r =
      velocity_stage now dt_ns i n h r.mode r.wave
      ∙ force_stage-on now dt_ns i (velocity_command now dt_ns i (start_frame i (idle i n))) h.under
          h.untripped r.active r.held r.mode

  command-Pulls :
      (now dt_ns : ℤ) (i : InPdo) (n : Node F)
      → n.limit.tripped ≡ false
      → n.axis.op_mode ≡ pos 9
      → Pulls (force_of now dt_ns (velocity_of now dt_ns i n).filtered_rpm n) (
          force_command now dt_ns
            (selected_force n)
            i
            (marked (velocity_command now dt_ns i (start_frame i (idle i n)))))
  unfolding start_frame velocity_command read_drive force_command force_params
  command-Pulls now dt_ns i n t m = record {
    velocity = if_false _ _ t;
    torque = refl;
    mode = m;
    filtered = if_false _ _ t;
    pid = refl;
    tanh = refl;
  }

  finish-controllers :
      (now dt_us : ℤ) (i : InPdo) (s : ForceFeedbackSelection) (f : Frame F)
      → let m = finish now dt_us i s f in (m.rt.pid ≡ f.node.rt.pid) × (m.rt.tanh ≡ f.node.rt.tanh)
  unfolding finish control_stage safety_stage write_pdo log_stage
  finish-controllers now dt_us i s f = (refl, refl)

  ready-MayPull : (time : CycleTime) (w : ℕ) (n : Node F) → MayPull n → MayPull (ready time w n)
  unfolding exchange_ok measure schedule
  ready-MayPull time w n p = record {
    mode = p.mode;
    wave = p.wave;
    active = p.active;
    held = p.held;
  }

  -- In a round that exchanges process data, with force control on in this round and the last,
  -- velocity control as the mode, no waveform of the position, no other mode requested, no
  -- fault, a wish to enable, a force limit that is neither tripped nor over, and no timeout
  -- that has expired: the velocity written for the drive is the one that
  -- compute_force_control_command gives for the net force that the feedback mode selects,
  -- clamped to max_abs_target, with no torque and mode 9; the filtered velocity and the
  -- controllers after the round are those that it gives; and the velocity that its filter goes
  -- on from is not the one of the last round but the one that compute_velocity_csv_command
  -- makes of that in this round.
  pub round_pulls :
      (time : CycleTime) (w : ℕ) (i : InPdo) (n : Node F)
      → Unhindered time.now_ns i n
      → MayPull n
      → let dt_ns = dt_of time.now_ns n in
        let cmd = force_of time.now_ns dt_ns (velocity_of time.now_ns dt_ns i n).filtered_rpm n in
        let m = rt_cycle (good_round time w i) n in
        (m.out.target_velocity ≡ clamp_abs n.params.max_abs_target cmd.target_rpm)
        × (m.out.target_torque ≡ pos 0)
        × (m.out.mode_of_operation ≡ pos 9)
        × (m.rt.current_cmd_vel ≡ cmd.filtered_rpm)
        × (m.rt.pid ≡ cmd.pid)
        × (m.rt.tanh ≡ cmd.tanh)
  unfolding exchange_ok measure schedule control_round selected_force force_params
  round_pulls time w i n h p =
      let now = time.now_ns in
      let dt = dt_of now n in
      let m = ready time w n in
      let f = final_frame now dt i m in
      let s = selected_force (mode_command now dt i (start_frame i (prepare i m))).node in
      let frame =
        final_frame-force now dt i m (ready-Unhindered time w i n h) (ready-MayPull time w n p) in
      let c = command-Pulls now dt i m h.untripped p.mode in
      let round = good_round-control_round time w i n in
      let (_, _, mode) = finish-out now (dt_us_of now n) i s f in
      let (filtered, _, _) = finish-kept now (dt_us_of now n) i s f in
      let (pid, tanh) = finish-controllers now (dt_us_of now n) i s f in
      let nine : f.mode ≡ pos 9 = ap (λ g. g.mode) frame ∙ c.mode in
      let not_eight : eq_ℤ f.mode (pos 8) ≡ false = ground (arith, nine) in
      let (velocity, torque) = good_round-passes time w i n h in
      (
        velocity
            ∙ ap (λ g. clamp_abs n.params.max_abs_target g.out_vel) frame
            ∙ ap (clamp_abs n.params.max_abs_target) c.velocity,
        torque ∙ ap (λ g. g.out_trq) frame ∙ c.torque,
        ap (λ m. m.out.mode_of_operation) round ∙ mode ∙ if_false _ _ not_eight ∙ nine,
        ap (λ m. m.rt.current_cmd_vel) round
            ∙ filtered
            ∙ ap (λ g. g.node.rt.current_cmd_vel) frame
            ∙ c.filtered,
        ap (λ m. m.rt.pid) round ∙ pid ∙ ap (λ g. g.node.rt.pid) frame ∙ c.pid,
        ap (λ m. m.rt.tanh) round ∙ tanh ∙ ap (λ g. g.node.rt.tanh) frame ∙ c.tanh,
      )
