-- ===== src/Node/Cycle/Follows/Position.antt =====
-- What a round of position control sends.
use mathlib.Core.Path.{subst}
use motor_control.Base.{
  ℕ, ◌≡◌, ◌∙◌, ap, refl, inl, inr, Bool-cases, true, false, ◌&&◌, not, ℤ, pos, eq_ℤ, arith, if_true,
}
use motor_control.Double.{Double}
use motor_control.Waveform.{is_none, is_position_sine}
use motor_control.Ethercat.Pdo.{InPdo}
use motor_control.Ethercat.Axis.{get_copy}
use motor_control.Control.Position.{
  PositionControlState, PositionControlResult, position_goal, compute_position_csv_command,
}
use motor_control.Safety.Output.{clamp_abs}
use motor_control.Node.State.{Node}
use motor_control.Node.Cycle.Timing.{CycleTime, dt_of, dt_us_of, schedule, measure, exchange_ok}
use motor_control.Node.Cycle.Mode.{read_drive}
use motor_control.Node.Cycle.Command.{Frame, start_frame, mode_command, position_command}
use motor_control.Node.Cycle.Force.{limit_check, force_stage, selected_force}
use motor_control.Node.Cycle.Output.{final_frame, finish-out}
use motor_control.Node.Cycle.Safe.{good_round, ready, good_round-control_round}
use motor_control.Node.Cycle.{prepare, control_round, rt_cycle}
use motor_control.Node.Cycle.Follows.{Unhindered, MayMove, position_of, steady, idle, marked}
use motor_control.Node.Cycle.Follows.Prepare.{prepare-wave, prepare-idle}
use motor_control.Node.Cycle.Follows.Stages.{force_stage-quiet}
use motor_control.Node.Cycle.Follows.Round.{good_round-passes, ready-Unhindered, finish-kept}

module _ {F : Type 0} ⦃d : Double F⦄ where
  -- The frame of a position command.
  record Moves (cmd : PositionControlResult × PositionControlState) (f : Frame F) : Type 0 where
    velocity : f.out_vel ≡ cmd.0.target_rpm
    torque : f.out_trq ≡ pos 0
    mode : f.mode ≡ pos 8
    sent_mode : f.node.out.mode_of_operation ≡ pos 9
    target : f.node.targets.target_pos ≡ cmd.0.target_pos
    state : f.node.rt.pos_state ≡ cmd.1

  mode_command-position :
      (now dt_ns : ℤ) (i : InPdo) (f : Frame F)
      → f.mode ≡ pos 8
      → mode_command now dt_ns i f ≡ position_command now i f
  unfolding mode_command
  mode_command-position now dt_ns i f m =
      let eight : eq_ℤ f.mode (pos 8) ≡ true = ground (arith, m) in if_true _ _ eight

  -- Without a waveform of the position, the start of the last one is not read.
  position_of-idle :
      (now : ℤ) (i : InPdo) (n : Node F)
      → is_position_sine (get_copy n.axis.wf).type ≡ false
      → position_of now i (idle i n) ≡ position_of now i n
  unfolding compute_position_csv_command position_goal read_drive
  position_of-idle now i n w = rw w refl

  -- The frame of a node that the first stages leave in mode 8.
  position_frame :
      (now dt_ns : ℤ) (i : InPdo) (n m : Node F)
      → prepare i n ≡ m
      → m.axis.op_mode ≡ pos 8
      → (limit_check now m).over_limit ≡ false
      → m.limit.tripped ≡ false
      → m.force.active ≡ false
      → final_frame now dt_ns i n ≡ marked (position_command now i (start_frame i m))
  unfolding start_frame position_command limit_check
  position_frame now dt_ns i n m p e o t a =
      ap (λ m. force_stage now dt_ns i (mode_command now dt_ns i (start_frame i m))) p
      ∙ ap (force_stage now dt_ns i) (mode_command-position now dt_ns i (start_frame i m) e)
      ∙ force_stage-quiet now dt_ns i (position_command now i (start_frame i m)) o t a

  position_command-Moves :
      (now : ℤ) (i : InPdo) (m : Node F)
      → m.axis.op_mode ≡ pos 8
      → Moves (position_of now i m) (marked (position_command now i (start_frame i m)))
  unfolding start_frame position_command
  position_command-Moves now i m e = record {
    velocity = refl;
    torque = refl;
    mode = e;
    sent_mode = refl;
    target = refl;
    state = refl;
  }

  frame-Moves :
      (now dt_ns : ℤ) (i : InPdo) (n m : Node F)
      → prepare i n ≡ m
      → m.axis.op_mode ≡ pos 8
      → (limit_check now m).over_limit ≡ false
      → m.limit.tripped ≡ false
      → m.force.active ≡ false
      → position_of now i m ≡ position_of now i n
      → Moves (position_of now i n) (final_frame now dt_ns i n)
  frame-Moves now dt_ns i n m p e o t a same = rw (position_frame now dt_ns i n m p e o t a) (
      subst (λ c. Moves c (marked (position_command now i (start_frame i m)))) same
        (position_command-Moves now i m e))

  final_frame-Moves :
      (now dt_ns : ℤ) (i : InPdo) (n : Node F)
      → Unhindered now i n
      → MayMove n
      → Moves (position_of now i n) (final_frame now dt_ns i n)
  unfolding read_drive limit_check
  final_frame-Moves now dt_ns i n h m =
      elim (Bool-cases (is_position_sine (get_copy n.axis.wf).type)) [
        | inl wave ↦
            frame-Moves now dt_ns i n (steady i n) (prepare-wave now i n h m.mode wave) m.mode
              h.under h.untripped m.no_force refl
        | inr none ↦
            let same : (not (is_none (get_copy n.axis.wf).type)
                  && not (eq_ℤ n.axis.op_mode (pos 9)))
                ≡ false =
              ground (arith, m.wave, none) in
            frame-Moves now dt_ns i n (idle i n) (prepare-idle now i n h none same) m.mode h.under
              h.untripped m.no_force (position_of-idle now i n none)
      ]

  ready-MayMove : (time : CycleTime) (w : ℕ) (n : Node F) → MayMove n → MayMove (ready time w n)
  unfolding exchange_ok measure schedule
  ready-MayMove time w n m = record { mode = m.mode; wave = m.wave; no_force = m.no_force }

  -- In a round that exchanges process data, with position control as the mode and a waveform of
  -- the position or none, and otherwise the conditions of the round of velocity control: the
  -- velocity written for the drive is the one that compute_position_csv_command gives for the
  -- state before the round, clamped to max_abs_target, with no torque and mode 9; and the
  -- target and the state of the waveform after the round are those that it gives.
  pub round_moves :
      (time : CycleTime) (w : ℕ) (i : InPdo) (n : Node F)
      → Unhindered time.now_ns i n
      → MayMove n
      → let (cmd, state) = position_of time.now_ns i n in
        let m = rt_cycle (good_round time w i) n in
        (m.out.target_velocity ≡ clamp_abs n.params.max_abs_target cmd.target_rpm)
        × (m.out.target_torque ≡ pos 0)
        × (m.out.mode_of_operation ≡ pos 9)
        × (m.targets.target_pos ≡ cmd.target_pos)
        × (m.rt.pos_state ≡ state)
  unfolding exchange_ok measure schedule control_round
  round_moves time w i n h p =
      let now = time.now_ns in
      let dt = dt_of now n in
      let m = ready time w n in
      let f = final_frame now dt i m in
      let s = selected_force (mode_command now dt i (start_frame i (prepare i m))).node in
      let c =
        final_frame-Moves now dt i m (ready-Unhindered time w i n h) (ready-MayMove time w n p) in
      let round = good_round-control_round time w i n in
      let (_, _, mode) = finish-out now (dt_us_of now n) i s f in
      let (_, state, target) = finish-kept now (dt_us_of now n) i s f in
      let eight : eq_ℤ f.mode (pos 8) ≡ true = ground (arith, c.mode) in
      let (velocity, torque) = good_round-passes time w i n h in
      (
        velocity ∙ ap (clamp_abs n.params.max_abs_target) c.velocity,
        torque ∙ c.torque,
        ap (λ m. m.out.mode_of_operation) round ∙ mode ∙ if_true _ _ eight ∙ c.sent_mode,
        ap (λ m. m.targets.target_pos) round ∙ target ∙ c.target,
        ap (λ m. m.rt.pos_state) round ∙ state ∙ c.state,
      )
