-- ===== src/Node/Cycle/Output.antt =====
-- What a round writes for the drive.
use motor_control.Base.{◌≡◌, refl, ◌∙◌, ap, Bool, ℤ, pos, eq_ℤ, arith, if◌then◌else◌}
use motor_control.Double.{Double}
use motor_control.Ethercat.Pdo.{InPdo}
use motor_control.Safety.Output.{OutputSafetyInput, apply_output_safety}
use motor_control.Control.Force.{ForceFeedbackSelection}
use motor_control.Node.State.{Node}
use motor_control.Node.Cycle.Mode.{enable_wanted}
use motor_control.Node.Cycle.Command.{Frame, start_frame, mode_command}
use motor_control.Node.Cycle.Force.{limit_stage, force_stage, selected_force, limit_check}
use motor_control.Node.Cycle.Finish.{
  finish, control_stage, safety_input, safety_stage, write_pdo, log_stage,
}
use motor_control.Node.Cycle.Kept.{
  Kept, Kept-trans, prepare-Kept, mode_command-Kept, force_control_stage-Kept, limit_stage-Kept,
  limit_check-Kept,
}
use motor_control.Node.Cycle.{prepare, control_round}

module _ {F : Type 0} ⦃d : Double F⦄ where
  -- The output data of a round are what the guard makes of the frame.
  pub finish-out :
      (now dt_us : ℤ) (i : InPdo) (s : ForceFeedbackSelection) (f : Frame F)
      → let safe = apply_output_safety f.out_vel f.out_trq (safety_input now i f.node) in
        let out = (finish now dt_us i s f).out in
        (out.target_velocity ≡ safe.target_velocity)
        × (out.target_torque ≡ safe.target_torque)
        × (out.mode_of_operation
            ≡ (if eq_ℤ f.mode (pos 8) then f.node.out.mode_of_operation else f.mode))
  unfolding finish control_stage safety_stage safety_input enable_wanted write_pdo log_stage
  finish-out now dt_us i s f = (refl, refl, refl)

  -- The frame that the end of a round is given.
  abbrev pub final_frame : ℤ → ℤ → InPdo → Node F → Frame F
  final_frame now dt_ns i n =
      force_stage now dt_ns i (mode_command now dt_ns i (start_frame i (prepare i n)))

  -- Whether the limit is tripped after a round's check.
  abbrev pub trip_after : ℤ → Node F → Bool
  trip_after now n =
      let check = limit_check now n in
      if check.has_valid_data then check.over_limit else n.limit.tripped

  limit_stage-tripped :
      (now : ℤ) (n : Node F) → (limit_stage now n).limit.tripped ≡ trip_after now n
  unfolding limit_stage
  limit_stage-tripped now n = ground arith

  safety_input-Kept :
      (now : ℤ) (i : InPdo) (n m : Node F)
      → Kept n (record m { limit = n.limit })
      → safety_input now i m
        ≡ record (safety_input now i n) { force_limit_tripped = m.limit.tripped }
  unfolding safety_input enable_wanted
  safety_input-Kept now i n m k = cc (k.params, k.last_cmd_ns, k.last_heartbeat_ns, k.enable_req)

  trip_after-Kept : (now : ℤ) (n m : Node F) → Kept n m → trip_after now m ≡ trip_after now n
  trip_after-Kept now n m k = cc (limit_check-Kept now n m k, k.limit)

  commanded-Kept :
      (now dt_ns : ℤ) (i : InPdo) (n : Node F)
      → Kept n (mode_command now dt_ns i (start_frame i (prepare i n))).node
  unfolding start_frame
  commanded-Kept now dt_ns i n =
      Kept-trans (prepare-Kept i n) (mode_command-Kept now dt_ns i (start_frame i (prepare i n)))

  -- The force stage keeps what the guard reads, but for the limit.
  force_stage-Kept :
      (now dt_ns : ℤ) (i : InPdo) (f : Frame F)
      → let m = (force_stage now dt_ns i f).node in
        Kept f.node (record m { limit = f.node.limit }) × (m.limit.tripped ≡ trip_after now f.node)
  unfolding force_stage
  force_stage-Kept now dt_ns i f =
      let l = limit_stage-Kept now f.node in
      let k =
        force_control_stage-Kept now dt_ns (selected_force f.node) i
          (record f { node = limit_stage now f.node }) in
      (
        record {
          params = k.params ∙ l.params;
          sensors = k.sensors ∙ l.sensors;
          limit = refl;
          last_cmd_ns = k.last_cmd_ns ∙ l.last_cmd_ns;
          last_heartbeat_ns = k.last_heartbeat_ns ∙ l.last_heartbeat_ns;
          enable_req = k.enable_req ∙ l.enable_req;
          fault_reset_req = k.fault_reset_req ∙ l.fault_reset_req;
          hold = k.hold ∙ l.hold;
          logger = k.logger ∙ l.logger;
        },
        ap (λ x. x.tripped) k.limit ∙ limit_stage-tripped now f.node,
      )

  -- The node at the end of a round, but for the limit, keeps what the guard reads.
  pub final-Kept :
      (now dt_ns : ℤ) (i : InPdo) (n : Node F)
      → let m = (final_frame now dt_ns i n).node in
        Kept n (record m { limit = n.limit }) × (m.limit.tripped ≡ trip_after now n)
  final-Kept now dt_ns i n =
      let f = mode_command now dt_ns i (start_frame i (prepare i n)) in
      let k = commanded-Kept now dt_ns i n in
      let (g, tripped) = force_stage-Kept now dt_ns i f in
      (
        record {
          params = g.params ∙ k.params;
          sensors = g.sensors ∙ k.sensors;
          limit = refl;
          last_cmd_ns = g.last_cmd_ns ∙ k.last_cmd_ns;
          last_heartbeat_ns = g.last_heartbeat_ns ∙ k.last_heartbeat_ns;
          enable_req = g.enable_req ∙ k.enable_req;
          fault_reset_req = g.fault_reset_req ∙ k.fault_reset_req;
          hold = g.hold ∙ k.hold;
          logger = g.logger ∙ k.logger;
        },
        tripped ∙ trip_after-Kept now n f.node k,
      )

  -- What the guard reads at the end of a round, from the state before it.
  unfoldable pub guard_input : ℤ → InPdo → Node F → OutputSafetyInput
  guard_input now i n = record (safety_input now i n) { force_limit_tripped = trip_after now n }

  final-guard_input :
      (now dt_ns : ℤ) (i : InPdo) (n : Node F)
      → safety_input now i (final_frame now dt_ns i n).node ≡ guard_input now i n
  unfolding guard_input
  final-guard_input now dt_ns i n =
      let m = (final_frame now dt_ns i n).node in
      let (k, tripped) = final-Kept now dt_ns i n in
      safety_input-Kept now i n m k
      ∙ ap (λ x. record (safety_input now i n) { force_limit_tripped = x }) tripped

  -- The velocity and the torque of a round are those of the guard.
  pub round-out :
      (now dt_ns dt_us : ℤ) (i : InPdo) (n : Node F)
      → let f = final_frame now dt_ns i n in
        let safe = apply_output_safety f.out_vel f.out_trq (guard_input now i n) in
        let out = (control_round now dt_ns dt_us i n).out in
        (out.target_velocity ≡ safe.target_velocity) × (out.target_torque ≡ safe.target_torque)
  unfolding control_round
  round-out now dt_ns dt_us i n =
      let f = final_frame now dt_ns i n in
      let s = selected_force (mode_command now dt_ns i (start_frame i (prepare i n))).node in
      let g = final-guard_input now dt_ns i n in
      let (v, t, _) = finish-out now dt_us i s f in
      (
        v ∙ ap (λ x. (apply_output_safety f.out_vel f.out_trq x).target_velocity) g,
        t ∙ ap (λ x. (apply_output_safety f.out_vel f.out_trq x).target_torque) g,
      )
