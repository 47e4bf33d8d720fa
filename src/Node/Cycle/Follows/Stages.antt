-- ===== src/Node/Cycle/Follows/Stages.antt =====
-- The command of a round of velocity control, past the force limit and the force controller.
use motor_control.Base.{
  if_true, if_false, if_same, ◌≡◌, ◌∙◌, ap, refl, true, false, ◌&&◌, not, ℤ, pos, eq_ℤ, arith,
}
use motor_control.Double.{Double}
use motor_control.Ethercat.Pdo.{InPdo}
use motor_control.Control.Force.{ForceFeedbackSelection}
use motor_control.Node.State.{Node}
use motor_control.Waveform.{is_none, is_position_sine}
use motor_control.Ethercat.Axis.{get_copy}
use motor_control.Node.Cycle.Mode.{read_drive}
use motor_control.Node.Cycle.Command.{Frame, start_frame, mode_command, velocity_command}
use motor_control.Node.Cycle.Force.{
  limit_check, limit_stage, force_control_stage, force_stage, selected_force,
}
use motor_control.Node.Cycle.Output.{final_frame}
use motor_control.Node.Cycle.Follows.{Unhindered, MayRun, marked, idle}
use motor_control.Node.Cycle.Follows.Prepare.{prepare-idle}

module _ {F : Type 0} ⦃d : Double F⦄ where
  mode_command-velocity :
      (now dt_ns : ℤ) (i : InPdo) (f : Frame F)
      → f.mode ≡ pos 9
      → mode_command now dt_ns i f ≡ velocity_command now dt_ns i f
  unfolding mode_command
  mode_command-velocity now dt_ns i f m =
      let not_eight : eq_ℤ f.mode (pos 8) ≡ false = ground (arith, m) in
      let nine : eq_ℤ f.mode (pos 9) ≡ true = ground (arith, m) in
      if_false _ _ not_eight ∙ if_true _ _ nine

  pub limit_stage-quiet :
      (now : ℤ) (n : Node F)
      → (limit_check now n).over_limit ≡ false
      → n.limit.tripped ≡ false
      → limit_stage now n ≡ n
  unfolding limit_stage
  limit_stage-quiet now n o t =
      let no_trip : ((limit_check now n).over_limit && not n.limit.tripped) ≡ false =
        ground (arith, o) in
      let no_release : (not (limit_check now n).over_limit && n.limit.tripped) ≡ false =
        ground (arith, t) in
      if_same _ _ _ refl (if_false _ _ no_trip ∙ if_false _ _ no_release)

  force_control_stage-off :
      (now dt_ns : ℤ) (s : ForceFeedbackSelection) (i : InPdo) (f : Frame F)
      → f.node.force.active ≡ false
      → force_control_stage now dt_ns s i f ≡ record f {
        node = record f.node { rt = record f.node.rt { was_force_ctrl = f.node.force.active } };
      }
  unfolding force_control_stage
  force_control_stage-off now dt_ns s i f h =
      let off : (f.node.force.active && not f.node.rt.was_force_ctrl) ≡ false = ground (arith, h) in
      if_false _ _ h
      ∙ ap
          (λ (g : Frame F).
            let marked : Frame F = record g {
              node = record g.node {
                rt = record g.node.rt { was_force_ctrl = f.node.force.active };
              };
            } in
            marked)
          (if_false _ _ off)

  -- What the limit and the force controller leave.
  pub force_stage-quiet :
      (now dt_ns : ℤ) (i : InPdo) (f : Frame F)
      → (limit_check now f.node).over_limit ≡ false
      → f.node.limit.tripped ≡ false
      → f.node.force.active ≡ false
      → force_stage now dt_ns i f ≡ marked f
  unfolding force_stage
  force_stage-quiet now dt_ns i f o t a =
      ap (λ m. force_control_stage now dt_ns (selected_force f.node) i (record f { node = m }))
        (limit_stage-quiet now f.node o t)
      ∙ force_control_stage-off now dt_ns (selected_force f.node) i f a

  -- The command of velocity control, up to the force stage.
  pub velocity_stage :
      (now dt_ns : ℤ) (i : InPdo) (n : Node F)
      → Unhindered now i n
      → n.axis.op_mode ≡ pos 9
      → is_position_sine (get_copy n.axis.wf).type ≡ false
      → final_frame now dt_ns i n
        ≡ force_stage now dt_ns i (velocity_command now dt_ns i (start_frame i (idle i n)))
  unfolding start_frame read_drive
  velocity_stage now dt_ns i n h m w =
      let nine : (not (is_none (get_copy n.axis.wf).type) && not (eq_ℤ n.axis.op_mode (pos 9)))
          ≡ false =
        ground (arith, m) in
      ap (λ m. force_stage now dt_ns i (mode_command now dt_ns i (start_frame i m)))
        (prepare-idle now i n h w nine)
      ∙ ap (force_stage now dt_ns i)
          (mode_command-velocity now dt_ns i (start_frame i (idle i n)) m)

  pub final_frame-velocity :
      (now dt_ns : ℤ) (i : InPdo) (n : Node F)
      → Unhindered now i n
      → MayRun n
      → final_frame now dt_ns i n ≡ marked (velocity_command now dt_ns i (start_frame i (idle i n)))
  unfolding start_frame velocity_command limit_check read_drive
  final_frame-velocity now dt_ns i n h r =
      velocity_stage now dt_ns i n h r.mode r.wave
      ∙ force_stage-quiet now dt_ns i (velocity_command now dt_ns i (start_frame i (idle i n)))
          h.under h.untripped r.no_force
