-- ===== src/Node/ForceCommands/Stop.antt =====
-- cpp/src/epos_control/src/epos_motor_node.cpp: what the message STOP ends.
use motor_control.Base.{◌≡◌, ◌≤◌, refl, ap, false, ℤ, pos}
use motor_control.Double.{Double}
use motor_control.Waveform.{WaveformType}
use motor_control.Ethercat.Pdo.{InPdo}
use motor_control.Ethercat.Axis.{get_copy}
use motor_control.Ethercat.Axis.Handover.{stop_keeps}
use motor_control.Control.Force.{ForceFeedbackSelection}
use motor_control.Commands.Reader.{TextReader}
use motor_control.Commands.Force.{ForceCtrlCmd, force_command_from_msg}
use motor_control.Node.State.{Node}
use motor_control.Node.Cycle.Command.{Frame}
use motor_control.Node.Cycle.Force.{force_control_stage}
use motor_control.Node.ForceCommands.{
  force_stop, force_switch, apply_force_command, handle_force_ctrl_msg,
}

module _ {F : Type 0} where
  -- The message with the action STOP.
  abbrev pub stop_msg : ForceCtrlCmd F → ForceCtrlCmd F
  stop_msg msg = record msg { action = 2 }

module _ {F : Type 0} ⦃d : Double F⦄ (reader : TextReader F) where
  -- After the message STOP, with an index of the force waveform's buffers of at most 1: the
  -- target speed is 0 and the force waveform is off, and the force stage of any frame over that
  -- node leaves the velocity, the mode and the PID controller as they are and ends force
  -- control.
  pub stop_ends :
      (now : ℤ) (msg : ForceCtrlCmd F) (n : Node F) (round_now dt_ns : ℤ)
      (s : ForceFeedbackSelection) (i : InPdo) (f : Frame F)
      → n.axis.force_wf.active_idx ≤ 1
      → let m = handle_force_ctrl_msg reader now (stop_msg msg) n in
        let g = force_control_stage round_now dt_ns s i (record f { node = m }) in
        (m.targets.target ≡ pos 0)
        × ((get_copy m.axis.force_wf).type ≡ WaveformType.none)
        × (g.out_vel ≡ f.out_vel)
        × (g.mode ≡ f.mode)
        × (g.node.rt.pid ≡ n.rt.pid)
        × (g.node.rt.was_force_ctrl ≡ false)
  unfolding handle_force_ctrl_msg apply_force_command force_switch force_stop force_command_from_msg
      force_control_stage
  stop_ends now msg n round_now dt_ns s i f h =
      (refl, ap (λ w. w.type) (stop_keeps n.axis.force_wf h), refl, refl, refl, refl)
