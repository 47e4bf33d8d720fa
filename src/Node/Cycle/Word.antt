-- ===== src/Node/Cycle/Word.antt =====
-- cpp/src/epos_control/src/epos_motor_node.cpp: the control word that a round sends.
pub mod Rounds
pub mod Reset
pub mod Enable
use motor_control.Base.{ℕ, ◌≡◌, ◌⊎◌, Bool, true, false, ℤ, arith}
use mathlib.Core.Path.{subst}
use motor_control.Double.{Double}
use motor_control.Ethercat.Pdo.{InPdo}
use motor_control.Ethercat.Cia402.{
  is_fault, next_control_word, control_shutdown, control_fault_reset,
}
use motor_control.Control.Force.{ForceFeedbackSelection}
use motor_control.Node.State.{Node}
use motor_control.Node.Cycle.Timing.{CycleTime, dt_of, dt_us_of, schedule, measure, exchange_ok}
use motor_control.Node.Cycle.Mode.{enable_wanted}
use motor_control.Node.Cycle.Command.{Frame, start_frame, mode_command}
use motor_control.Node.Cycle.Force.{selected_force}
use motor_control.Node.Cycle.Finish.{
  control_of, control_stage, safety_stage, write_pdo, log_stage, finish,
}
use motor_control.Node.Cycle.Output.{final_frame, final-Kept}
use motor_control.Node.Cycle.Safe.{good_round, ready, good_round-control_round}
use motor_control.Node.Cycle.{prepare, control_round, rt_cycle}

-- The word that answers a status: a fault is answered by fault reset or by shutdown, any other state by
-- next_control_word.
abbrev pub Answers : ℕ → Bool → ℕ → Type 0
Answers status enable word =
    ((is_fault status ≡ true) × ((word ≡ control_shutdown) ⊎ (word ≡ control_fault_reset)))
    ⊎ ((is_fault status ≡ false) × (word ≡ next_control_word status enable))

control_of-Answers :
    (status hold : ℕ) (enable request : Bool)
    → Answers status enable (control_of (is_fault status) status enable request hold).word
unfolding control_of
control_of-Answers status hold enable request = ground arith

module _ {F : Type 0} ⦃d : Double F⦄ where
  finish-Answers :
      (now dt_us : ℤ) (i : InPdo) (s : ForceFeedbackSelection) (f : Frame F)
      → Answers i.status_word (enable_wanted f.node) (finish now dt_us i s f).out.control_word
  unfolding finish control_stage safety_stage write_pdo log_stage
  finish-Answers now dt_us i s f =
      control_of-Answers i.status_word f.node.rt.fault_reset_hold (enable_wanted f.node)
        f.node.targets.fault_reset_req

  final-enable_wanted :
      (now dt_ns : ℤ) (i : InPdo) (n : Node F)
      → enable_wanted (final_frame now dt_ns i n).node ≡ enable_wanted n
  unfolding enable_wanted
  final-enable_wanted now dt_ns i n =
      let (k, _) = final-Kept now dt_ns i n in cc (k.params, k.enable_req)

  round-Answers :
      (now dt_ns dt_us : ℤ) (i : InPdo) (n : Node F)
      → Answers i.status_word (enable_wanted n) (control_round now dt_ns dt_us i n).out.control_word
  unfolding control_round
  round-Answers now dt_ns dt_us i n =
      let s = selected_force (mode_command now dt_ns i (start_frame i (prepare i n))).node in
      subst (λ b. Answers i.status_word b (control_round now dt_ns dt_us i n).out.control_word)
        (final-enable_wanted now dt_ns i n)
        (finish-Answers now dt_us i s (final_frame now dt_ns i n))

  -- In a round that exchanges process data, a fault is answered by the control word shutdown or
  -- fault reset, and any other status by next_control_word with the wish to enable of the state
  -- before the round.
  pub round_word :
      (time : CycleTime) (w : ℕ) (i : InPdo) (n : Node F)
      → Answers i.status_word (enable_wanted n) (rt_cycle (good_round time w i) n).out.control_word
  unfolding enable_wanted exchange_ok measure schedule
  round_word time w i n =
      let c = good_round-control_round time w i n in
      rw c (
        round-Answers time.now_ns (dt_of time.now_ns n) (dt_us_of time.now_ns n) i (ready time w n))
