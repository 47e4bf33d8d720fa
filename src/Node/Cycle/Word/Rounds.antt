-- ===== src/Node/Cycle/Word/Rounds.antt =====
-- cpp/src/epos_control/src/epos_motor_node.cpp: the control word over several rounds of the loop, each
-- of which exchanges process data.
use motor_control.Base.{ℕ, ◌≡◌, ◌∙◌, refl, ap, ℤ}
use motor_control.Double.{Double}
use motor_control.Ethercat.Pdo.{InPdo}
use motor_control.Ethercat.Cia402.{is_fault}
use motor_control.Control.Force.{ForceFeedbackSelection}
use motor_control.Node.State.{Node}
use motor_control.Node.Cycle.Timing.{CycleTime, dt_of, dt_us_of, schedule, measure, exchange_ok}
use motor_control.Node.Cycle.Mode.{enable_wanted}
use motor_control.Node.Cycle.Command.{Frame, start_frame, mode_command}
use motor_control.Node.Cycle.Force.{selected_force}
use motor_control.Node.Cycle.Finish.{
  Control, control_of, control_stage, safety_stage, write_pdo, log_stage, finish,
}
use motor_control.Node.Cycle.Output.{final_frame, final-Kept}
use motor_control.Node.Cycle.Safe.{good_round, ready, good_round-control_round}
use motor_control.Node.Cycle.{prepare, control_round, rt_cycle}

module _ {F : Type 0} where
  -- The decision on the control word for a status, in the state before the round.
  abbrev pub decision : ℕ → Node F → Control
  decision status n =
      control_of (is_fault status) status (enable_wanted n) n.targets.fault_reset_req
        n.rt.fault_reset_hold

  -- A round carried out a decision and kept the wish to enable.
  pub record Decided (c : Control) (n m : Node F) : Type 0 where
    pub word : m.out.control_word ≡ c.word
    pub request : m.targets.fault_reset_req ≡ c.request
    pub hold : m.rt.fault_reset_hold ≡ c.hold
    pub wish : enable_wanted m ≡ enable_wanted n

module _ {F : Type 0} ⦃d : Double F⦄ where
  finish-Decided :
      (now dt_us : ℤ) (i : InPdo) (s : ForceFeedbackSelection) (f : Frame F)
      → Decided (decision i.status_word f.node) f.node (finish now dt_us i s f)
  unfolding finish control_stage safety_stage write_pdo log_stage enable_wanted
  finish-Decided now dt_us i s f = record { word = refl; request = refl; hold = refl; wish = refl }

  -- A round carries out the decision that its state before and the status word call for.
  pub round-Decided :
      (time : CycleTime) (w : ℕ) (i : InPdo) (n : Node F)
      → Decided (decision i.status_word n) n (rt_cycle (good_round time w i) n)
  unfolding enable_wanted exchange_ok measure schedule control_round
  round-Decided time w i n =
      let m = ready time w n in
      let s =
        selected_force
          (mode_command time.now_ns (dt_of time.now_ns n) i (start_frame i (prepare i m))).node in
      let f = final_frame time.now_ns (dt_of time.now_ns n) i m in
      let (k, _) = final-Kept time.now_ns (dt_of time.now_ns n) i m in
      let done = finish-Decided time.now_ns (dt_us_of time.now_ns n) i s f in
      let wish : enable_wanted f.node ≡ enable_wanted n = cc (k.params, k.enable_req) in
      let same : decision i.status_word f.node ≡ decision i.status_word n =
        cc (wish, k.fault_reset_req, k.hold) in
      rw (good_round-control_round time w i n) (record {
        word = done.word ∙ ap (λ c. c.word) same;
        request = done.request ∙ ap (λ c. c.request) same;
        hold = done.hold ∙ ap (λ c. c.hold) same;
        wish = done.wish ∙ wish;
      })
