-- ===== src/Node/Cycle/Word/Reset.antt =====
-- cpp/src/epos_control/src/epos_motor_node.cpp: a request for a fault reset over rounds of the loop.
use motor_control.Base.{
  ℕ, ◌+◌, ◌≡◌, refl, ap, ◌∙◌, Bool, true, false, List, [], ◌∷◌, ◌++◌, All, length, replicate, arith,
}
use motor_control.Double.{Double}
use motor_control.Ethercat.Pdo.{InPdo}
use motor_control.Ethercat.Cia402.{is_fault, control_shutdown, control_fault_reset}
use motor_control.Node.State.{Node}
use motor_control.Node.Cycle.Timing.{CycleTime}
use motor_control.Node.Cycle.Finish.{control_of}
use motor_control.Node.Cycle.Finish.ResetHold.{fault_words, reset_words}
use motor_control.Node.Cycle.Safe.{good_round}
use motor_control.Node.Cycle.Word.Rounds.{round-Decided}
use motor_control.Node.Cycle.{rt_cycle}

-- What the rounds get: their clocks, working counters and process data.
abbrev pub Exchange : Type 0
Exchange = CycleTime × ℕ × InPdo

abbrev pub ShowsFault : Bool → Exchange → Type 0
ShowsFault fault e = is_fault e.2.status_word ≡ fault

module _ {F : Type 0} ⦃d : Double F⦄ where
  abbrev pub after : Exchange → Node F → Node F
  after (time, w, i) n = rt_cycle (good_round time w i) n

  abbrev pub after_all : List Exchange → Node F → Node F
  after_all [] n = n
  after_all (e ∷ es) n = after_all es (after e n)

  -- The control words that the rounds write.
  abbrev pub sent_words : List Exchange → Node F → List ℕ
  sent_words [] n = []
  sent_words (e ∷ es) n = (after e n).out.control_word ∷ sent_words es (after e n)

  sent-fault_words :
      (es : List Exchange) (n : Node F)
      → All (ShowsFault true) es
      → sent_words es n
        ≡ fault_words (length es) 0 true n.targets.fault_reset_req n.rt.fault_reset_hold
  unfolding fault_words control_of
  sent-fault_words [] n h = refl
  sent-fault_words (e ∷ es) n h =
      let done = round-Decided e.0 e.1 e.2 n in
      cc (done.word, done.request, done.hold, h.0, sent-fault_words es (after e n) h.1)

  -- A fault that persists over at least twenty rounds with a request for a reset is answered by
  -- exactly twenty rounds of the word fault reset and then by shutdown, whatever hold was left
  -- before.
  pub reset_rounds :
      (es : List Exchange) (n : Node F) (k : ℕ)
      → All (ShowsFault true) es
      → length es ≡ 20 + k
      → n.targets.fault_reset_req ≡ true
      → sent_words es n ≡ replicate 20 control_fault_reset ++ replicate k control_shutdown
  reset_rounds es n k h long request =
      sent-fault_words es n h
      ∙ ap (λ x. fault_words x 0 true n.targets.fault_reset_req n.rt.fault_reset_hold) long
      ∙ ap (λ b. fault_words (20 + k) 0 true b n.rt.fault_reset_hold) request
      ∙ reset_words k 0 n.rt.fault_reset_hold true

  request_kept :
      (es : List Exchange) (n : Node F)
      → All (ShowsFault false) es
      → n.targets.fault_reset_req ≡ true
      → (after_all es n).targets.fault_reset_req ≡ true
  unfolding control_of
  request_kept [] n h request = request
  request_kept (e ∷ es) n h request =
      let done = round-Decided e.0 e.1 e.2 n in
      request_kept es (after e n) h.1 (ground (arith, done.request, h.0, request))

  -- A request for a fault reset that comes while there is no fault is kept through any number
  -- of rounds without one, and the first round with a fault is answered by fault reset.
  pub request_waits :
      (es : List Exchange) (e : Exchange) (n : Node F)
      → All (ShowsFault false) es
      → ShowsFault true e
      → n.targets.fault_reset_req ≡ true
      → (after e (after_all es n)).out.control_word ≡ control_fault_reset
  unfolding control_of
  request_waits es e n h fault request =
      let done = round-Decided e.0 e.1 e.2 (after_all es n) in
      ground (arith, done.word, fault, request_kept es n h request)
