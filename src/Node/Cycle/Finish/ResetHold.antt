-- ===== src/Node/Cycle/Finish/ResetHold.antt =====
-- cpp/src/epos_control/src/epos_motor_node.cpp: the fault reset over several rounds.
use motor_control.Base.{
  ℕ, zero, suc, ◌+◌, ◌≡◌, refl, ap, Bool, true, false, List, [], ◌∷◌, ◌++◌, replicate, arith,
}
use motor_control.Ethercat.Cia402.{control_shutdown, control_fault_reset}
use motor_control.Node.Cycle.Finish.{control_of}

-- The control words of rounds in which the fault persists and nobody asks again.
unfoldable pub fault_words : ℕ → ℕ → Bool → Bool → ℕ → List ℕ
fault_words zero status enable request hold = []
fault_words (suc rounds) status enable request hold =
    let c = control_of true status enable request hold in
    c.word ∷ fault_words rounds status enable c.request c.hold

control_of-held :
    (hold status : ℕ) (enable : Bool)
    → control_of true status enable false (suc hold)
      ≡ record { word = control_fault_reset; hold = hold; request = false }
unfolding control_of
control_of-held hold status enable = ground arith

control_of-released :
    (status : ℕ) (enable : Bool)
    → control_of true status enable false 0
      ≡ record { word = control_shutdown; hold = 0; request = false }
unfolding control_of
control_of-released status enable = refl

held_words :
    (hold rounds status : ℕ) (enable : Bool)
    → fault_words (hold + rounds) status enable false hold
      ≡ replicate hold control_fault_reset ++ replicate rounds control_shutdown
unfolding fault_words
held_words zero zero status enable = refl
held_words zero (suc rounds) status enable =
    let next : zero + suc rounds ≡ suc (zero + rounds) = omega arith in
    rw (next, control_of-released status enable)
      (ap (λ ws. control_shutdown ∷ ws) (held_words zero rounds status enable))
held_words (suc hold) rounds status enable =
    let next : suc hold + rounds ≡ suc (hold + rounds) = omega arith in
    rw (next, control_of-held hold status enable)
      (ap (λ ws. control_fault_reset ∷ ws) (held_words hold rounds status enable))

-- While a fault persists, one request for a fault reset is answered by exactly twenty rounds of
-- the word fault reset and then by shutdown, whatever hold was left before.
pub reset_words :
    (rounds status hold : ℕ) (enable : Bool)
    → fault_words (20 + rounds) status enable true hold
      ≡ replicate 20 control_fault_reset ++ replicate rounds control_shutdown
unfolding fault_words control_of
reset_words rounds status hold enable =
    let next : 20 + rounds ≡ suc (19 + rounds) = omega arith in
    rw next (ap (λ ws. control_fault_reset ∷ ws) (held_words 19 rounds status enable))
