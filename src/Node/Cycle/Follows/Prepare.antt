-- ===== src/Node/Cycle/Follows/Prepare.antt =====
-- The first stages of a round of velocity control: the drive, the fault edge and the mode.
use motor_control.Base.{
  if_true, if_false, ◌≡◌, ◌∙◌, ap, refl, true, false, ◌&&◌, not, ℤ, pos, eq_ℤ, arith,
}
use motor_control.Double.{Double}
use motor_control.Waveform.{is_none, is_position_sine}
use motor_control.Ethercat.Pdo.{InPdo}
use motor_control.Ethercat.Cia402.{is_fault}
use motor_control.Ethercat.Axis.{get_copy}
use motor_control.Node.State.{Node}
use motor_control.Node.Cycle.Mode.{read_drive, on_fault_edge, switch_mode, wave_mode}
use motor_control.Node.Cycle.{prepare}
use motor_control.Node.Cycle.Follows.{Unhindered, steady, idle}

module _ {F : Type 0} ⦃d : Double F⦄ where
  on_fault_edge-healthy :
      (i : InPdo) (n : Node F)
      → is_fault i.status_word ≡ false
      → on_fault_edge i n ≡ record n { rt = record n.rt { was_fault = false } }
  unfolding on_fault_edge
  on_fault_edge-healthy i n h = rw h refl

  switch_mode-same :
      (i : InPdo) (n : Node F)
      → eq_ℤ n.axis.op_mode n.targets.requested_op_mode ≡ true
      → switch_mode i n ≡ n
  unfolding switch_mode
  switch_mode-same i n h = if_true _ _ h

  prepare-steady :
      (now : ℤ) (i : InPdo) (n : Node F) → Unhindered now i n → prepare i n ≡ wave_mode (steady i n)
  unfolding prepare read_drive
  prepare-steady now i n h =
      ap (λ m. wave_mode (switch_mode i m)) (on_fault_edge-healthy i (read_drive i n) h.healthy)
      ∙ ap wave_mode (switch_mode-same i (steady i n) h.same_mode)

  -- A waveform of the position that runs in its mode.
  pub prepare-wave :
      (now : ℤ) (i : InPdo) (n : Node F)
      → Unhindered now i n
      → n.axis.op_mode ≡ pos 8
      → is_position_sine (get_copy n.axis.wf).type ≡ true
      → prepare i n ≡ steady i n
  unfolding wave_mode read_drive
  prepare-wave now i n h m w =
      let eight : eq_ℤ n.axis.op_mode (pos 8) ≡ true = ground (arith, m) in
      prepare-steady now i n h ∙ if_true _ _ w ∙ if_true _ _ eight

  -- No waveform of the position, and none that asks for another mode.
  pub prepare-idle :
      (now : ℤ) (i : InPdo) (n : Node F)
      → Unhindered now i n
      → is_position_sine (get_copy n.axis.wf).type ≡ false
      → (not (is_none (get_copy n.axis.wf).type) && not (eq_ℤ n.axis.op_mode (pos 9))) ≡ false
      → prepare i n ≡ idle i n
  unfolding wave_mode read_drive
  prepare-idle now i n h w same = prepare-steady now i n h ∙ if_false _ _ w ∙ if_false _ _ same
