-- ===== src/Node/Cycle/Failures.antt =====
-- cpp/src/epos_control/src/epos_motor_node.cpp: several rounds in a row whose exchange fails.
use motor_control.Base.{
  ℕ, ◌≡◌, ◌∙◌, refl, ap, ◌<◌, ◌+◌, ◌^◌, pos, ◌≤ℤ◌, ◌+ℤ◌, to_i32, to_i32_id, arith, List, [], ◌∷◌,
  All, length,
}
use motor_control.Double.{Double}
use motor_control.Node.State.{Node}
use motor_control.Node.Cycle.{CycleInput, rt_cycle}
use motor_control.Node.Cycle.Timing.{measure, schedule}
use motor_control.Node.Cycle.Timing.{exchange_failed}
use motor_control.Node.Cycle.Safe.{failed_round}

next_count : (c : ℕ) → c + 1 < 2 ^ 31 → to_i32 (pos c +ℤ pos 1) ≡ pos (c + 1)
unfolding ◌+ℤ◌
next_count c h = ground (arith, to_i32_id (pos (c + 1)))

module _ {F : Type 0} ⦃d : Double F⦄ where
  abbrev pub rounds : List CycleInput → Node F → Node F
  rounds [] n = n
  rounds (input ∷ inputs) n = rounds inputs (rt_cycle input n)

  failed_params_step :
      (input : CycleInput) (n : Node F) → input.wkc ≤ℤ pos 0 → (rt_cycle input n).params ≡ n.params
  unfolding rt_cycle exchange_failed measure schedule
  failed_params_step input n h = ground arith

  -- The parameters stay what they were.
  pub failed_params :
      (inputs : List CycleInput) (n : Node F)
      → All (λ input. input.wkc ≤ℤ pos 0) inputs
      → (rounds inputs n).params ≡ n.params
  failed_params [] n h = refl
  failed_params (input ∷ inputs) n h =
      failed_params inputs (rt_cycle input n) h.1 ∙ failed_params_step input n h.0

  -- After any number of rounds in a row whose exchange fails (wkc <= 0), the count of
  -- consecutive errors has grown by their number, if it stays below 2^31, and the output data,
  -- the targets, the force settings and the force limit are what they were.
  pub failed_rounds :
      (inputs : List CycleInput) (n : Node F) (c : ℕ)
      → All (λ input. input.wkc ≤ℤ pos 0) inputs
      → n.diag.consecutive_wkc_errors ≡ pos c
      → c + length inputs < 2 ^ 31
      → let m = rounds inputs n in
        (m.diag.consecutive_wkc_errors ≡ pos (c + length inputs))
        × (m.out ≡ n.out)
        × (m.targets ≡ n.targets)
        × (m.force ≡ n.force)
        × (m.limit ≡ n.limit)
  failed_rounds [] n c h e small = ground (arith, e)
  failed_rounds (input ∷ inputs) n c h e small =
      let (out, targets, force, limit, _, count) =
        failed_round input.time input.wkc input.inputs n h.0 in
      let one : (rt_cycle input n).diag.consecutive_wkc_errors ≡ pos (c + 1) =
        count ∙ ap (λ x. to_i32 (x +ℤ pos 1)) e ∙ next_count c (omega arith) in
      let (total, out', targets', force', limit') =
        failed_rounds inputs (rt_cycle input n) (c + 1) h.1 one (omega arith) in
      (total ∙ ap pos (omega arith), out' ∙ out, targets' ∙ targets, force' ∙ force, limit' ∙ limit)
