-- ===== src/Node/Life/Recovery.antt =====
-- cpp/src/epos_control/src/epos_motor_node.cpp: how the feedback timer sees a bus that fails.
use motor_control.Base.{
  ℕ, ◌+◌, ◌*◌, ◌%◌, ◌^◌, ◌<◌, ◌≡◌, ◌≢◌, ◌↔◌, pos, ◌≤ℤ◌, true, arith, List, All, length,
}
use motor_control.Double.{Double}
use motor_control.Ethercat.Master.{Soem}
use motor_control.Node.State.{Node}
use motor_control.Node.Cycle.{CycleInput}
use motor_control.Node.Cycle.Failures.{rounds, failed_rounds, failed_params}
use motor_control.Node.Feedback.{wkc_recovery_due}
use motor_control.Node.Life.{handle_wkc_recovery}

module _ {F : Type 0} ⦃d : Double F⦄ where
  -- After rounds that fail, as long as their count stays below 2^31 and for a threshold that is
  -- positive: a recovery is due exactly when a round has failed and the count of consecutive
  -- failures is a multiple of the threshold.
  pub recovery_due_iff :
      (inputs : List CycleInput) (n : Node F) (c threshold : ℕ)
      → All (λ input. input.wkc ≤ℤ pos 0) inputs
      → n.diag.consecutive_wkc_errors ≡ pos c
      → n.params.wkc_recover_threshold ≡ pos threshold
      → 0 < threshold
      → c + length inputs < 2 ^ 31
      → (wkc_recovery_due (rounds inputs n) ≡ true)
        ↔ ((0 < c + length inputs) × ((c + length inputs) % threshold ≡ 0))
  unfolding wkc_recovery_due
  recovery_due_iff inputs n c threshold failed count set positive small =
      ground (arith, failed_rounds inputs n c failed count small, failed_params inputs n failed)

  -- With the declared default threshold of 50 failures, over failing rounds whose number is a
  -- multiple of 20 and whose count stays below 2^31: if the count of consecutive failures
  -- before them is not a multiple of 10, the bus is not recovered after them.
  pub recovery_missed :
      {M : Type 0} (soem : Soem M) (m : M) (inputs : List CycleInput) (n : Node F) (c k : ℕ)
      → All (λ input. input.wkc ≤ℤ pos 0) inputs
      → length inputs ≡ 20 * k
      → n.diag.consecutive_wkc_errors ≡ pos c
      → n.params.wkc_recover_threshold ≡ pos 50
      → c % 10 ≢ 0
      → c + length inputs < 2 ^ 31
      → handle_wkc_recovery soem (rounds inputs n) m ≡ m
  unfolding handle_wkc_recovery
  recovery_missed soem m inputs n c k failed long count set off small =
      ground (arith, recovery_due_iff inputs n c 50 failed count set (omega arith) small)
