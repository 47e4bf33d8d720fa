-- ===== src/Node/Feedback/Sound.antt =====
-- The timers keep the node sound.
use motor_control.Base.{ℕ, arith, Option}
use motor_control.Node.State.{Node}
use motor_control.Node.Invariant.{IsSound}
use motor_control.Node.Feedback.{
  handle_pending_fault_log, publish_force_limit_events, publish_diag_summary,
}

module _ {F : Type 0} where
  pub handle_pending_fault_log-IsSound :
      (sdo : Option ℕ) (n : Node F) → IsSound n → IsSound (handle_pending_fault_log sdo n)
  unfolding handle_pending_fault_log
  handle_pending_fault_log-IsSound sdo n h = ground (arith, h)

  pub publish_force_limit_events-IsSound :
      (n : Node F) → IsSound n → IsSound (publish_force_limit_events n).1
  unfolding publish_force_limit_events
  publish_force_limit_events-IsSound n h = ground (arith, h)

  pub publish_diag_summary-IsSound : (n : Node F) → IsSound n → IsSound (publish_diag_summary n).1
  unfolding publish_diag_summary
  publish_diag_summary-IsSound n h = ground (arith, h)
