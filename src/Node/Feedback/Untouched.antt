-- ===== src/Node/Feedback/Untouched.antt =====
-- The timers leave a tripped limit and the timeouts alone.
use motor_control.Base.{ℕ, Option, arith}
use motor_control.Node.State.{Node}
use motor_control.Node.Calm.{Untouched}
use motor_control.Node.Feedback.{
  handle_pending_fault_log, publish_force_limit_events, publish_diag_summary,
}

pub timers-Untouched :
    {F : Type 0} (sdo : Option ℕ) (n : Node F)
    → Untouched n (handle_pending_fault_log sdo n)
      × Untouched n (publish_force_limit_events n).1
      × Untouched n (publish_diag_summary n).1
unfolding handle_pending_fault_log publish_force_limit_events publish_diag_summary
timers-Untouched sdo n = (ground arith, ground arith, ground arith)
