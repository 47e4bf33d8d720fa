-- ===== src/Node/Feedback/Logged.antt =====
-- The timers leave the logger alone.
use motor_control.Base.{ℕ, ◌≡◌, Option, arith}
use motor_control.Node.State.{Node}
use motor_control.Node.Feedback.{
  handle_pending_fault_log, publish_force_limit_events, publish_diag_summary,
}

pub timers-logger :
    {F : Type 0} (sdo : Option ℕ) (n : Node F)
    → ((handle_pending_fault_log sdo n).logger ≡ n.logger)
      × ((publish_force_limit_events n).1.logger ≡ n.logger)
      × ((publish_diag_summary n).1.logger ≡ n.logger)
unfolding handle_pending_fault_log publish_force_limit_events publish_diag_summary
timers-logger sdo n = (ground arith, ground arith, ground arith)
