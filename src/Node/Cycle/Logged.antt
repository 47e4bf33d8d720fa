-- ===== src/Node/Cycle/Logged.antt =====
-- What a round of the loop does to the logger: it adds at most one record to the queue.
use mathlib.Core.Path.{subst}
use motor_control.Base.{
  ◌≡◌, ◌∙◌, refl, ap, sym, le_ℤ, if_holds, Bool-cases, inl, inr, ℤ, pos, Option, none, some,
}
use motor_control.Double.{Double}
use motor_control.Ethercat.Pdo.{InPdo}
use motor_control.Control.Force.{ForceFeedbackSelection}
use motor_control.Logging.AsyncLogger.{push_record}
use motor_control.Logging.AsyncLogger.Invariant.{IsConsistent, push_record-IsConsistent}
use motor_control.Logging.Record.{LogRecord}
use motor_control.Node.State.{Node}
use motor_control.Node.Cycle.Timing.{
  CycleTime, dt_of, dt_us_of, schedule, measure, exchange_ok, exchange_failed,
}
use motor_control.Node.Cycle.Command.{Frame, start_frame, mode_command}
use motor_control.Node.Cycle.Force.{selected_force}
use motor_control.Node.Cycle.Finish.{
  control_stage, safety_stage, write_pdo, log_record, log_stage, finish,
}
use motor_control.Node.Cycle.Output.{final_frame, final-Kept}
use motor_control.Node.Cycle.{CycleInput, prepare, control_round, with_data, rt_cycle}

module _ {F : Type 0} ⦃d : Double F⦄ where
  -- The record of a round.
  finish_logs :
      (now dt_us : ℤ) (i : InPdo) (s : ForceFeedbackSelection) (f : Frame F)
      → (row : LogRecord F) × ((finish now dt_us i s f).logger ≡ push_record f.node.logger row)
        × (row.timestamp_ns ≡ now)
  unfolding finish control_stage safety_stage write_pdo log_stage log_record
  finish_logs now dt_us i s f =
      let (control, f') = control_stage i f in
      (log_record now dt_us i s (write_pdo control (safety_stage now i f')), refl, refl)

  -- A round that controls adds one record, of its time, to the queue.
  control_round_logs :
      (time : CycleTime) (i : InPdo) (n m : Node F)
      → m.logger ≡ n.logger
      → let r = control_round time.now_ns (dt_of time.now_ns n) (dt_us_of time.now_ns n) i m in
        (row : LogRecord F) × (r.logger ≡ push_record n.logger row)
        × (row.timestamp_ns ≡ time.now_ns)
  unfolding control_round
  control_round_logs time i n m same =
      let s =
        selected_force
          (mode_command time.now_ns (dt_of time.now_ns n) i (start_frame i (prepare i m))).node in
      let f = final_frame time.now_ns (dt_of time.now_ns n) i m in
      let (k, _) = final-Kept time.now_ns (dt_of time.now_ns n) i m in
      let (row, pushed, at) = finish_logs time.now_ns (dt_us_of time.now_ns n) i s f in
      (row, pushed ∙ ap (λ l. push_record l row) (k.logger ∙ same), at)

  -- A round whose exchange failed adds a record with an error code if the log is active.
  exchange_failed-IsConsistent :
      (wkc now dt_us : ℤ) (n : Node F)
      → IsConsistent n.logger
      → IsConsistent (exchange_failed wkc now dt_us n).logger
  unfolding exchange_failed
  exchange_failed-IsConsistent wkc now dt_us n h =
      if_holds IsConsistent n.logger.log_active _ n.logger (push_record-IsConsistent n.logger _ h) h

  with_data-IsConsistent :
      (time : CycleTime) (wkc : ℤ) (inputs : Option InPdo) (n : Node F)
      → IsConsistent n.logger
      → let m = exchange_ok wkc (measure time.now_ns (schedule time.scheduled_ns n)) in
        IsConsistent
          (with_data time.now_ns (dt_of time.now_ns n) (dt_us_of time.now_ns n) inputs m).logger
  unfolding with_data exchange_ok measure schedule
  with_data-IsConsistent time wkc none n h = h
  with_data-IsConsistent time wkc (some i) n h =
      let m = exchange_ok wkc (measure time.now_ns (schedule time.scheduled_ns n)) in
      let (row, pushed, _) = control_round_logs time i n m refl in
      subst IsConsistent (sym pushed) (push_record-IsConsistent n.logger row h)

  pub rt_cycle-IsConsistent :
      (input : CycleInput) (n : Node F)
      → IsConsistent n.logger
      → IsConsistent (rt_cycle input n).logger
  unfolding rt_cycle measure schedule
  rt_cycle-IsConsistent input n h =
      let now = input.time.now_ns in
      let measured = measure now (schedule input.time.scheduled_ns n) in
      elim (Bool-cases (le_ℤ input.wkc (pos 0))) [
        | inl e ↦ rw e (exchange_failed-IsConsistent input.wkc now (dt_us_of now n) measured h)
        | inr e ↦ rw e (with_data-IsConsistent input.time input.wkc input.inputs n h)
      ]
