-- ===== src/Node/Feedback.antt =====
-- cpp/src/epos_control/src/epos_motor_node.cpp: the timers that publish feedback and diagnostics. What
-- they print or publish is their result.
pub mod Sound
pub mod Untouched
pub mod Logged
pub mod Extremes
pub mod Averages
use motor_control.Base.{
  ℕ, suc, ◌+◌, ◌^◌, ◌%◌, Bool, true, false, ◌&&◌, ◌||◌, not, ℤ, pos, negsuc, ◌+ℤ◌, ◌-ℤ◌, ◌/ℤ◌, lt_ℤ,
  le_ℤ, eq_ℤ, max_ℤ, pos_part, neg_part, abs_i32, to_i32, to_i64, to_u64, ◌/◌, List, [], ◌∷◌,
  Option, none, some, ltb, ◌==◌, if◌then◌else◌,
}
use motor_control.Ring.{drain}
use motor_control.Node.State.{Node}

-- The messages of publish_core_feedback, in order.
unfoldable pub core_feedback : {F : Type 0} → Node F → List ℤ
core_feedback n =
    n.axis.last_vel
    ∷ pos n.axis.last_status
    ∷ n.axis.last_pos
    ∷ n.axis.last_trq
    ∷ n.diag.last_wkc
    ∷ n.diag.cycle_dt_us
    ∷ n.diag.cycle_jitter_us
    ∷ n.diag.cycle_overrun_count
    ∷ n.diag.wkc_error_count
    ∷ n.axis.last_error_code
    ∷ []

module _ {F : Type 0} where
  -- handle_pending_fault_log. The argument is what ec_SDOread gives of the error code, if it succeeds.
  unfoldable pub handle_pending_fault_log : Option ℕ → Node F → Node F
  handle_pending_fault_log sdo n =
      let taken = record n { diag = record n.diag { fault_log_pending = false } } in
      if not n.diag.fault_log_pending then n else elim sdo [
        | none ↦ taken
        | some code ↦ record taken {
          axis = record taken.axis { last_error_code = pos (code % 2 ^ 16) };
        }
      ]

  -- handle_wkc_recovery: whether it asks the master for the operational state.
  unfoldable pub wkc_recovery_due : Node F → Bool
  wkc_recovery_due n =
      let threshold = n.params.wkc_recover_threshold in
      let consecutive = n.diag.consecutive_wkc_errors in
      lt_ℤ (pos 0) threshold
      && (lt_ℤ (pos 0) consecutive && (pos_part consecutive % pos_part threshold == 0))

  -- publish_force_limit_events: the event that is reported, with its peak and its limit.
  pub publish_force_limit_events : Node F → Option (ℤ × ℤ × ℤ) × Node F
  publish_force_limit_events n =
      let l = n.limit in
      if eq_ℤ l.event (pos 0) then (none, n) else (
        some (l.event, l.peak_mn, l.threshold_mn),
        record n { limit = record l { event = pos 0 } },
      )

-- The sums and extremes of publish_diag_summary.
pub record Summary : Type 0 where
  pub sum_dt : ℤ
  pub sum_jitter : ℤ
  pub min_dt : ℤ
  pub max_dt : ℤ

-- The body of the loop.
pub add_sample : ℤ → ℤ → Summary → Summary
add_sample expected dt s = record {
  sum_dt = to_i64 (s.sum_dt +ℤ dt);
  sum_jitter = to_i64 (s.sum_jitter +ℤ abs_i32 (to_i32 (dt -ℤ expected)));
  min_dt = if lt_ℤ dt s.min_dt then dt else s.min_dt;
  max_dt = if lt_ℤ s.max_dt dt then dt else s.max_dt;
}

-- for (int32_t dt : dt_data)
pub summarise : ℤ → List ℤ → Summary → Summary
summarise expected [] s = s
summarise expected (dt ∷ rest) s = summarise expected rest (add_sample expected dt s)

abbrev pub no_summary : Summary
no_summary = record { sum_dt = pos 0; sum_jitter = pos 0; min_dt = pos 9999999; max_dt = pos 0 }

-- static_cast<int32_t>(sum / count), where `count` is a size_t, so that the division is unsigned.
unfoldable pub average : ℤ → ℕ → ℤ
average sum count = to_i32 (pos (to_u64 sum / count))

-- The fields of the published JSON.
pub record DiagSummary : Type 0 where
  pub count : ℕ
  pub avg_dt : ℤ
  pub min_dt : ℤ
  pub max_dt : ℤ
  pub avg_jitter : ℤ

pub publish_diag_summary : {F : Type 0} → Node F → Option DiagSummary × Node F
publish_diag_summary n =
    let drained = drain (pos 0) n.diag.diag_ring [] in
    let expected = pos 1000000 /ℤ pos_part (max_ℤ (pos 1) n.params.cycle_hz) in
    let s = summarise expected drained.out no_summary in
    let avg_jitter = average s.sum_jitter drained.count in
    if ltb 0 drained.count
    then (
      some (record {
        count = drained.count;
        avg_dt = average s.sum_dt drained.count;
        min_dt = s.min_dt;
        max_dt = s.max_dt;
        avg_jitter = avg_jitter;
      }),
      record n { diag = record n.diag { diag_ring = drained.ring; cycle_jitter_us = avg_jitter } },
    )
    else (none, record n { diag = record n.diag { diag_ring = drained.ring } })
