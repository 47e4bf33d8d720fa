-- ===== src/Node/Cycle/Timing.antt =====
-- cpp/src/epos_control/src/epos_motor_node.cpp: the timing of a round and the exchange of process data.
pub mod Schedule
use motor_control.Base.{
  ℕ, Bool, true, false, ℤ, pos, negsuc, ◌+ℤ◌, ◌-ℤ◌, ◌*ℤ◌, ◌/ℤ◌, lt_ℤ, le_ℤ, max_ℤ, pos_part, to_i32,
  to_i64, if◌then◌else◌,
}
use motor_control.Double.{Double}
use motor_control.Ring.{push}
use motor_control.Logging.Record.{LogRecord, zero_record}
use motor_control.Logging.AsyncLogger.{push_record}
use motor_control.Node.State.{Node, Params}

-- The clock of one round: the time at which the next wake-up is computed, and the time after it.
pub record CycleTime : Type 0 where
  pub scheduled_ns : ℤ
  pub now_ns : ℤ

-- The next wake-up; one that lies in the past is counted from now.
pub next_wake : ℤ → ℤ → ℤ → ℤ
next_wake next_ns period now =
    let next = to_i64 (next_ns +ℤ period) in if le_ℤ next now then to_i64 (now +ℤ period) else next

module _ {F : Type 0} where
  -- 1000000000LL / std::max(1, cycle_hz)
  pub period_ns : Params F → ℤ
  period_ns p = pos 1000000000 /ℤ pos_part (max_ℤ (pos 1) p.cycle_hz)

  unfoldable pub schedule : ℤ → Node F → Node F
  schedule now n = record n {
    rt = record n.rt { next_ns = next_wake n.rt.next_ns (period_ns n.params) now };
  }

  abbrev pub dt_of : ℤ → Node F → ℤ
  dt_of now n = to_i64 (now -ℤ n.rt.last_cycle_ns)

  -- The value of dt_us_val: 0 in the first round.
  pub dt_us_of : ℤ → Node F → ℤ
  dt_us_of now n = if n.rt.first then pos 0 else to_i32 (dt_of now n /ℤ 1000)

  abbrev is_overrun : ℤ → Node F → Bool
  is_overrun now n =
      lt_ℤ (to_i64 (period_ns n.params +ℤ n.params.overrun_thresh_us *ℤ pos 1000)) (dt_of now n)

  -- The measurement of the period.
  unfoldable pub measure : ℤ → Node F → Node F
  unfolding dt_us_of
  measure now n =
      let dt_us = dt_us_of now n in
      let diag = record n.diag {
        cycle_dt_us = dt_us;
        diag_ring = push n.diag.diag_ring dt_us;
        cycle_overrun_count =
            if is_overrun now n
            then to_i32 (n.diag.cycle_overrun_count +ℤ pos 1)
            else n.diag.cycle_overrun_count;
      } in
      record n {
        rt = record n.rt { last_cycle_ns = now; first = false };
        diag = if n.rt.first then n.diag else diag;
      }

  -- wkc > 0: the count of consecutive errors starts again.
  unfoldable pub exchange_ok : ℤ → Node F → Node F
  exchange_ok wkc n = record n {
    diag = record n.diag { last_wkc = wkc; consecutive_wkc_errors = pos 0 };
  }

module _ {F : Type 0} ⦃d : Double F⦄ where
  -- wkc <= 0: the round only counts the error, and logs a record with error code -1.
  unfoldable pub exchange_failed : ℤ → ℤ → ℤ → Node F → Node F
  exchange_failed wkc now dt_us n =
      let rec : LogRecord F = record zero_record {
        timestamp_ns = now;
        dt_us = dt_us;
        error_code = negsuc 0;
      } in
      record n {
        diag = record n.diag {
          last_wkc = wkc;
          wkc_error_count = to_i32 (n.diag.wkc_error_count +ℤ pos 1);
          consecutive_wkc_errors = to_i32 (n.diag.consecutive_wkc_errors +ℤ pos 1);
        };
        logger = if n.logger.log_active then push_record n.logger rec else n.logger;
      }
