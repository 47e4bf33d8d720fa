-- ===== src/Tests/Logs.antt =====
-- The theorems on the rings and on the log.
use motor_control.Base.{
  ℕ, suc, ap, ◌≡◌, ◌≢◌, refl, ◌+◌, ◌-◌, ◌%◌, ◌^◌, true, false, pos, List, [], ◌∷◌, arith, none,
  drop, length, ◌++◌, replicate, some,
}
use Prim.Native.Nat.{min}
use motor_control.Double.Fixed.{Fixed, fixed_double}
use mathlib.Core.List.{flatten}
use motor_control.Ring.{RingBuffer, empty_ring, push, drain, drain_during}
use motor_control.Ring.Overlap.{drain_during_lem}
use motor_control.Logging.AsyncLogger.Flush.{IsWriting, IsInWindow, feed_all, rows_unflushed}
use motor_control.Ring.Queue.{Represents, empty-Represents, push-Represents, drain_lem}
use motor_control.Logging.Record.{LogRecord, zero_record}
use motor_control.Logging.AsyncLogger.{
  csv_header, LogFile, AsyncLogger, initial_logger, process_round, close_file, start_logging_window,
  push_record,
}
use motor_control.Logging.AsyncLogger.Start.{files_after, start_lem}
use motor_control.Logging.AsyncLogger.Window.{Wrote, readable, process_round_lem}
use motor_control.Tests.Data.{row_at}

cons_ne : {A : Type 0} {x : A} {xs : List A} → (x ∷ xs) ≢ []
cons_ne {xs = xs} e = let h : suc (length xs) ≡ 0 = ap length e in omega arith

abbrev ring : RingBuffer ℕ
ring = empty_ring 4 0

push-Represents_example : Represents 0 (push ring 5) (5 ∷ [])
unfolding empty_ring
push-Represents_example =
    push-Represents 0 ring [] 5 (empty-Represents 0 4 (omega arith)) (omega arith)

-- One value waits in a ring, and one record in the queue of a logger.
one_waiting : Represents 0 (push ring 5) (5 ∷ [])
unfolding empty_ring
one_waiting = push-Represents 0 ring [] 5 (empty-Represents 0 4 (omega arith)) (omega arith)

drain_lem_example :
    let result = drain 0 (push ring 5) [] in
    (result.count ≡ min 4 1)
    × (result.dropped ≡ 1 - 4)
    × (result.out ≡ drop (1 - 4) (5 ∷ []))
    × Represents 0 result.ring []
unfolding push empty_ring
drain_lem_example = drain_lem 0 (push ring 5) (5 ∷ []) [] one_waiting cons_ne

abbrev small_logger : AsyncLogger Fixed
small_logger = record initial_logger { log_queue = empty_ring 8 zero_record }

abbrev open_log : AsyncLogger Fixed
open_log = (start_logging_window (λ path. true) "log.csv" (pos 10) (pos 20) small_logger).1

start_lem_example :
    let (ok, m) = start_logging_window (λ path. false) "log.csv" (pos 10) (pos 20) open_log in
    (ok ≡ false)
    × (m.closed ≡ files_after open_log)
    × (m.log_queue ≡ open_log.log_queue)
    × (m.log_file ≡ none)
    × (m.log_active ≡ open_log.log_active)
start_lem_example = start_lem (λ path. false) "log.csv" (pos 10) (pos 20) open_log

abbrev fed_log : AsyncLogger Fixed
fed_log = push_record open_log (row_at (pos 15))

fed_waiting : Represents zero_record fed_log.log_queue (row_at (pos 15) ∷ [])
unfolding push_record start_logging_window close_file initial_logger empty_ring
fed_waiting =
    push-Represents zero_record (empty_ring 8 zero_record) [] (row_at (pos 15))
      (empty-Represents zero_record 8 (omega arith)) (omega arith)

process_round_lem_example :
    let file : LogFile Fixed = record {
      path = "log.csv";
      header = csv_header;
      rows = [];
      flushed = 0;
    } in
    let pending = row_at (pos 15) ∷ [] in
    let m = process_round fed_log in
    Wrote fed_log file (readable fed_log pending) m
    × Represents zero_record m.log_queue []
    × (m.dropped_count
        ≡ (fed_log.dropped_count + (length pending - fed_log.log_queue.capacity)) % 2 ^ 64)
unfolding push_record start_logging_window close_file initial_logger empty_ring
process_round_lem_example =
    process_round_lem fed_log
      (record { path = "log.csv"; header = csv_header; rows = []; flushed = 0 })
      (row_at (pos 15) ∷ []) refl refl fed_waiting cons_ne

drain_during_lem_example :
    let result = drain_during 0 ((7 ∷ []) ∷ []) (8 ∷ []) (push ring 5) [] in
    (result.out ≡ 5 ∷ [])
    × (result.count ≡ 1)
    × (result.dropped ≡ 0)
    × Represents 0 result.ring (7 ∷ 8 ∷ [])
unfolding push empty_ring flatten
drain_during_lem_example =
    drain_during_lem 0 (push ring 5) (5 ∷ []) [] (8 ∷ []) ((7 ∷ []) ∷ []) one_waiting cons_ne refl
      (omega arith) (omega arith)

-- Ten records in the window, and a log that has written seven.
abbrev ten_rows : List (LogRecord Fixed)
ten_rows = replicate 10 (row_at (pos 15))

abbrev seven_rows : LogFile Fixed
seven_rows = record {
  path = "log.csv";
  header = csv_header;
  rows = replicate 7 (row_at (pos 12));
  flushed = 0;
}

abbrev long_log : AsyncLogger Fixed
long_log = record initial_logger {
  log_queue = empty_ring 16 zero_record;
  log_file = some seven_rows;
  log_active = true;
  log_start_ns = pos 10;
  log_end_ns = pos 20;
  log_row_count = 7;
}

long_log-IsWriting : IsWriting 16 (pos 10) (pos 20) long_log seven_rows 7 20
unfolding initial_logger empty_ring
long_log-IsWriting = record {
  opened = refl;
  active = refl;
  empty = empty-Represents zero_record 16 (omega arith);
  sized = refl;
  begins = refl;
  finishes = refl;
  counted = refl;
  rows_left = omega arith;
  pushes_left = omega arith;
}

rows_unflushed_example :
    (feed_all (ten_rows ∷ ten_rows ∷ []) long_log).log_file
    ≡ some (record seven_rows {
      rows = replicate 7 (row_at (pos 12)) ++ (ten_rows ++ (ten_rows ++ []));
    })
unfolding flatten
rows_unflushed_example =
    let batch : IsInWindow 16 (pos 10) (pos 20) ten_rows × (length ten_rows % 10 ≡ 0) =
      ((cons_ne, omega arith, refl, refl), refl) in
    rows_unflushed 16 (pos 10) (pos 20) (ten_rows ∷ ten_rows ∷ []) long_log seven_rows 7
      long_log-IsWriting (batch, (batch, tt)) (omega arith)
