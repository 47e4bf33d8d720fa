-- ===== src/Logging/AsyncLogger/Flush.antt =====
-- cpp/src/epos_control/include/logging/async_logger.hpp: what has reached the disk, over rounds of the
-- writing thread between which the real-time loop pushes records.
use mathlib.Core.Path.{subst}
use mathlib.Core.List.{flatten, append_assoc, append-nil}
use motor_control.Base.{
  ℕ, ◌+◌, ◌-◌, ◌%◌, ◌^◌, ◌<◌, ◌≤◌, ◌≡◌, ◌≢◌, sym, ap, ◌∙◌, true, false, ℤ, List, [], ◌∷◌, ◌++◌,
  none, some, arith, drop, length, length-append, All,
}
use motor_control.Double.{Double}
use motor_control.Ring.{push_all}
use motor_control.Ring.Queue.{Represents, drain_indices, drain_lem}
use motor_control.Ring.Overlap.{push_all-Represents}
use motor_control.Logging.Record.{LogRecord, zero_record}
use motor_control.Logging.AsyncLogger.{
  LogFile, AsyncLogger, BatchState, close_file, write_row, write_rows, flush_rows, write_batch,
  process_round, stop,
}
use motor_control.Logging.AsyncLogger.Start.{files_after}
use motor_control.Logging.AsyncLogger.Window.{
  inside, one, ends, drained_logger, write_batch_lem, process_round-write_batch,
}

module _ {F : Type 0} where
  -- stop closes the open file with the rows that it has and keeps no log active; the records that
  -- still wait in the queue stay there and are written nowhere.
  pub stop_lem :
      (l : AsyncLogger F)
      → let m = stop l in
        (m.running ≡ false)
        × (m.log_active ≡ false)
        × (m.log_file ≡ none)
        × (m.closed ≡ files_after l)
        × (m.log_queue ≡ l.log_queue)
  unfolding stop close_file
  stop_lem l = ground arith

  write_row_count :
      (start_ns end_ns : ℤ) (row : LogRecord F) (s : BatchState F)
      → s.row_count + 1 < 2 ^ 64
      → (write_row start_ns end_ns row s).row_count ≡ s.row_count + length (one start_ns end_ns row)
  unfolding write_row
  write_row_count start_ns end_ns row s small = ground arith

  length-one : (start_ns end_ns : ℤ) (row : LogRecord F) → length (one start_ns end_ns row) ≤ 1
  length-one start_ns end_ns row = ground arith

  write_rows_count :
      (start_ns end_ns : ℤ) (batch : List (LogRecord F)) (s : BatchState F)
      → s.row_count + length batch < 2 ^ 64
      → (write_rows start_ns end_ns batch s).row_count
        ≡ s.row_count + length (inside start_ns end_ns batch)
  unfolding write_rows
  write_rows_count start_ns end_ns [] s small = omega arith
  write_rows_count start_ns end_ns (row ∷ batch) s small =
      let here = write_row_count start_ns end_ns row s (omega arith) in
      omega (
        arith,
        here,
        length-one start_ns end_ns row,
        length-append (one start_ns end_ns row) (inside start_ns end_ns batch),
        write_rows_count start_ns end_ns batch (write_row start_ns end_ns row s)
            (omega (arith, length-one start_ns end_ns row)),
      )

  write_batch_kept :
      (batch : List (LogRecord F)) (l : AsyncLogger F) (file : LogFile F)
      → l.log_file ≡ some file
      → l.log_active ≡ true
      → l.log_row_count + length batch < 2 ^ 64
      → let m = write_batch batch l in
        (m.log_row_count ≡ l.log_row_count + length (inside l.log_start_ns l.log_end_ns batch))
        × (m.log_start_ns ≡ l.log_start_ns)
        × (m.log_end_ns ≡ l.log_end_ns)
  unfolding write_batch close_file
  write_batch_kept batch l file h active small =
      let start : BatchState F = record {
        written = file.rows;
        row_count = l.log_row_count;
        reached_end = false;
      } in
      ground (arith, h, active, write_rows_count l.log_start_ns l.log_end_ns batch start)

module _ {F : Type 0} ⦃d : Double F⦄ where
  -- The real-time loop pushes a batch, then the writing thread makes a round.
  abbrev pub feed : List (LogRecord F) → AsyncLogger F → AsyncLogger F
  feed batch l = process_round (record l { log_queue = push_all l.log_queue batch })

  abbrev pub feed_all : List (List (LogRecord F)) → AsyncLogger F → AsyncLogger F
  feed_all [] l = l
  feed_all (batch ∷ batches) l = feed_all batches (feed batch l)

  module _ (capacity : ℕ) (start_ns end_ns : ℤ) where
    -- A log with this queue and window that writes `file`, has written `count` rows and waits for
    -- records; `free` more do not overflow its counters.
    pub record IsWriting (l : AsyncLogger F) (file : LogFile F) (count free : ℕ) : Type 0 where
      pub opened : l.log_file ≡ some file
      pub active : l.log_active ≡ true
      pub empty : Represents zero_record l.log_queue []
      pub sized : l.log_queue.capacity ≡ capacity
      pub begins : l.log_start_ns ≡ start_ns
      pub finishes : l.log_end_ns ≡ end_ns
      pub counted : l.log_row_count ≡ count
      pub rows_left : count + free < 2 ^ 64
      pub pushes_left : l.log_queue.write_idx + free < 2 ^ 64

    -- A batch that fits the queue and lies in the window.
    abbrev pub IsInWindow : List (LogRecord F) → Type 0
    IsInWindow batch =
        (batch ≢ [])
        × (length batch ≤ capacity)
        × (inside start_ns end_ns batch ≡ batch)
        × (ends start_ns end_ns batch ≡ false)

    feed_lem :
        (l : AsyncLogger F) (file : LogFile F) (count free : ℕ) (batch : List (LogRecord F))
        → IsWriting l file count (length batch + free)
        → IsInWindow batch
        → IsWriting
            (feed batch l)
            (flush_rows (count + length batch) (record file { rows = file.rows ++ batch }))
            (count + length batch)
            free
    feed_lem l file count free batch w (some_rows, fits, within_window, not_past) =
        let within : inside l.log_start_ns l.log_end_ns batch ≡ batch =
          rw (w.begins, w.finishes) within_window in
        let goes_on : ends l.log_start_ns l.log_end_ns batch ≡ false =
          rw (w.begins, w.finishes) not_past in
        let fed : AsyncLogger F = record l { log_queue = push_all l.log_queue batch } in
        let pushed =
          push_all-Represents zero_record batch l.log_queue [] w.empty
            (omega (arith, w.pushes_left)) in
        let none_lost : length batch - (push_all l.log_queue batch).capacity ≡ 0 =
          omega (arith, pushed.2) in
        let round : process_round fed ≡ write_batch batch (drained_logger fed) =
          process_round-write_batch fed batch pushed.0 some_rows
          ∙ ap (λ n. write_batch (drop n batch) (drained_logger fed)) none_lost in
        let (wrote, queue, lost) =
          write_batch_lem batch (drained_logger fed) file w.opened w.active in
        let (rows, begins, finishes) =
          write_batch_kept batch (drained_logger fed) file w.opened w.active
            (omega (arith, w.counted, w.rows_left)) in
        let emptied =
          drain_lem zero_record (push_all l.log_queue batch) batch [] pushed.0 some_rows in
        let indices = drain_indices zero_record (push_all l.log_queue batch) [] in
        let total : (write_batch batch (drained_logger fed)).log_row_count ≡ count + length batch =
          omega (arith, rows, w.counted, ap length within) in
        rw round (record {
          opened = ground (arith, wrote.0, within, goes_on, total);
          active = ground (arith, wrote.2, goes_on);
          empty = rw queue emptied.3;
          sized = ap (λ q. q.capacity) queue ∙ indices.1 ∙ pushed.2 ∙ w.sized;
          begins = begins ∙ w.begins;
          finishes = finishes ∙ w.finishes;
          counted = total;
          rows_left = omega (arith, w.rows_left);
          pushes_left =
              omega (arith, w.pushes_left, ap (λ q. q.write_idx) queue, indices.0, pushed.3);
        })

    -- A batch is flushed only if the count of rows ends on a multiple of 1000.
    flush_rows_skip : (count : ℕ) (file : LogFile F) → count % 10 ≢ 0 → flush_rows count file ≡ file
    unfolding flush_rows
    flush_rows_skip count file h = ground arith

    -- Over rounds of the writing thread between which the loop pushes batches that fit the
    -- queue and lie in the window, each of a multiple of ten records, and with a count of rows
    -- written before that is not a multiple of ten and counters that do not overflow: every
    -- record is written to the file in order, and none is flushed.
    pub rows_unflushed :
        (batches : List (List (LogRecord F))) (l : AsyncLogger F) (file : LogFile F) (count : ℕ)
        → IsWriting l file count (length (flatten batches))
        → All (λ batch. IsInWindow batch × (length batch % 10 ≡ 0)) batches
        → count % 10 ≢ 0
        → (feed_all batches l).log_file ≡ some (record file { rows = file.rows ++ flatten batches })
    unfolding flatten
    rows_unflushed [] l file count w h off =
        w.opened ∙ ap (λ rows. some (record file { rows = rows })) (sym (append-nil file.rows))
    rows_unflushed (batch ∷ batches) l file count w h off =
        let next : LogFile F = record file { rows = file.rows ++ batch } in
        let here =
          feed_lem l file count (length (flatten batches)) batch
            (subst (IsWriting l file count) (length-append batch (flatten batches)) w) h.0.0 in
        let still : (count + length batch) % 10 ≢ 0 = ground (arith, h.0.1) in
        rows_unflushed batches (feed batch l) next (count + length batch)
          (subst (λ f. IsWriting (feed batch l) f (count + length batch) (length (flatten batches)))
            (flush_rows_skip (count + length batch) next still) here)
          h.1 still
        ∙ ap (λ rows. some (record file { rows = rows }))
            (append_assoc file.rows batch (flatten batches))
