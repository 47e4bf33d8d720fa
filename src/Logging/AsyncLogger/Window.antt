-- ===== src/Logging/AsyncLogger/Window.antt =====
-- cpp/src/epos_control/include/logging/async_logger.hpp: which records reach the file.
use motor_control.Base.{
  ◌+◌, ◌%◌, ◌^◌, ◌-◌, ◌≡◌, ◌≢◌, refl, ap, ◌∙◌, Bool, true, false, ◌&&◌, ◌||◌, not, ℤ, pos, lt_ℤ,
  le_ℤ, List, [], ◌∷◌, ◌++◌, none, some, ltb, if◌then◌else◌, arith, drop, length,
}
use motor_control.Double.{Double}
use motor_control.Ring.{drain}
use motor_control.Ring.Queue.{Represents, drain_lem}
use motor_control.Logging.Record.{LogRecord, zero_record}
use motor_control.Logging.AsyncLogger.{
  LogFile, AsyncLogger, BatchState, close_file, write_row, write_rows, flush_rows, write_batch,
  process_round,
}

or_assoc : (a b c : Bool) → ((a || b) || c) ≡ (a || (b || c))
or_assoc a b c = ground arith

module _ {F : Type 0} where
  -- Whether a record is at or after the end of the window; an end of 0 or less is no end.
  abbrev pub is_past : ℤ → LogRecord F → Bool
  is_past end_ns row = lt_ℤ (pos 0) end_ns && le_ℤ end_ns row.timestamp_ns

  -- Whether a record is in the window.
  abbrev pub is_inside : ℤ → ℤ → LogRecord F → Bool
  is_inside start_ns end_ns row = not (lt_ℤ row.timestamp_ns start_ns) && not (is_past end_ns row)

  abbrev pub one : ℤ → ℤ → LogRecord F → List (LogRecord F)
  one start_ns end_ns row = if is_inside start_ns end_ns row then row ∷ [] else []

  -- The records of a batch that are in the window, in order.
  abbrev pub inside : ℤ → ℤ → List (LogRecord F) → List (LogRecord F)
  inside start_ns end_ns [] = []
  inside start_ns end_ns (row ∷ rows) = one start_ns end_ns row ++ inside start_ns end_ns rows

  -- Whether a record of a batch is not before the start and at or after the end.
  abbrev pub ends : ℤ → ℤ → List (LogRecord F) → Bool
  ends start_ns end_ns [] = false
  ends start_ns end_ns (row ∷ rows) =
      (not (lt_ℤ row.timestamp_ns start_ns) && is_past end_ns row) || ends start_ns end_ns rows

  append_assoc : (xs ys zs : List (LogRecord F)) → (xs ++ ys) ++ zs ≡ xs ++ (ys ++ zs)
  append_assoc [] ys zs = refl
  append_assoc (x ∷ xs) ys zs = ap (λ rest. x ∷ rest) (append_assoc xs ys zs)

  append_nil : (xs : List (LogRecord F)) → xs ++ [] ≡ xs
  append_nil [] = refl
  append_nil (x ∷ xs) = ap (λ rest. x ∷ rest) (append_nil xs)

  write_row_lem :
      (start_ns end_ns : ℤ) (row : LogRecord F) (s : BatchState F)
      → let r = write_row start_ns end_ns row s in
        (r.written ≡ s.written ++ one start_ns end_ns row)
        × (r.reached_end
            ≡ (s.reached_end || (not (lt_ℤ row.timestamp_ns start_ns) && is_past end_ns row)))
  unfolding write_row
  write_row_lem start_ns end_ns row s = ground (arith, append_nil s.written)

  pub write_rows_lem :
      (start_ns end_ns : ℤ) (batch : List (LogRecord F)) (s : BatchState F)
      → let r = write_rows start_ns end_ns batch s in
        (r.written ≡ s.written ++ inside start_ns end_ns batch)
        × (r.reached_end ≡ (s.reached_end || ends start_ns end_ns batch))
  unfolding write_rows
  write_rows_lem start_ns end_ns [] s = ground (arith, append_nil s.written)
  write_rows_lem start_ns end_ns (row ∷ batch) s =
      let (w, e) = write_row_lem start_ns end_ns row s in
      let (ws, es) = write_rows_lem start_ns end_ns batch (write_row start_ns end_ns row s) in
      (
        ws
            ∙ ap (λ x. x ++ inside start_ns end_ns batch) w
            ∙ append_assoc s.written (one start_ns end_ns row) (inside start_ns end_ns batch),
        es
            ∙ ap (λ x. x || ends start_ns end_ns batch) e
            ∙ or_assoc s.reached_end (not (lt_ℤ row.timestamp_ns start_ns) && is_past end_ns row)
                (ends start_ns end_ns batch),
      )

  -- What a batch does to the file of an active log.
  abbrev pub written_file : AsyncLogger F → LogFile F → List (LogRecord F) → LogFile F
  written_file l file batch = record file {
    rows = file.rows ++ inside l.log_start_ns l.log_end_ns batch;
  }

  -- The file, the closed files and the activity after a batch, which may end the log.
  abbrev pub Wrote : AsyncLogger F → LogFile F → List (LogRecord F) → AsyncLogger F → Type 0
  Wrote l file batch m =
      let ended = ends l.log_start_ns l.log_end_ns batch in
      let after = written_file l file batch in
      (m.log_file ≡ (if ended then none else some (flush_rows m.log_row_count after)))
      × (m.closed
          ≡ (if ended then record after { flushed = length after.rows } ∷ l.closed else l.closed))
      × (m.log_active ≡ not ended)

  pub write_batch_lem :
      (batch : List (LogRecord F)) (l : AsyncLogger F) (file : LogFile F)
      → l.log_file ≡ some file
      → l.log_active ≡ true
      → Wrote l file batch (write_batch batch l)
        × ((write_batch batch l).log_queue ≡ l.log_queue)
        × ((write_batch batch l).dropped_count ≡ l.dropped_count)
  unfolding write_batch close_file
  write_batch_lem batch l file h active =
      let start : BatchState F = record {
        written = file.rows;
        row_count = l.log_row_count;
        reached_end = false;
      } in
      ground (arith, h, active, write_rows_lem l.log_start_ns l.log_end_ns batch start)

module _ {F : Type 0} ⦃d : Double F⦄ where
  -- The records that a round reads of those that wait: the ring has lost the oldest ones.
  abbrev pub readable : AsyncLogger F → List (LogRecord F) → List (LogRecord F)
  readable l pending = drop (length pending - l.log_queue.capacity) pending

  -- The logger once the queue has been drained.
  abbrev pub drained_logger : AsyncLogger F → AsyncLogger F
  drained_logger l =
      let drained = drain zero_record l.log_queue [] in
      record l {
        log_queue = drained.ring;
        dropped_count = (l.dropped_count + drained.dropped) % 2 ^ 64;
      }

  -- A round with records that wait writes the readable ones.
  pub process_round-write_batch :
      (l : AsyncLogger F) (pending : List (LogRecord F))
      → Represents zero_record l.log_queue pending
      → pending ≢ []
      → process_round l ≡ write_batch (readable l pending) (drained_logger l)
  unfolding process_round
  process_round-write_batch l [] waiting some_wait = absurd (some_wait refl)
  process_round-write_batch l (row ∷ rows) waiting some_wait =
      let (count, dropped, out, emptied) =
        drain_lem zero_record l.log_queue (row ∷ rows) [] waiting some_wait in
      let drained = drain zero_record l.log_queue [] in
      let some_count : ltb 0 drained.count ≡ true = ground (arith, count, waiting.positive) in
      ap (λ b. if b then write_batch drained.out (drained_logger l) else drained_logger l)
        some_count
      ∙ ap (λ rs. write_batch rs (drained_logger l)) out

  -- One round of the writing thread, over an open and active log whose queue represents records
  -- that wait: the readable ones that are in the window are appended to the file in order; if
  -- one that is not before the start lies at or past the end, the file is closed and the log
  -- inactive, else the file stays open; the queue is empty, and the records that the ring lost
  -- are counted.
  pub process_round_lem :
      (l : AsyncLogger F) (file : LogFile F) (pending : List (LogRecord F))
      → l.log_file ≡ some file
      → l.log_active ≡ true
      → Represents zero_record l.log_queue pending
      → pending ≢ []
      → let m = process_round l in
        Wrote l file (readable l pending) m
        × Represents zero_record m.log_queue []
        × (m.dropped_count ≡ (l.dropped_count + (length pending - l.log_queue.capacity)) % 2 ^ 64)
  process_round_lem l file pending h active waiting some_wait =
      let (count, dropped, out, emptied) =
        drain_lem zero_record l.log_queue pending [] waiting some_wait in
      let (wrote, queue, lost) =
        write_batch_lem (readable l pending) (drained_logger l) file h active in
      rw (process_round-write_batch l pending waiting some_wait)
        (wrote, rw queue emptied, lost ∙ ap (λ x. (l.dropped_count + x) % 2 ^ 64) dropped)
