-- ===== src/Logging/AsyncLogger/Invariant.antt =====
-- cpp/src/epos_control/include/logging/async_logger.hpp: what holds of the logger's files at all times.
use Prim.Native.String.{String}
use motor_control.Base.{
  ℕ, ◌+◌, ◌≤◌, ◌≡◌, ◌⊎◌, inl, inr, refl, Bool, false, not, ℤ, pos, ◌≤ℤ◌, ◌<ℤ◌, List, [], ◌∷◌, ◌++◌,
  Option, none, some, All, length, arith, ltb, ◌&&◌, ◌%◌, ◌^◌, ◌==◌, Bool-cases,
}
use motor_control.Double.{Double}
use motor_control.Ring.{drain}
use motor_control.Logging.Record.{LogRecord, zero_record}
use motor_control.Logging.AsyncLogger.{
  LogFile, AsyncLogger, BatchState, close_file, start_logging_window, stop_logging, push_record,
  write_row, write_rows, flush_rows, write_batch, process_round, initial_logger,
}

module _ {F : Type 0} where
  -- A record in a window, whose end counts if it is positive.
  abbrev pub IsIn : ℤ → ℤ → LogRecord F → Type 0
  IsIn start_ns end_ns row =
      (start_ns ≤ℤ row.timestamp_ns) × ((end_ns ≤ℤ pos 0) ⊎ (row.timestamp_ns <ℤ end_ns))

  -- An open file has rows of its window only, and no more of them are flushed than there are.
  abbrev pub KeepsWindow : ℤ → ℤ → Option (LogFile F) → Type 0
  KeepsWindow start_ns end_ns none = Unit
  KeepsWindow start_ns end_ns (some file) =
      All (IsIn start_ns end_ns) file.rows × (file.flushed ≤ length file.rows)

  abbrev pub IsFlushed : LogFile F → Type 0
  IsFlushed file = file.flushed ≡ length file.rows

  pub record IsConsistent (l : AsyncLogger F) : Type 0 where
    pub window : KeepsWindow l.log_start_ns l.log_end_ns l.log_file
    pub closed : All IsFlushed l.closed

  All-snoc :
      (start_ns end_ns : ℤ) (rows : List (LogRecord F)) (row : LogRecord F)
      → All (IsIn start_ns end_ns) rows
      → IsIn start_ns end_ns row
      → All (IsIn start_ns end_ns) (rows ++ row ∷ [])
  All-snoc start_ns end_ns [] row h r = (r, tt)
  All-snoc start_ns end_ns (x ∷ rows) row h r = (h.0, All-snoc start_ns end_ns rows row h.1 r)

  length-snoc :
      (rows : List (LogRecord F)) (row : LogRecord F) → length (rows ++ row ∷ []) ≡ length rows + 1
  length-snoc [] row = omega arith
  length-snoc (x ∷ rows) row = omega (arith, length-snoc rows row)

  -- The rows of a batch that are written stay in the window, and none is taken back.
  abbrev Grows : ℤ → ℤ → ℕ → List (LogRecord F) → Type 0
  Grows start_ns end_ns n rows = All (IsIn start_ns end_ns) rows × (n ≤ length rows)

  write_row-Grows :
      (start_ns end_ns : ℤ) (n : ℕ) (row : LogRecord F) (s : BatchState F)
      → Grows start_ns end_ns n s.written
      → Grows start_ns end_ns n (write_row start_ns end_ns row s).written
  unfolding write_row
  write_row-Grows start_ns end_ns n row s h =
      ground (arith, All-snoc start_ns end_ns s.written row h.0, length-snoc s.written row)

  write_rows-Grows :
      (start_ns end_ns : ℤ) (n : ℕ) (batch : List (LogRecord F)) (s : BatchState F)
      → Grows start_ns end_ns n s.written
      → Grows start_ns end_ns n (write_rows start_ns end_ns batch s).written
  unfolding write_rows
  write_rows-Grows start_ns end_ns n [] s h = h
  write_rows-Grows start_ns end_ns n (row ∷ batch) s h =
      write_rows-Grows start_ns end_ns n batch (write_row start_ns end_ns row s)
        (write_row-Grows start_ns end_ns n row s h)

  -- The files after a close, from the file that was open.
  close_file_lem :
      (file : Option (LogFile F)) (l : AsyncLogger F)
      → l.log_file ≡ file
      → IsConsistent l
      → ((close_file l).log_file ≡ none) × All IsFlushed (close_file l).closed
  unfolding close_file
  close_file_lem none l e h = rw (e, close_file) (e, h.closed)
  close_file_lem (some file) l e h = rw (e, close_file) (refl, (refl, h.closed))

  IsConsistent-if_none :
      (l : AsyncLogger F) → l.log_file ≡ none → All IsFlushed l.closed → IsConsistent l
  IsConsistent-if_none l e h = record { window = rw e tt; closed = h }

  pub close_file-IsConsistent : (l : AsyncLogger F) → IsConsistent l → IsConsistent (close_file l)
  close_file-IsConsistent l h =
      let (e, c) = close_file_lem l.log_file l refl h in IsConsistent-if_none (close_file l) e c

  pub start_logging_window-IsConsistent :
      (opens : String → Bool) (path : String) (start_ns end_ns : ℤ) (l : AsyncLogger F)
      → IsConsistent l
      → IsConsistent (start_logging_window opens path start_ns end_ns l).1
  unfolding start_logging_window
  start_logging_window-IsConsistent opens path start_ns end_ns l h =
      elim (Bool-cases (opens path)) [
        | inl e ↦
            rw e (record {
              window = (tt, omega arith);
              closed = (close_file_lem l.log_file l refl h).1;
            })
        | inr e ↦ rw e (close_file-IsConsistent l h)
      ]

  pub stop_logging-IsConsistent :
      (l : AsyncLogger F) → IsConsistent l → IsConsistent (stop_logging l)
  unfolding stop_logging
  stop_logging-IsConsistent l h =
      close_file-IsConsistent (record l { log_active = false })
        (record { window = h.window; closed = h.closed })

  pub push_record-IsConsistent :
      (l : AsyncLogger F) (row : LogRecord F) → IsConsistent l → IsConsistent (push_record l row)
  unfolding push_record
  push_record-IsConsistent l row h = record { window = h.window; closed = h.closed }

  flush_rows-KeepsWindow :
      (start_ns end_ns : ℤ) (row_count : ℕ) (file : LogFile F)
      → KeepsWindow start_ns end_ns (some file)
      → KeepsWindow start_ns end_ns (some (flush_rows row_count file))
  unfolding flush_rows
  flush_rows-KeepsWindow start_ns end_ns row_count file h =
      elim (Bool-cases (ltb 0 row_count && (row_count % 1000 == 0))) [
        | inl e ↦ rw e (h.0, omega arith)
        | inr e ↦ rw e h
      ]

  write_batch_lem :
      (batch : List (LogRecord F)) (file : Option (LogFile F)) (l : AsyncLogger F)
      → l.log_file ≡ file
      → IsConsistent l
      → KeepsWindow l.log_start_ns l.log_end_ns file
      → IsConsistent (write_batch batch l)
  unfolding write_batch
  write_batch_lem batch none l e h w = rw (e, write_batch) h
  write_batch_lem batch (some file) l e h w =
      let s : BatchState F =
        write_rows l.log_start_ns l.log_end_ns batch
          (record { written = file.rows; row_count = l.log_row_count; reached_end = false }) in
      let grown =
        write_rows-Grows l.log_start_ns l.log_end_ns file.flushed batch
          (record { written = file.rows; row_count = l.log_row_count; reached_end = false }) w in
      let kept : AsyncLogger F = record l {
        log_file = some (record file { rows = s.written });
        log_row_count = s.row_count;
      } in
      let ended : AsyncLogger F = record kept { log_active = false } in
      rw (e, write_batch)
        (elim (Bool-cases (not l.log_active)) [
          | inl idle ↦ rw idle h
          | inr on ↦ elim (Bool-cases s.reached_end) [
            | inl past ↦
                rw (on, past)
                  (close_file-IsConsistent ended (record { window = grown; closed = h.closed }))
            | inr more ↦
                rw (on, more)
                  (record {
                    window =
                        flush_rows-KeepsWindow l.log_start_ns l.log_end_ns s.row_count
                          (record file { rows = s.written }) grown;
                    closed = h.closed;
                  })
          ]
        ])

  pub write_batch-IsConsistent :
      (batch : List (LogRecord F)) (l : AsyncLogger F)
      → IsConsistent l
      → IsConsistent (write_batch batch l)
  write_batch-IsConsistent batch l h = write_batch_lem batch l.log_file l refl h h.window

module _ {F : Type 0} ⦃d : Double F⦄ where
  pub process_round-IsConsistent :
      (l : AsyncLogger F) → IsConsistent l → IsConsistent (process_round l)
  unfolding process_round
  process_round-IsConsistent l h =
      let drained = drain zero_record l.log_queue [] in
      let counted : AsyncLogger F = record l {
        log_queue = drained.ring;
        dropped_count = (l.dropped_count + drained.dropped) % 2 ^ 64;
      } in
      let same : IsConsistent counted = record { window = h.window; closed = h.closed } in
      elim (Bool-cases (ltb 0 drained.count)) [
        | inl e ↦ rw e (write_batch-IsConsistent drained.out counted same)
        | inr e ↦ rw e same
      ]

  pub initial_logger-IsConsistent : IsConsistent {F = F} initial_logger
  unfolding initial_logger
  initial_logger-IsConsistent = record { window = tt; closed = tt }
