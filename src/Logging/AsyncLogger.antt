-- ===== src/Logging/AsyncLogger.antt =====
-- cpp/src/epos_control/include/logging/async_logger.hpp: class AsyncLogger. A file is its header line and
-- the records written after it, in order; a closed file joins `closed`. Whether a path can be opened is the
-- argument `opens`. `flushed` counts the rows that a flush has handed to the system; the header is flushed as it is written. The permissions
-- that a closed file gets are not modelled, and snprintf is taken to format every record.

pub mod Start
pub mod Window
pub mod Flush
pub mod Invariant
use Prim.Native.String.{String}
use motor_control.Base.{
  ℕ, zero, suc, ◌+◌, ◌%◌, ◌^◌, Bool, true, false, ◌&&◌, ◌||◌, not, ℤ, pos, lt_ℤ, le_ℤ, List, [],
  ◌∷◌, ◌++◌, Option, none, some, ltb, ◌==◌, length, if◌then◌else◌,
}
use motor_control.Double.{Double}
use motor_control.Ring.{RingBuffer, empty_ring, push, drain}
use motor_control.Logging.Record.{LogRecord, zero_record}

-- The open std::ofstream.
pub record LogFile (F : Type 0) : Type 0 where
  pub path : String
  pub header : String
  pub rows : List (LogRecord F)
  pub flushed : ℕ

pub record AsyncLogger (F : Type 0) : Type 0 where
  pub running : Bool
  pub log_file : Option (LogFile F)
  pub log_active : Bool
  pub log_start_ns : ℤ
  pub log_end_ns : ℤ
  pub log_row_count : ℕ
  pub dropped_count : ℕ
  pub log_queue : RingBuffer (LogRecord F)
  pub closed : List (LogFile F)

-- What the loop over a batch carries: the rows, their count, and whether the end was reached.
pub record BatchState (F : Type 0) : Type 0 where
  pub written : List (LogRecord F)
  pub row_count : ℕ
  pub reached_end : Bool

-- The line that names the columns.
abbrev pub csv_header : String
csv_header =
    "time_s,op_mode,target_pos,actual_pos,target_vel,actual_vel,target_trq,actual_trq,cycle_dt_us,status_word,error_code,waveform_type,load_cell_N,lc_ch0_N,lc_ch1_N,load_cell_abs_N,lc_ch0_abs_N,lc_ch1_abs_N,linear_encoder_count,linear_encoder_mm\n"

module _ {F : Type 0} where
  -- close_file_locked
  unfoldable pub close_file : AsyncLogger F → AsyncLogger F
  close_file l = elim l.log_file [
    | none ↦ l
    | some file ↦ record l {
      log_file = none;
      closed = record file { flushed = length file.rows } ∷ l.closed;
    }
  ]

  -- start_logging_window; the Bool is its result.
  unfoldable pub start_logging_window :
      (String → Bool) → String → ℤ → ℤ → AsyncLogger F → Bool × AsyncLogger F
  unfolding close_file
  start_logging_window opens path start_ns end_ns l =
      let free = close_file l in
      if opens path
      then (
        true,
        record free {
          log_file = some (record { path = path; header = csv_header; rows = []; flushed = 0 });
          log_start_ns = start_ns;
          log_end_ns = end_ns;
          log_row_count = 0;
          dropped_count = 0;
          log_active = true;
        },
      )
      else (false, free)

  -- start_logging, at the time of the call.
  unfoldable pub start_logging : (String → Bool) → String → ℤ → AsyncLogger F → Bool × AsyncLogger F
  start_logging opens path now_ns l = start_logging_window opens path now_ns (pos 0) l

  unfoldable pub stop_logging : AsyncLogger F → AsyncLogger F
  unfolding close_file
  stop_logging l = close_file (record l { log_active = false })

  -- init, but for the thread that it starts.
  unfoldable pub init : AsyncLogger F → AsyncLogger F
  init l = if l.running then l else record l { running = true }

  -- stop, when the thread has ended, and the destructor.
  unfoldable pub stop : AsyncLogger F → AsyncLogger F
  unfolding stop_logging
  stop l = stop_logging (record l { running = false })

  unfoldable pub push_record : AsyncLogger F → LogRecord F → AsyncLogger F
  push_record l rec = record l { log_queue = push l.log_queue rec }

  -- The body of the loop over a batch.
  pub write_row : ℤ → ℤ → LogRecord F → BatchState F → BatchState F
  write_row start_ns end_ns row s =
      if lt_ℤ row.timestamp_ns start_ns
      then s
      else if lt_ℤ (pos 0) end_ns && le_ℤ end_ns row.timestamp_ns
      then record s { reached_end = true }
      else record s { written = s.written ++ row ∷ []; row_count = (s.row_count + 1) % 2 ^ 64 }

  -- for (const auto& row : batch)
  pub write_rows : ℤ → ℤ → List (LogRecord F) → BatchState F → BatchState F
  write_rows start_ns end_ns [] s = s
  write_rows start_ns end_ns (row ∷ batch) s =
      write_rows start_ns end_ns batch (write_row start_ns end_ns row s)

  -- The flush after a batch, by the count of rows.
  unfoldable pub flush_rows : ℕ → LogFile F → LogFile F
  flush_rows row_count file =
      if ltb 0 row_count && (row_count % 1000 == 0)
      then record file { flushed = length file.rows }
      else file

  -- The body under the lock, for a batch that is not empty.
  pub write_batch : List (LogRecord F) → AsyncLogger F → AsyncLogger F
  unfolding close_file
  write_batch batch l = elim l.log_file [
    | none ↦ l
    | some file ↦
        let s =
          write_rows l.log_start_ns l.log_end_ns batch
            (record { written = file.rows; row_count = l.log_row_count; reached_end = false }) in
        let kept = record l {
          log_file = some (record file { rows = s.written });
          log_row_count = s.row_count;
        } in
        let flushed = record kept {
          log_file = some (flush_rows s.row_count (record file { rows = s.written }));
        } in
        if not l.log_active
        then l
        else if s.reached_end
        then close_file (record kept { log_active = false })
        else flushed
  ]

module _ {F : Type 0} ⦃d : Double F⦄ where
  -- One round of process_loop. The batch vector is empty at its start.
  pub process_round : AsyncLogger F → AsyncLogger F
  unfolding write_batch
  process_round l =
      let drained = drain zero_record l.log_queue [] in
      let counted = record l {
        log_queue = drained.ring;
        dropped_count = (l.dropped_count + drained.dropped) % 2 ^ 64;
      } in
      if ltb 0 drained.count then write_batch drained.out counted else counted

  unfoldable pub initial_logger : AsyncLogger F
  initial_logger = record {
    running = false;
    log_file = none;
    log_active = false;
    log_start_ns = pos 0;
    log_end_ns = pos 0;
    log_row_count = 0;
    dropped_count = 0;
    log_queue = empty_ring 4096 zero_record;
    closed = [];
  }

  -- process_loop, for as many rounds as `running_` stays set.
  unfoldable pub process_rounds : ℕ → AsyncLogger F → AsyncLogger F
  unfolding process_round
  process_rounds zero l = l
  process_rounds (suc n) l = process_rounds n (process_round l)
