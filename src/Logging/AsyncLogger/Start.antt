-- ===== src/Logging/AsyncLogger/Start.antt =====
-- cpp/src/epos_control/include/logging/async_logger.hpp: the start and the end of a log.
use Prim.Native.String.{String}
use motor_control.Base.{◌≡◌, Bool, true, ℤ, List, [], ◌∷◌, none, some, length, arith, if◌then◌else◌}
use motor_control.Logging.AsyncLogger.{
  csv_header, LogFile, AsyncLogger, close_file, start_logging_window,
}

module _ {F : Type 0} where
  -- The closed files once the open one has joined them.
  abbrev pub files_after : AsyncLogger F → List (LogFile F)
  files_after l = elim l.log_file [
    | none ↦ l.closed
    | some file ↦ record file { flushed = length file.rows } ∷ l.closed
  ]

  -- Starting a log closes the file that was open and keeps the queue. If the path can be
  -- opened, an empty file is open and the log active; if not, no file is open and the log is as
  -- active as it was.
  pub start_lem :
      (opens : String → Bool) (path : String) (start_ns end_ns : ℤ) (l : AsyncLogger F)
      → let (ok, m) = start_logging_window opens path start_ns end_ns l in
        (ok ≡ opens path)
        × (m.closed ≡ files_after l)
        × (m.log_queue ≡ l.log_queue)
        × (m.log_file ≡ (
            if opens path
            then some (record { path = path; header = csv_header; rows = []; flushed = 0 })
            else none))
        × (m.log_active ≡ (if opens path then true else l.log_active))
  unfolding start_logging_window close_file
  start_lem opens path start_ns end_ns l = ground arith
