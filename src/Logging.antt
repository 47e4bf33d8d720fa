-- ===== src/Logging.antt =====
-- The asynchronous CSV logger.
pub mod Record
pub mod AsyncLogger
