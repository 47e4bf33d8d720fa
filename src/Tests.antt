-- ===== src/Tests.antt =====
-- Runs of the theorems on concrete inputs, over the numbers of Double/Fixed.
pub mod Data
mod Rounds
mod Parts
mod Logs
mod Runs
mod Controls
mod Texts
mod Plans
mod Silences
mod Protocols
pub mod Master
mod Helpers
mod Latches
