-- ===== src/Control.antt =====
-- The control laws of the real-time loop.
pub mod Slew
pub mod Velocity
pub mod Position
pub mod ForcePid
pub mod Force
