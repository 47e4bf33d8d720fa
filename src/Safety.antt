-- ===== src/Safety.antt =====
-- The safety guards of the real-time loop.
pub mod ForceLimit
pub mod Output
