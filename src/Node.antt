-- ===== src/Node.antt =====
-- cpp/src/epos_control/src/epos_motor_node.cpp: class EposNode.
pub mod Latch
pub mod Calm
pub mod Silence
pub mod Life
pub mod State
pub mod Cycle
pub mod Start
pub mod Invariant
pub mod Topics
pub mod Commands
pub mod ForceCommands
pub mod LogCommands
pub mod Feedback
pub mod Step
