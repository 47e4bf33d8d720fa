-- ===== src/Ethercat.antt =====
-- The drive: its status word, its process data and the axis that the node keeps of it.
pub mod Master
pub mod Cia402
pub mod Pdo
pub mod Setup
pub mod Axis
pub mod ErrorCodes
