-- ===== src/Util.antt =====
-- cpp/src/epos_control/include/util and include/logging/file_utils.hpp: the helpers around the system.
pub mod Net
pub mod Files
pub mod Realtime
