-- ===== src/Commands.antt =====
-- The commands of the operator, as text (v1) and as messages (v2).
pub mod Reader
pub mod Waveform
pub mod WaveformText
pub mod Force
pub mod ForceText
pub mod Spelling
