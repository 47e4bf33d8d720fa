-- ===== src/Ethercat/Axis/Handover.antt =====
-- cpp/src/epos_control/include/ethercat/axis_config.hpp: the handover of a waveform between threads.
use motor_control.Base.{◌≡◌, ◌≤◌, arith}
use motor_control.Waveform.{WaveformType, WaveformConfig}
use motor_control.Ethercat.Axis.{
  DoubleBuffer, get_copy, write_standby, switch_active, set_waveform, stop_waveform,
}

module _ {F : Type 0} where
  pub set_waveform_index :
      (wf : WaveformConfig F) (b : DoubleBuffer F) → (set_waveform wf b).active_idx ≤ 1
  unfolding set_waveform write_standby switch_active
  set_waveform_index wf b = ground arith

  pub stop_waveform_index : (b : DoubleBuffer F) → (stop_waveform b).active_idx ≤ 1
  unfolding stop_waveform set_waveform write_standby switch_active
  stop_waveform_index b = ground arith

  -- With a buffer index of at most 1: writing the standby buffer is invisible to the reader, a
  -- set waveform is what the reader gets next, and the index stays at most 1.
  pub handover :
      (wf : WaveformConfig F) (b : DoubleBuffer F)
      → b.active_idx ≤ 1
      → (get_copy (write_standby wf b) ≡ get_copy b)
        × (get_copy (set_waveform wf b) ≡ wf)
        × ((set_waveform wf b).active_idx ≤ 1)
  unfolding get_copy write_standby set_waveform switch_active
  handover wf b h = ground arith

  -- With a buffer index of at most 1, the reader gets after a stop the waveform it had before,
  -- but for the type, which is none.
  pub stop_keeps :
      (b : DoubleBuffer F)
      → b.active_idx ≤ 1
      → get_copy (stop_waveform b) ≡ record (get_copy b) { type = WaveformType.none }
  unfolding get_copy stop_waveform set_waveform write_standby switch_active
  stop_keeps b h = ground arith
