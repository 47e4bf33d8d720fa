-- ===== src/Ethercat/Axis.antt =====
-- cpp/src/epos_control/include/ethercat/axis_config.hpp: the state of the axis and the double buffers
-- through which a callback hands a waveform to the real-time loop without a lock.
pub mod Handover
pub mod Copy
use motor_control.Base.{ℕ, zero, suc, List, [], ◌∷◌, ◌-◌, Bool, ℤ, pos, ◌==◌, if◌then◌else◌}
use motor_control.Double.{Double}
use motor_control.Waveform.{WaveformType, WaveformConfig, default_config}

-- WaveformConfig buffers[2] and the index of the active one.
pub record DoubleBuffer (F : Type 0) : Type 0 where
  pub buffer0 : WaveformConfig F
  pub buffer1 : WaveformConfig F
  pub active_idx : ℕ

module _ {F : Type 0} where
  -- buffers[idx]
  abbrev pub buffer_at : DoubleBuffer F → ℕ → WaveformConfig F
  buffer_at b idx = if idx == 0 then b.buffer0 else b.buffer1

  -- get_waveform_copy and get_force_wf_copy
  unfoldable pub get_copy : DoubleBuffer F → WaveformConfig F
  get_copy b = buffer_at b b.active_idx

  -- buffers[1 - idx] = wf, the first half of a set.
  pub write_standby : WaveformConfig F → DoubleBuffer F → DoubleBuffer F
  write_standby wf b =
      if 1 - b.active_idx == 0 then record b { buffer0 = wf } else record b { buffer1 = wf }

  -- idx.store(1 - idx), the second half.
  pub switch_active : DoubleBuffer F → DoubleBuffer F
  switch_active b = record b { active_idx = 1 - b.active_idx }

  -- set_waveform and set_force_waveform
  pub set_waveform : WaveformConfig F → DoubleBuffer F → DoubleBuffer F
  unfolding write_standby switch_active
  set_waveform wf b = switch_active (write_standby wf b)

  -- stop_waveform and stop_force_waveform
  pub stop_waveform : DoubleBuffer F → DoubleBuffer F
  unfolding set_waveform
  stop_waveform b = set_waveform (record (buffer_at b b.active_idx) { type = WaveformType.none }) b

-- What the writer may do between two loads of the reader.
pub data Move (F : Type 0) : Type 0 where
  write : WaveformConfig F → Move F
  switch : Move F

module _ {F : Type 0} where
  -- A set is `write wf`, then `switch`.
  pub move : Move F → DoubleBuffer F → DoubleBuffer F
  unfolding write_standby switch_active
  move (Move.write wf) b = write_standby wf b
  move Move.switch b = switch_active b

  pub moves : List (Move F) → DoubleBuffer F → DoubleBuffer F
  moves [] b = b
  moves (m ∷ ms) b = moves ms (move m b)

  -- The buffers when the reader copies the field `k`, where `between k` is what the writer does just
  -- before.
  pub buffers_at : (ℕ → List (Move F)) → DoubleBuffer F → ℕ → DoubleBuffer F
  buffers_at between b zero = moves (between 0) b
  buffers_at between b (suc k) = moves (between (suc k)) (buffers_at between b k)

  -- get_waveform_copy and get_force_wf_copy, with the index loaded first and then field by field.
  pub copy_during : (ℕ → List (Move F)) → DoubleBuffer F → WaveformConfig F
  copy_during between b =
      let source = λ (k : ℕ). buffer_at (buffers_at between b k) b.active_idx in
      record {
        type = (source 0).type;
        freq_hz = (source 1).freq_hz;
        amp_rpm = (source 2).amp_rpm;
        offset_rpm = (source 3).offset_rpm;
        start_ns = (source 4).start_ns;
        amp_pos_ticks = (source 5).amp_pos_ticks;
        offset_pos_ticks = (source 6).offset_pos_ticks;
        max_pos_tps = (source 7).max_pos_tps;
        freq_end_hz = (source 8).freq_end_hz;
        duration_s = (source 9).duration_s;
      }

-- struct AxisState; `slave_index` is the master's number of the drive.
pub record AxisState (F : Type 0) : Type 0 where
  pub slave_index : ℤ
  pub op_mode : ℤ
  pub wf : DoubleBuffer F
  pub last_pos : ℤ
  pub last_vel : ℤ
  pub last_trq : ℤ
  pub last_status : ℕ
  pub last_error_code : ℤ
  pub force_wf : DoubleBuffer F
