-- ===== src/Commands/Waveform/Ranges.antt =====
-- cpp/src/epos_control/include/commands/command_parsing.hpp: what a WaveformCmd can start.
use motor_control.Base.{◌≡◌, refl, false, ℤ, pos, ◌≤ℤ◌, neg_ℤ, arith}
use motor_control.Double.{Double, nought, ◌≼◌}
use motor_control.Double.Laws.{IsOrdered, fclamp_bounds}
use motor_control.Waveform.{WaveformType, WaveformConfig, is_none, is_position_sine}
use motor_control.Commands.Waveform.{
  WaveformCommandKind, WaveformCommand, WaveformCmd, start_chirp, start_wave, start_from_msg,
  waveform_type_from_msg, waveform_command_from_msg,
}

module _ {F : Type 0} ⦃d : Double F⦄ where
  open d use {lit, of_int}

  -- A waveform that may be started: a velocity waveform with every number in its range.
  pub record InRange (max_abs : ℤ) (wf : WaveformConfig F) : Type 0 where
    pub type : (is_none wf.type ≡ false) × (is_position_sine wf.type ≡ false)
    pub freq : (lit (pos 1) 3 ≼ wf.freq_hz) × (wf.freq_hz ≼ lit (pos 1000) 0)
    pub duration : (nought ≼ wf.duration_s) × (wf.duration_s ≼ lit (pos 3600) 0)
    pub amp : (nought ≼ wf.amp_rpm) × (wf.amp_rpm ≼ of_int max_abs)
    pub offset : (of_int (neg_ℤ max_abs) ≼ wf.offset_rpm) × (wf.offset_rpm ≼ of_int max_abs)

  -- A start that is accepted has its waveform in range.
  abbrev StartsInRange : ℤ → WaveformCommand F → Type 0
  StartsInRange max_abs c = (c.kind ≡ WaveformCommandKind.start_general) → InRange max_abs c.config

module _ {F : Type 0} ⦃d : Double F⦄ (laws : IsOrdered F) where
  open d use {lit, of_int}
  open laws use {lit_mono, of_int_mono, le_trans, nought_lem}

  start_chirp-InRange :
      (msg : WaveformCmd F) (max_abs now : ℤ)
      → pos 0 ≤ℤ max_abs
      → StartsInRange max_abs (start_chirp msg max_abs now)
  unfolding start_chirp
  start_chirp-InRange msg max_abs now h e =
      let zero_le : nought ≼ of_int max_abs =
        ground (arith, nought_lem, of_int_mono (pos 0) max_abs) in
      let neg_le : of_int (neg_ℤ max_abs) ≼ of_int max_abs =
        ground (arith, of_int_mono (neg_ℤ max_abs) max_abs) in
      let f =
        fclamp_bounds laws (lit (pos 1) 3) (lit (pos 500) 0) msg.freq_hz
          (lit_mono 1 500 3 0 (omega arith)) in
      let t =
        fclamp_bounds laws (lit (pos 1) 0) (lit (pos 3600) 0) msg.duration_s
          (lit_mono 1 3600 0 0 (omega arith)) in
      let a = fclamp_bounds laws nought (of_int max_abs) msg.amp_rpm zero_le in
      let o = fclamp_bounds laws (of_int (neg_ℤ max_abs)) (of_int max_abs) msg.offset_rpm neg_le in
      let f' = le_trans _ _ _ f.1 (lit_mono 500 1000 0 0 (omega arith)) in
      let t' = le_trans _ _ _ (lit_mono 0 1 0 0 (omega arith)) t.0 in
      ground (arith, e, f, t, a, o, f', t')

  start_wave-InRange :
      (type : WaveformType) (msg : WaveformCmd F) (max_abs now : ℤ)
      → is_none type ≡ false
      → is_position_sine type ≡ false
      → pos 0 ≤ℤ max_abs
      → StartsInRange max_abs (start_wave type msg max_abs now)
  unfolding start_wave
  start_wave-InRange type msg max_abs now n p h e =
      let zero_le : nought ≼ of_int max_abs =
        ground (arith, nought_lem, of_int_mono (pos 0) max_abs) in
      let neg_le : of_int (neg_ℤ max_abs) ≼ of_int max_abs =
        ground (arith, of_int_mono (neg_ℤ max_abs) max_abs) in
      let f =
        fclamp_bounds laws (lit (pos 1) 3) (lit (pos 1000) 0) msg.freq_hz
          (lit_mono 1 1000 3 0 (omega arith)) in
      let t =
        fclamp_bounds laws nought (lit (pos 3600) 0) msg.duration_s
          (lit_mono 0 3600 0 0 (omega arith)) in
      let a = fclamp_bounds laws nought (of_int max_abs) msg.amp_rpm zero_le in
      let o = fclamp_bounds laws (of_int (neg_ℤ max_abs)) (of_int max_abs) msg.offset_rpm neg_le in
      ground (arith, e, n, p, f, t, a, o)

  start_from_msg-InRange :
      (type : WaveformType) (msg : WaveformCmd F) (max_abs now : ℤ)
      → pos 0 ≤ℤ max_abs
      → StartsInRange max_abs (start_from_msg type msg max_abs now)
  unfolding start_from_msg
  start_from_msg-InRange WaveformType.none msg max_abs now h e = ground (arith, e)
  start_from_msg-InRange WaveformType.position_sine msg max_abs now h e = ground (arith, e)
  start_from_msg-InRange WaveformType.chirp msg max_abs now h e =
      start_chirp-InRange msg max_abs now h e
  start_from_msg-InRange WaveformType.sine msg max_abs now h e =
      start_wave-InRange WaveformType.sine msg max_abs now refl refl h e
  start_from_msg-InRange WaveformType.square msg max_abs now h e =
      start_wave-InRange WaveformType.square msg max_abs now refl refl h e
  start_from_msg-InRange WaveformType.triangle msg max_abs now h e =
      start_wave-InRange WaveformType.triangle msg max_abs now refl refl h e

  -- With numbers ordered as IEEE 754 documents and a speed limit that is not negative, a
  -- WaveformCmd that is accepted as a general start gives a waveform that is neither off nor a
  -- position sine, with a frequency between 0.001 and 1000 Hz, a duration between 0 and 3600 s,
  -- an amplitude between 0 and the limit and an offset within plus or minus the limit.
  pub waveform_command_from_msg-InRange :
      (msg : WaveformCmd F) (max_abs now : ℤ)
      → pos 0 ≤ℤ max_abs
      → (waveform_command_from_msg msg max_abs now).kind ≡ WaveformCommandKind.start_general
      → InRange max_abs (waveform_command_from_msg msg max_abs now).config
  unfolding waveform_command_from_msg
  waveform_command_from_msg-InRange msg max_abs now h e =
      let start =
        start_from_msg-InRange (waveform_type_from_msg msg.waveform_type) msg max_abs now h in
      ground (arith, e, start)
