-- ===== src/Waveform.antt =====
-- cpp/src/epos_control/include/waveform/waveform_generator.hpp: the waveform record and the value
-- of a waveform at a time. `compute` is split as the source's body is: the guards, then the switch.
pub mod Window
pub mod Hysteresis
use motor_control.Base.{
  ℕ, Bool, true, false, ◌&&◌, ◌||◌, ℤ, pos, negsuc, ◌-ℤ◌, to_i32, to_i64, if◌then◌else◌,
}
use motor_control.Double.{Double, ◌⊕◌, ◌⊖◌, ◌⊗◌, ◌⊘◌, nought}

-- enum class WaveformType
pub data WaveformType : Type 0 where
  none sine square triangle chirp position_sine : WaveformType

abbrev pub is_none : WaveformType → Bool
is_none WaveformType.none = true
is_none _ = false

abbrev pub is_position_sine : WaveformType → Bool
is_position_sine WaveformType.position_sine = true
is_position_sine _ = false

-- static_cast<int>(type), as the log writes it.
unfoldable pub type_code : WaveformType → ℤ
type_code WaveformType.none = pos 0
type_code WaveformType.sine = pos 1
type_code WaveformType.square = pos 2
type_code WaveformType.triangle = pos 3
type_code WaveformType.chirp = pos 4
type_code WaveformType.position_sine = pos 5

-- struct WaveformConfig
pub record WaveformConfig (F : Type 0) : Type 0 where
  pub type : WaveformType
  pub freq_hz : F
  pub amp_rpm : F
  pub offset_rpm : F
  pub start_ns : ℤ
  pub amp_pos_ticks : F
  pub offset_pos_ticks : F
  pub max_pos_tps : F
  pub freq_end_hz : F
  pub duration_s : F

module _ {F : Type 0} ⦃d : Double F⦄ where
  open d use {lit, of_int, lt, le, lround, sin, fmod}

  -- The member initialisers of WaveformConfig.
  abbrev pub default_config : WaveformConfig F
  default_config = record {
    type = WaveformType.none;
    freq_hz = lit (pos 1) 0;
    amp_rpm = lit (pos 500) 0;
    offset_rpm = nought;
    start_ns = pos 0;
    amp_pos_ticks = nought;
    offset_pos_ticks = nought;
    max_pos_tps = nought;
    freq_end_hz = lit (pos 10) 0;
    duration_s = nought;
  }

  -- M_PI
  abbrev pub pi : F
  pi = lit (pos 314159265358979323846) 20

  -- static_cast<double>(now_ns - start_ns) / 1.0e9
  abbrev pub elapsed_s : ℤ → ℤ → F
  elapsed_s now_ns start_ns = of_int (to_i64 (now_ns -ℤ start_ns)) ⊘ lit (pos 1000000000) 0

  unfoldable pub square_sign : F → F
  square_sign phase =
      if lt (fmod phase (lit (pos 1) 0)) (lit (pos 5) 1) then lit (pos 1) 0 else lit (negsuc 0) 0

  unfoldable pub triangle_at : F → F
  triangle_at t =
      if lt t (lit (pos 25) 2)
      then lit (pos 4) 0 ⊗ t
      else if lt t (lit (pos 75) 2)
      then lit (pos 2) 0 ⊖ lit (pos 4) 0 ⊗ t
      else lit (pos 4) 0 ⊗ t ⊖ lit (pos 4) 0

  -- The switch over the type.
  unfoldable pub wave_value : WaveformType → WaveformConfig F → F → F
  wave_value WaveformType.sine wf elapsed =
      wf.offset_rpm ⊕ wf.amp_rpm ⊗ sin (lit (pos 2) 0 ⊗ pi ⊗ (wf.freq_hz ⊗ elapsed))
  wave_value WaveformType.square wf elapsed =
      wf.offset_rpm ⊕ wf.amp_rpm ⊗ square_sign (wf.freq_hz ⊗ elapsed)
  wave_value WaveformType.triangle wf elapsed =
      wf.offset_rpm ⊕ wf.amp_rpm ⊗ triangle_at (fmod (wf.freq_hz ⊗ elapsed) (lit (pos 1) 0))
  wave_value WaveformType.chirp wf elapsed =
      let cum_phase =
        wf.freq_hz ⊗ elapsed
        ⊕ (wf.freq_end_hz ⊖ wf.freq_hz) ⊗ elapsed ⊗ elapsed ⊘ (lit (pos 2) 0 ⊗ wf.duration_s) in
      wf.offset_rpm ⊕ wf.amp_rpm ⊗ sin (lit (pos 2) 0 ⊗ pi ⊗ cum_phase)
  wave_value WaveformType.position_sine wf elapsed = nought
  wave_value WaveformType.none wf elapsed = nought

  -- waveform::compute
  unfoldable pub compute : WaveformConfig F → ℤ → ℤ
  compute wf now_ns =
      let elapsed = elapsed_s now_ns wf.start_ns in
      if is_none wf.type
      then pos 0
      else if lt elapsed nought
      then pos 0
      else if lt nought wf.duration_s && le wf.duration_s elapsed
      then pos 0
      else to_i32 (lround (wave_value wf.type wf elapsed))
