-- ===== src/Commands/Spelling.antt =====
-- cpp/src/epos_control/include/commands/command_parsing.hpp: when a v1 text says what a v2 message says.
pub mod Waves
pub mod Hysteresis
use Prim.Native.String.{String}
use motor_control.Base.{◌≡◌, refl, ◌∙◌, ap, pos, Bool, true, false, ◌||◌, ◌&&◌, ℤ, arith, some}
use motor_control.Double.{Double, nought}
use motor_control.Waveform.{WaveformType, is_none, is_position_sine}
use motor_control.Commands.Reader.{TextReader, Extract, extract}
use motor_control.Commands.Waveform.{
  HystVelocityCommand, HystPositionCommand, WaveformCommandKind, no_command, started, WaveformCmd,
  waveform_type_from_msg, waveform_command_from_msg, start_from_msg, start_wave, start_chirp,
}
use motor_control.Commands.WaveformText.{
  waveform_type_from_string, waveform_type_to_string, parse_chirp, parse_wave, parse_command,
  first_token, parse_hyst_velocity, parse_hyst_position, general_command,
  waveform_command_from_string,
}

-- The types whose command has one frequency.
abbrev pub is_plain : WaveformType → Bool
is_plain WaveformType.sine = true
is_plain WaveformType.square = true
is_plain WaveformType.triangle = true
is_plain _ = false

-- An extraction that reads a value.
pub extract_value :
    {A : Type 0} (read : String → Extract A) (zero_value : A) (text : String) (x : A)
    (rest : String) (old : A)
    → read text ≡ Extract.value x rest
    → extract read zero_value (some text) old ≡ (x, some rest)
unfolding extract
extract_value read zero_value text x rest old h = ground (arith, h)

module _ {F : Type 0} where
  -- The tests that a message describes.
  abbrev pub velocity_of : WaveformCmd F → HystVelocityCommand F
  velocity_of msg = record {
    freq_hz = msg.freq_hz;
    amp_rpm = msg.amp_rpm;
    offset_rpm = msg.offset_rpm;
    settle_cycles = msg.settle_cycles;
    record_cycles = msg.record_cycles;
    path = msg.log_path;
  }

  abbrev pub position_of : WaveformCmd F → HystPositionCommand F
  position_of msg = record {
    freq_hz = msg.freq_hz;
    amp_ticks = msg.amp_pos_ticks;
    offset_ticks = msg.offset_pos_ticks;
    max_tps = msg.max_pos_tps;
    settle_cycles = msg.settle_cycles;
    record_cycles = msg.record_cycles;
    path = msg.log_path;
  }

module _ {F : Type 0} ⦃d : Double F⦄ (reader : TextReader F) where
  open d use {is_finite}

  -- The first word of a text, and what is left of it.
  abbrev pub Begins : String → String → String → Type 0
  Begins cmd token rest = reader.word cmd ≡ Extract.value token rest

  -- The two ways give the same command.
  abbrev pub Agrees : String → WaveformCmd F → ℤ → ℤ → Type 0
  Agrees cmd msg max_abs now =
      waveform_command_from_string reader cmd max_abs now
      ≡ waveform_command_from_msg msg max_abs now

  -- The number at the head of a text is this one, which is finite, and what is left of it.
  abbrev pub Reads : String → F → String → Type 0
  Reads text x left = (reader.number text ≡ Extract.value x left) × (is_finite x ≡ true)

  -- The text says what the message says: its first word names the action or the type, and what is read
  -- after it are the values of the message.
  pub data Spells (cmd : String) (msg : WaveformCmd F) : Type 0 where
    stop : (rest : String) → Begins cmd "stop" rest → msg.action ≡ 2 → Spells cmd msg
    wave :
        (type : WaveformType) (rest rest_amp rest_offset rest_dur left : String)
        → is_plain type ≡ true
        → Begins cmd (waveform_type_to_string type) rest
        → Reads rest msg.freq_hz rest_amp
        → Reads rest_amp msg.amp_rpm rest_offset
        → Reads rest_offset msg.offset_rpm rest_dur
        → Reads rest_dur msg.duration_s left
        → waveform_type_from_msg msg.waveform_type ≡ type
        → msg.action ≡ 1
        → Spells cmd msg
    chirp :
        (rest rest_end rest_amp rest_offset rest_dur left : String)
        → Begins cmd "chirp" rest
        → Reads rest msg.freq_hz rest_end
        → Reads rest_end msg.freq_end_hz rest_amp
        → Reads rest_amp msg.amp_rpm rest_offset
        → Reads rest_offset msg.offset_rpm rest_dur
        → Reads rest_dur msg.duration_s left
        → waveform_type_from_msg msg.waveform_type ≡ WaveformType.chirp
        → msg.action ≡ 1
        → Spells cmd msg
    hyst_velocity :
        (rest rest_amp rest_offset rest_settle rest_record left : String)
        → Begins cmd "hyst_sine" rest
        → reader.number rest ≡ Extract.value msg.freq_hz rest_amp
        → reader.number rest_amp ≡ Extract.value msg.amp_rpm rest_offset
        → reader.number rest_offset ≡ Extract.value msg.offset_rpm rest_settle
        → reader.integer rest_settle ≡ Extract.value msg.settle_cycles rest_record
        → reader.integer rest_record ≡ Extract.value msg.record_cycles left
        → reader.line left ≡ msg.log_path
        → msg.action ≡ 3
        → Spells cmd msg
    hyst_position :
        (rest rest_amp rest_offset rest_tps rest_settle rest_record left : String)
        → Begins cmd "hyst_pos_sine" rest
        → reader.number rest ≡ Extract.value msg.freq_hz rest_amp
        → reader.number rest_amp ≡ Extract.value msg.amp_pos_ticks rest_offset
        → reader.number rest_offset ≡ Extract.value msg.offset_pos_ticks rest_tps
        → reader.number rest_tps ≡ Extract.value msg.max_pos_tps rest_settle
        → reader.integer rest_settle ≡ Extract.value msg.settle_cycles rest_record
        → reader.integer rest_record ≡ Extract.value msg.record_cycles left
        → reader.line left ≡ msg.log_path
        → msg.action ≡ 4
        → Spells cmd msg

  pub first_token_lem :
      (cmd token rest : String) → Begins cmd token rest → first_token reader cmd ≡ token
  unfolding first_token
  first_token_lem cmd token rest h =
      ap (λ p. p.0) (extract_value reader.word "" cmd token rest "" h)
