-- ===== src/Commands/WaveformText.antt =====
-- cpp/src/epos_control/include/commands/command_parsing.hpp and the parser of
-- cpp/src/epos_control/include/waveform/waveform_generator.hpp: the v1 waveform text.
pub mod Names
use Prim.Native.String.{String}
use text.Mathlib.Text.{◌==◌ as str_eq}
use motor_control.Base.{Bool, true, false, ◌||◌, ℤ, pos, some, if◌then◌else◌}
use motor_control.Double.{Double, nought, fclamp}
use motor_control.Waveform.{WaveformType, WaveformConfig, default_config, is_none}
use motor_control.Commands.Reader.{
  TextReader, Stream, good, read_number, read_integer, read_word, read_line,
}
use motor_control.Commands.Waveform.{
  HystVelocityCommand, HystPositionCommand, WaveformCommandKind, CommandError, WaveformCommand,
  no_command, invalid_command, clamp_amp, clamp_offset,
}

unfoldable pub waveform_type_from_string : String → WaveformType
waveform_type_from_string s =
    if str_eq s "sine"
    then WaveformType.sine
    else if str_eq s "square"
    then WaveformType.square
    else if str_eq s "triangle"
    then WaveformType.triangle
    else if str_eq s "chirp"
    then WaveformType.chirp
    else WaveformType.none

unfoldable pub waveform_type_to_string : WaveformType → String
waveform_type_to_string WaveformType.sine = "sine"
waveform_type_to_string WaveformType.square = "square"
waveform_type_to_string WaveformType.triangle = "triangle"
waveform_type_to_string WaveformType.chirp = "chirp"
waveform_type_to_string WaveformType.position_sine = "position_sine"
waveform_type_to_string WaveformType.none = "none"

-- waveform::ParseResult
pub record ParseResult (F : Type 0) : Type 0 where
  pub config : WaveformConfig F
  pub is_stop : Bool
  pub error : CommandError

-- commands::CommandParseResult<T>
pub record CommandParseResult (T : Type 0) : Type 0 where
  pub ok : Bool
  pub value : T

module _ {F : Type 0} ⦃d : Double F⦄ (reader : TextReader F) where
  open d use {lit}

  -- iss >> f0 >> f1 >> amp >> offset >> dur
  unfoldable pub parse_chirp : Stream → ℤ → ℤ → WaveformConfig F
  parse_chirp iss max_abs now_ns =
      let (f0, iss1) = read_number reader iss (lit (pos 1) 1) in
      let (f1, iss2) = read_number reader iss1 (lit (pos 10) 0) in
      let (amp, iss3) = read_number reader iss2 (lit (pos 500) 0) in
      let (offset, iss4) = read_number reader iss3 nought in
      let (dur, iss5) = read_number reader iss4 (lit (pos 30) 0) in
      record default_config {
        type = WaveformType.chirp;
        start_ns = now_ns;
        freq_hz = fclamp (lit (pos 1) 3) (lit (pos 500) 0) f0;
        freq_end_hz = fclamp (lit (pos 1) 3) (lit (pos 500) 0) f1;
        duration_s = fclamp (lit (pos 1) 0) (lit (pos 3600) 0) dur;
        amp_rpm = clamp_amp max_abs amp;
        offset_rpm = clamp_offset max_abs offset;
      }

  -- iss >> freq >> amp >> offset, then a duration if there is one.
  unfoldable pub parse_wave : WaveformType → Stream → ℤ → ℤ → WaveformConfig F
  parse_wave type iss max_abs now_ns =
      let (freq, iss1) = read_number reader iss (lit (pos 1) 0) in
      let (amp, iss2) = read_number reader iss1 (lit (pos 500) 0) in
      let (offset, iss3) = read_number reader iss2 nought in
      let (dur, iss4) = read_number reader iss3 nought in
      record default_config {
        type = type;
        start_ns = now_ns;
        freq_hz = fclamp (lit (pos 1) 3) (lit (pos 1000) 0) freq;
        duration_s = if good iss4 then fclamp nought (lit (pos 3600) 0) dur else nought;
        amp_rpm = clamp_amp max_abs amp;
        offset_rpm = clamp_offset max_abs offset;
      }

  abbrev parse_type : WaveformType → Stream → ℤ → ℤ → WaveformConfig F
  parse_type WaveformType.chirp iss max_abs now_ns = parse_chirp iss max_abs now_ns
  parse_type type iss max_abs now_ns = parse_wave type iss max_abs now_ns

  -- waveform::parse_command
  unfoldable pub parse_command : String → ℤ → ℤ → ParseResult F
  parse_command cmd max_abs now_ns =
      let (type_str, iss) = read_word reader (some cmd) "" in
      let type = waveform_type_from_string type_str in
      if str_eq type_str "none" || str_eq type_str "stop"
      then record { config = default_config; is_stop = true; error = CommandError.no_error }
      else if is_none type
      then record {
        config = default_config;
        is_stop = false;
        error = CommandError.unknown_waveform type_str;
      }
      else record {
        config = parse_type type iss max_abs now_ns;
        is_stop = false;
        error = CommandError.no_error;
      }

  -- first_token
  unfoldable pub first_token : String → String
  first_token cmd = (read_word reader (some cmd) "").0

  unfoldable pub parse_hyst_velocity : String → CommandParseResult (HystVelocityCommand F)
  parse_hyst_velocity cmd =
      let old : HystVelocityCommand F = no_command.hyst_velocity in
      let (action, iss0) = read_word reader (some cmd) "" in
      let (freq, iss1) = read_number reader iss0 old.freq_hz in
      let (amp, iss2) = read_number reader iss1 old.amp_rpm in
      let (offset, iss3) = read_number reader iss2 old.offset_rpm in
      let (settle, iss4) = read_integer reader iss3 old.settle_cycles in
      let (record_cycles, iss5) = read_integer reader iss4 old.record_cycles in
      record {
        ok = good iss5;
        value = record {
          freq_hz = freq;
          amp_rpm = amp;
          offset_rpm = offset;
          settle_cycles = settle;
          record_cycles = record_cycles;
          path = if good iss5 then read_line reader iss5 else "";
        };
      }

  unfoldable pub parse_hyst_position : String → CommandParseResult (HystPositionCommand F)
  parse_hyst_position cmd =
      let old : HystPositionCommand F = no_command.hyst_position in
      let (action, iss0) = read_word reader (some cmd) "" in
      let (freq, iss1) = read_number reader iss0 old.freq_hz in
      let (amp, iss2) = read_number reader iss1 old.amp_ticks in
      let (offset, iss3) = read_number reader iss2 old.offset_ticks in
      let (max_tps, iss4) = read_number reader iss3 old.max_tps in
      let (settle, iss5) = read_integer reader iss4 old.settle_cycles in
      let (record_cycles, iss6) = read_integer reader iss5 old.record_cycles in
      record {
        ok = good iss6;
        value = record {
          freq_hz = freq;
          amp_ticks = amp;
          offset_ticks = offset;
          max_tps = max_tps;
          settle_cycles = settle;
          record_cycles = record_cycles;
          path = if good iss6 then read_line reader iss6 else "";
        };
      }

  -- The result of parse_command as a command; only an unknown type is an error of it.
  unfoldable pub general_command : CommandError → ParseResult F → WaveformCommand F
  general_command CommandError.no_error parsed =
      if parsed.is_stop
      then record no_command { kind = WaveformCommandKind.stop }
      else record no_command { kind = WaveformCommandKind.start_general; config = parsed.config }
  general_command error parsed = invalid_command error

  unfoldable pub waveform_command_from_string : String → ℤ → ℤ → WaveformCommand F
  waveform_command_from_string cmd max_abs now_ns =
      let action = first_token cmd in
      let velocity = parse_hyst_velocity cmd in
      let position = parse_hyst_position cmd in
      let parsed = parse_command cmd max_abs now_ns in
      if str_eq action "hyst_sine"
      then (if velocity.ok
          then record no_command {
            kind = WaveformCommandKind.start_hyst_velocity;
            hyst_velocity = velocity.value;
          }
          else invalid_command CommandError.bad_hyst_sine)
      else if str_eq action "hyst_pos_sine"
      then (if position.ok
          then record no_command {
            kind = WaveformCommandKind.start_hyst_position;
            hyst_position = position.value;
          }
          else invalid_command CommandError.bad_hyst_pos_sine)
      else general_command parsed.error parsed
