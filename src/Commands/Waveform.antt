-- ===== src/Commands/Waveform.antt =====
-- cpp/src/epos_control/include/commands/command_parsing.hpp: waveform commands, and the v2 message
-- WaveformCmd as a command. The text of an error is a constructor of `CommandError`.
pub mod Ranges
use Prim.Native.String.{String}
use motor_control.Base.{
  ℕ, Bool, true, false, ◌&&◌, ◌||◌, not, ℤ, pos, negsuc, neg_ℤ, ◌==◌, if◌then◌else◌,
}
use motor_control.Double.{Double, nought, fmin, fmax, fclamp}
use motor_control.Waveform.{WaveformType, WaveformConfig, default_config, is_none, is_position_sine}

-- struct HystVelocityCommand
pub record HystVelocityCommand (F : Type 0) : Type 0 where
  pub freq_hz : F
  pub amp_rpm : F
  pub offset_rpm : F
  pub settle_cycles : ℤ
  pub record_cycles : ℤ
  pub path : String

-- struct HystPositionCommand
pub record HystPositionCommand (F : Type 0) : Type 0 where
  pub freq_hz : F
  pub amp_ticks : F
  pub offset_ticks : F
  pub max_tps : F
  pub settle_cycles : ℤ
  pub record_cycles : ℤ
  pub path : String

-- enum class WaveformCommandKind
pub data WaveformCommandKind : Type 0 where
  unknown invalid stop start_general start_hyst_velocity start_hyst_position : WaveformCommandKind

pub data CommandError : Type 0 where
  no_error : CommandError
  unknown_action : ℕ → CommandError
  unusable_type : ℕ → CommandError
  bad_chirp bad_waveform : CommandError
  unknown_waveform : String → CommandError
  bad_hyst_sine bad_hyst_pos_sine : CommandError

-- struct WaveformCommand
pub record WaveformCommand (F : Type 0) : Type 0 where
  pub kind : WaveformCommandKind
  pub error : CommandError
  pub config : WaveformConfig F
  pub hyst_velocity : HystVelocityCommand F
  pub hyst_position : HystPositionCommand F

-- epos_interfaces/msg/WaveformCmd
pub record WaveformCmd (F : Type 0) : Type 0 where
  pub action : ℕ
  pub waveform_type : ℕ
  pub freq_hz : F
  pub freq_end_hz : F
  pub amp_rpm : F
  pub offset_rpm : F
  pub duration_s : F
  pub amp_pos_ticks : F
  pub offset_pos_ticks : F
  pub max_pos_tps : F
  pub settle_cycles : ℤ
  pub record_cycles : ℤ
  pub log_path : String

unfoldable pub waveform_type_from_msg : ℕ → WaveformType
waveform_type_from_msg type =
    if type == 1
    then WaveformType.sine
    else if type == 2
    then WaveformType.square
    else if type == 3
    then WaveformType.triangle
    else if type == 4
    then WaveformType.chirp
    else if type == 5
    then WaveformType.position_sine
    else WaveformType.none

module _ {F : Type 0} ⦃d : Double F⦄ where
  open d use {lit, of_int, is_finite}

  -- WaveformCommand{}
  abbrev pub no_command : WaveformCommand F
  no_command = record {
    kind = WaveformCommandKind.unknown;
    error = CommandError.no_error;
    config = default_config;
    hyst_velocity = record {
      freq_hz = lit (pos 1) 0;
      amp_rpm = nought;
      offset_rpm = nought;
      settle_cycles = pos 0;
      record_cycles = pos 1;
      path = "";
    };
    hyst_position = record {
      freq_hz = lit (pos 1) 0;
      amp_ticks = nought;
      offset_ticks = nought;
      max_tps = nought;
      settle_cycles = pos 0;
      record_cycles = pos 1;
      path = "";
    };
  }

  abbrev pub invalid_command : CommandError → WaveformCommand F
  invalid_command e = record no_command { kind = WaveformCommandKind.invalid; error = e }

  -- The clamps of amplitude and offset.
  abbrev pub clamp_amp : ℤ → F → F
  clamp_amp max_abs amp = fclamp nought (of_int max_abs) amp

  abbrev pub clamp_offset : ℤ → F → F
  clamp_offset max_abs offset = fclamp (of_int (neg_ℤ max_abs)) (of_int max_abs) offset

  abbrev pub started : WaveformConfig F → WaveformCommand F
  started wf = record no_command { kind = WaveformCommandKind.start_general; config = wf }

  unfoldable pub start_chirp : WaveformCmd F → ℤ → ℤ → WaveformCommand F
  start_chirp msg max_abs now_ns =
      let finite =
        is_finite msg.freq_hz
        && is_finite msg.freq_end_hz
        && is_finite msg.amp_rpm
        && is_finite msg.offset_rpm
        && is_finite msg.duration_s in
      if not finite
      then invalid_command CommandError.bad_chirp
      else started (record default_config {
        type = WaveformType.chirp;
        start_ns = now_ns;
        freq_hz = fclamp (lit (pos 1) 3) (lit (pos 500) 0) msg.freq_hz;
        freq_end_hz = fclamp (lit (pos 1) 3) (lit (pos 500) 0) msg.freq_end_hz;
        duration_s = fclamp (lit (pos 1) 0) (lit (pos 3600) 0) msg.duration_s;
        amp_rpm = clamp_amp max_abs msg.amp_rpm;
        offset_rpm = clamp_offset max_abs msg.offset_rpm;
      })

  unfoldable pub start_wave : WaveformType → WaveformCmd F → ℤ → ℤ → WaveformCommand F
  start_wave type msg max_abs now_ns =
      let finite =
        is_finite msg.freq_hz
        && is_finite msg.amp_rpm
        && is_finite msg.offset_rpm
        && is_finite msg.duration_s in
      if not finite
      then invalid_command CommandError.bad_waveform
      else started (record default_config {
        type = type;
        start_ns = now_ns;
        freq_hz = fclamp (lit (pos 1) 3) (lit (pos 1000) 0) msg.freq_hz;
        duration_s = fclamp nought (lit (pos 3600) 0) msg.duration_s;
        amp_rpm = clamp_amp max_abs msg.amp_rpm;
        offset_rpm = clamp_offset max_abs msg.offset_rpm;
      })

  -- The part of the function that ACTION_START reaches.
  unfoldable pub start_from_msg : WaveformType → WaveformCmd F → ℤ → ℤ → WaveformCommand F
  start_from_msg WaveformType.none msg max_abs now_ns =
      invalid_command (CommandError.unusable_type msg.waveform_type)
  start_from_msg WaveformType.position_sine msg max_abs now_ns =
      invalid_command (CommandError.unusable_type msg.waveform_type)
  start_from_msg WaveformType.chirp msg max_abs now_ns = start_chirp msg max_abs now_ns
  start_from_msg type msg max_abs now_ns = start_wave type msg max_abs now_ns

  unfoldable pub waveform_command_from_msg : WaveformCmd F → ℤ → ℤ → WaveformCommand F
  waveform_command_from_msg msg max_abs now_ns =
      if msg.action == 2
      then record no_command { kind = WaveformCommandKind.stop }
      else if msg.action == 3
      then record no_command {
        kind = WaveformCommandKind.start_hyst_velocity;
        hyst_velocity = record {
          freq_hz = msg.freq_hz;
          amp_rpm = msg.amp_rpm;
          offset_rpm = msg.offset_rpm;
          settle_cycles = msg.settle_cycles;
          record_cycles = msg.record_cycles;
          path = msg.log_path;
        };
      }
      else if msg.action == 4
      then record no_command {
        kind = WaveformCommandKind.start_hyst_position;
        hyst_position = record {
          freq_hz = msg.freq_hz;
          amp_ticks = msg.amp_pos_ticks;
          offset_ticks = msg.offset_pos_ticks;
          max_tps = msg.max_pos_tps;
          settle_cycles = msg.settle_cycles;
          record_cycles = msg.record_cycles;
          path = msg.log_path;
        };
      }
      else if msg.action == 1
      then start_from_msg (waveform_type_from_msg msg.waveform_type) msg max_abs now_ns
      else invalid_command (CommandError.unknown_action msg.action)
