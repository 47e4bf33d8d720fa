-- ===== src/Commands/Spelling/Waves.antt =====
-- Texts and messages that stop a waveform or start one give the same command.
use Prim.Native.String.{String}
use motor_control.Base.{◌≡◌, refl, pos, true, ℤ, arith, some}
use motor_control.Double.{Double, nought}
use motor_control.Waveform.{WaveformType}
use motor_control.Commands.Reader.{TextReader}
use motor_control.Commands.Waveform.{
  started, WaveformCmd, waveform_type_from_msg, waveform_command_from_msg, start_from_msg,
  start_wave, start_chirp,
}
use motor_control.Commands.WaveformText.{
  waveform_type_from_string, waveform_type_to_string, parse_chirp, parse_wave, parse_command,
  general_command, waveform_command_from_string,
}
use motor_control.Commands.Spelling.{
  Begins, Reads, Agrees, is_plain, extract_value, first_token_lem,
}

module _ {F : Type 0} ⦃d : Double F⦄ (reader : TextReader F) where
  pub stop-Agrees :
      (cmd rest : String) (msg : WaveformCmd F) (max_abs now : ℤ)
      → Begins reader cmd "stop" rest
      → msg.action ≡ 2
      → Agrees reader cmd msg max_abs now
  unfolding waveform_command_from_string waveform_command_from_msg parse_command general_command
  stop-Agrees cmd rest msg max_abs now h act =
      rw
        (
          first_token_lem reader cmd "stop" rest h,
          extract_value reader.word "" cmd "stop" rest "" h,
        )
        (ground (arith, act))

  pub chirp-Agrees :
      (cmd rest re ra ro rd left : String) (msg : WaveformCmd F) (max_abs now : ℤ)
      → Begins reader cmd "chirp" rest
      → Reads reader rest msg.freq_hz re
      → Reads reader re msg.freq_end_hz ra
      → Reads reader ra msg.amp_rpm ro
      → Reads reader ro msg.offset_rpm rd
      → Reads reader rd msg.duration_s left
      → waveform_type_from_msg msg.waveform_type ≡ WaveformType.chirp
      → msg.action ≡ 1
      → Agrees reader cmd msg max_abs now
  unfolding waveform_command_from_string waveform_command_from_msg parse_command general_command
      parse_chirp start_from_msg start_chirp waveform_type_from_string
  chirp-Agrees cmd rest re ra ro rd left msg max_abs now h f g a o t e act =
      rw
        (
          first_token_lem reader cmd "chirp" rest h,
          extract_value reader.word "" cmd "chirp" rest "" h,
          extract_value reader.number nought rest msg.freq_hz re (d.lit (pos 1) 1) f.0,
          extract_value reader.number nought re msg.freq_end_hz ra (d.lit (pos 10) 0) g.0,
          extract_value reader.number nought ra msg.amp_rpm ro (d.lit (pos 500) 0) a.0,
          extract_value reader.number nought ro msg.offset_rpm rd nought o.0,
          extract_value reader.number nought rd msg.duration_s left (d.lit (pos 30) 0) t.0,
        )
        (ground (arith, act, e, f, g, a, o, t))

  pub parse_wave_lem :
      (type : WaveformType) (rest ra ro rd left : String) (msg : WaveformCmd F) (max_abs now : ℤ)
      → Reads reader rest msg.freq_hz ra
      → Reads reader ra msg.amp_rpm ro
      → Reads reader ro msg.offset_rpm rd
      → Reads reader rd msg.duration_s left
      → start_wave type msg max_abs now ≡ started (parse_wave reader type (some rest) max_abs now)
  unfolding parse_wave start_wave
  parse_wave_lem type rest ra ro rd left msg max_abs now f a o t =
      rw
        (
          extract_value reader.number nought rest msg.freq_hz ra (d.lit (pos 1) 0) f.0,
          extract_value reader.number nought ra msg.amp_rpm ro (d.lit (pos 500) 0) a.0,
          extract_value reader.number nought ro msg.offset_rpm rd nought o.0,
          extract_value reader.number nought rd msg.duration_s left nought t.0,
        )
        (rw (f.1, a.1, o.1, t.1) refl)

  pub wave-Agrees :
      (type : WaveformType) (cmd rest : String) (msg : WaveformCmd F) (max_abs now : ℤ)
      → is_plain type ≡ true
      → Begins reader cmd (waveform_type_to_string type) rest
      → start_wave type msg max_abs now ≡ started (parse_wave reader type (some rest) max_abs now)
      → waveform_type_from_msg msg.waveform_type ≡ type
      → msg.action ≡ 1
      → Agrees reader cmd msg max_abs now
  unfolding waveform_command_from_string waveform_command_from_msg parse_command general_command
      start_from_msg waveform_type_from_string waveform_type_to_string
  wave-Agrees WaveformType.sine cmd rest msg max_abs now p h same e act =
      rw
        (
          first_token_lem reader cmd "sine" rest h,
          extract_value reader.word "" cmd "sine" rest "" h,
        )
        (ground (arith, act, e, same))
  wave-Agrees WaveformType.square cmd rest msg max_abs now p h same e act =
      rw
        (
          first_token_lem reader cmd "square" rest h,
          extract_value reader.word "" cmd "square" rest "" h,
        )
        (ground (arith, act, e, same))
  wave-Agrees WaveformType.triangle cmd rest msg max_abs now p h same e act =
      rw
        (
          first_token_lem reader cmd "triangle" rest h,
          extract_value reader.word "" cmd "triangle" rest "" h,
        )
        (ground (arith, act, e, same))
  wave-Agrees WaveformType.none cmd rest msg max_abs now p h same e act = cc
  wave-Agrees WaveformType.chirp cmd rest msg max_abs now p h same e act = cc
  wave-Agrees WaveformType.position_sine cmd rest msg max_abs now p h same e act = cc
