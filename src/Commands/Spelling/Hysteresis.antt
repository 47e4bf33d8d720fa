-- ===== src/Commands/Spelling/Hysteresis.antt =====
-- Texts and messages that start a hysteresis test give the same command.
use Prim.Native.String.{String}
use motor_control.Base.{◌≡◌, refl, pos, true, ℤ, arith}
use motor_control.Double.{Double, nought}
use motor_control.Commands.Reader.{TextReader, Extract}
use motor_control.Commands.Waveform.{WaveformCmd, waveform_command_from_msg}
use motor_control.Commands.WaveformText.{
  parse_hyst_velocity, parse_hyst_position, waveform_command_from_string,
}
use motor_control.Commands.Spelling.{
  Begins, Agrees, velocity_of, position_of, extract_value, first_token_lem,
}

module _ {F : Type 0} ⦃d : Double F⦄ (reader : TextReader F) where
  pub parse_hyst_velocity_lem :
      (cmd rest ra ro rs rr left : String) (msg : WaveformCmd F)
      → Begins reader cmd "hyst_sine" rest
      → reader.number rest ≡ Extract.value msg.freq_hz ra
      → reader.number ra ≡ Extract.value msg.amp_rpm ro
      → reader.number ro ≡ Extract.value msg.offset_rpm rs
      → reader.integer rs ≡ Extract.value msg.settle_cycles rr
      → reader.integer rr ≡ Extract.value msg.record_cycles left
      → reader.line left ≡ msg.log_path
      → parse_hyst_velocity reader cmd ≡ record { ok = true; value = velocity_of msg }
  unfolding parse_hyst_velocity
  parse_hyst_velocity_lem cmd rest ra ro rs rr left msg h f a o s r l =
      rw
        (
          extract_value reader.word "" cmd "hyst_sine" rest "" h,
          extract_value reader.number nought rest msg.freq_hz ra (d.lit (pos 1) 0) f,
          extract_value reader.number nought ra msg.amp_rpm ro nought a,
          extract_value reader.number nought ro msg.offset_rpm rs nought o,
          extract_value reader.integer (pos 0) rs msg.settle_cycles rr (pos 0) s,
          extract_value reader.integer (pos 0) rr msg.record_cycles left (pos 1) r,
          l,
        )
        refl

  pub velocity-Agrees :
      (cmd rest : String) (msg : WaveformCmd F) (max_abs now : ℤ)
      → Begins reader cmd "hyst_sine" rest
      → parse_hyst_velocity reader cmd ≡ record { ok = true; value = velocity_of msg }
      → msg.action ≡ 3
      → Agrees reader cmd msg max_abs now
  unfolding waveform_command_from_string waveform_command_from_msg
  velocity-Agrees cmd rest msg max_abs now h parsed act =
      rw (first_token_lem reader cmd "hyst_sine" rest h, parsed) (ground (arith, act))

  pub parse_hyst_position_lem :
      (cmd rest ra ro rt rs rr left : String) (msg : WaveformCmd F)
      → Begins reader cmd "hyst_pos_sine" rest
      → reader.number rest ≡ Extract.value msg.freq_hz ra
      → reader.number ra ≡ Extract.value msg.amp_pos_ticks ro
      → reader.number ro ≡ Extract.value msg.offset_pos_ticks rt
      → reader.number rt ≡ Extract.value msg.max_pos_tps rs
      → reader.integer rs ≡ Extract.value msg.settle_cycles rr
      → reader.integer rr ≡ Extract.value msg.record_cycles left
      → reader.line left ≡ msg.log_path
      → parse_hyst_position reader cmd ≡ record { ok = true; value = position_of msg }
  unfolding parse_hyst_position
  parse_hyst_position_lem cmd rest ra ro rt rs rr left msg h f a o t s r l =
      rw
        (
          extract_value reader.word "" cmd "hyst_pos_sine" rest "" h,
          extract_value reader.number nought rest msg.freq_hz ra (d.lit (pos 1) 0) f,
          extract_value reader.number nought ra msg.amp_pos_ticks ro nought a,
          extract_value reader.number nought ro msg.offset_pos_ticks rt nought o,
          extract_value reader.number nought rt msg.max_pos_tps rs nought t,
          extract_value reader.integer (pos 0) rs msg.settle_cycles rr (pos 0) s,
          extract_value reader.integer (pos 0) rr msg.record_cycles left (pos 1) r,
          l,
        )
        refl

  pub position-Agrees :
      (cmd rest : String) (msg : WaveformCmd F) (max_abs now : ℤ)
      → Begins reader cmd "hyst_pos_sine" rest
      → parse_hyst_position reader cmd ≡ record { ok = true; value = position_of msg }
      → msg.action ≡ 4
      → Agrees reader cmd msg max_abs now
  unfolding waveform_command_from_string waveform_command_from_msg
  position-Agrees cmd rest msg max_abs now h parsed act =
      rw (first_token_lem reader cmd "hyst_pos_sine" rest h, parsed) (ground (arith, act))
