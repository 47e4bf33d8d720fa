-- ===== src/Node/Commands/Protocols.antt =====
-- cpp/src/epos_control/src/epos_motor_node.cpp: /epos/waveform_cmd and /epos/waveform_cmd_v2, the two ways
-- to send a waveform command.
use Prim.Native.String.{String}
use motor_control.Base.{◌≡◌, ap, ℤ}
use motor_control.Double.{Double}
use motor_control.Commands.Reader.{TextReader}
use motor_control.Commands.Waveform.{WaveformCmd}
use motor_control.Commands.Spelling.{Spells, Agrees}
use motor_control.Commands.Spelling.Waves.{stop-Agrees, chirp-Agrees, parse_wave_lem, wave-Agrees}
use motor_control.Commands.Spelling.Hysteresis.{
  parse_hyst_velocity_lem, velocity-Agrees, parse_hyst_position_lem, position-Agrees,
}
use motor_control.Node.State.{Node}
use motor_control.Node.Commands.{
  Outside, apply_waveform_command, handle_waveform_msg, handle_waveform_cmd,
}

module _ {F : Type 0} ⦃d : Double F⦄ (reader : TextReader F) where
  commands_agree :
      (cmd : String) (msg : WaveformCmd F) (max_abs now : ℤ)
      → Spells reader cmd msg
      → Agrees reader cmd msg max_abs now
  commands_agree cmd msg max_abs now (Spells.stop rest h act) =
      stop-Agrees reader cmd rest msg max_abs now h act
  commands_agree cmd msg max_abs now (Spells.wave type rest ra ro rd left plain h f a o t e act) =
      wave-Agrees reader type cmd rest msg max_abs now plain h
        (parse_wave_lem reader type rest ra ro rd left msg max_abs now f a o t) e act
  commands_agree cmd msg max_abs now (Spells.chirp rest re ra ro rd left h f g a o t e act) =
      chirp-Agrees reader cmd rest re ra ro rd left msg max_abs now h f g a o t e act
  commands_agree cmd msg max_abs now
        (Spells.hyst_velocity rest ra ro rs rr left h f a o s r l act) =
      velocity-Agrees reader cmd rest msg max_abs now h
        (parse_hyst_velocity_lem reader cmd rest ra ro rs rr left msg h f a o s r l) act
  commands_agree cmd msg max_abs now
        (Spells.hyst_position rest ra ro rt rs rr left h f a o t s r l act) =
      position-Agrees reader cmd rest msg max_abs now h
        (parse_hyst_position_lem reader cmd rest ra ro rt rs rr left msg h f a o t s r l) act

  -- A waveform command as text and as message does the same to the node, whatever state it is
  -- in: for a stop, a sine, square, triangle or chirp with finite numbers, and the two
  -- hysteresis tests, if the first word of the text names the action or the type and the values
  -- read after it are those of the message.
  pub waveform_protocols_agree :
      (outside : Outside) (now : ℤ) (cmd : String) (msg : WaveformCmd F) (n : Node F)
      → Spells reader cmd msg
      → handle_waveform_cmd reader outside now cmd n ≡ handle_waveform_msg outside now msg n
  unfolding handle_waveform_cmd handle_waveform_msg
  waveform_protocols_agree outside now cmd msg n s =
      ap (λ c. apply_waveform_command outside now c n)
        (commands_agree cmd msg n.params.max_abs_target now s)
