-- ===== src/Tests/Protocols.antt =====
-- The theorems on the two protocols, for a sine and for a set of gains.
use Prim.Native.String.{String}
use text.Mathlib.Text.{◌==◌ as str_eq}
use motor_control.Base.{◌≡◌, refl, pos, some, if◌then◌else◌}
use motor_control.Double.Fixed.{Fixed, fixed_double}
use motor_control.Waveform.{WaveformType}
use motor_control.Commands.Reader.{TextReader, Extract}
use motor_control.Commands.Waveform.{waveform_type_from_msg}
use motor_control.Commands.WaveformText.{waveform_type_to_string}
use motor_control.Commands.Force.{ForceCtrlCmd}
use motor_control.Commands.Spelling.{Spells}
use motor_control.Node.Commands.{handle_waveform_cmd, handle_waveform_msg}
use motor_control.Node.Commands.Protocols.{waveform_protocols_agree}
use motor_control.Node.ForceCommands.{handle_force_ctrl_cmd, handle_force_ctrl_msg}
use motor_control.Node.ForceCommands.Protocols.{ForceSpells, force_protocols_agree}
use motor_control.Tests.Data.{started, outside, sine_msg, feedback_msg}

-- The words of "sine 1 500 0 10" and of "pid 0.5 0.05 0.01".
abbrev word_of : String → Extract String
word_of text =
    if str_eq text "sine 1 500 0 10"
    then Extract.value "sine" " 1 500 0 10"
    else if str_eq text "pid 0.5 0.05 0.01"
    then Extract.value "pid" " 0.5 0.05 0.01"
    else Extract.ended

abbrev number_of : String → Extract Fixed
number_of text =
    if str_eq text " 1 500 0 10"
    then Extract.value (some (pos 1_000_000)) " 500 0 10"
    else if str_eq text " 500 0 10"
    then Extract.value (some (pos 500_000_000)) " 0 10"
    else if str_eq text " 0 10"
    then Extract.value (some (pos 0)) " 10"
    else if str_eq text " 10"
    then Extract.value (some (pos 10_000_000)) ""
    else if str_eq text " 0.5 0.05 0.01"
    then Extract.value (some (pos 500_000)) " 0.05 0.01"
    else if str_eq text " 0.05 0.01"
    then Extract.value (some (pos 50_000)) " 0.01"
    else if str_eq text " 0.01"
    then Extract.value (some (pos 10_000)) ""
    else Extract.ended

abbrev words : TextReader Fixed
words = record {
  word = word_of;
  number = number_of;
  integer = λ text. Extract.ended;
  line = λ text. "";
}

waveform_protocols_agree_example :
    handle_waveform_cmd words outside (pos 7) "sine 1 500 0 10" started
    ≡ handle_waveform_msg outside (pos 7) sine_msg started
unfolding waveform_type_to_string waveform_type_from_msg
waveform_protocols_agree_example =
    waveform_protocols_agree words outside (pos 7) "sine 1 500 0 10" sine_msg started (
      Spells.wave WaveformType.sine " 1 500 0 10" " 500 0 10" " 0 10" " 10" "" refl refl
        (refl, refl) (refl, refl) (refl, refl) (refl, refl) refl refl)

abbrev gains_msg : ForceCtrlCmd Fixed
gains_msg = record feedback_msg {
  action = 6;
  kp = some (pos 500_000);
  ki = some (pos 50_000);
  kd = some (pos 10_000);
}

force_protocols_agree_example :
    handle_force_ctrl_cmd words (pos 7) "pid 0.5 0.05 0.01" started
    ≡ handle_force_ctrl_msg words (pos 7) gains_msg started
force_protocols_agree_example =
    force_protocols_agree words (pos 7) "pid 0.5 0.05 0.01" gains_msg started (
      ForceSpells.pid " 0.5 0.05 0.01" " 0.05 0.01" " 0.01" "" refl refl refl refl refl refl refl
        refl)
