-- ===== src/Commands/WaveformText/Names.antt =====
-- cpp/src/epos_control/include/waveform/waveform_generator.hpp: the names of the waveforms.
use Prim.Native.String.{String}
use text.Mathlib.TextEquality.{eq_iff}
use motor_control.Base.{◌≡◌, ◌≢◌, refl, arith}
use motor_control.Waveform.{WaveformType}
use motor_control.Commands.WaveformText.{waveform_type_from_string, waveform_type_to_string}

type_of_name :
    (t : WaveformType)
    → t ≢ WaveformType.position_sine
    → waveform_type_from_string (waveform_type_to_string t) ≡ t
unfolding waveform_type_from_string waveform_type_to_string
type_of_name WaveformType.none h = refl
type_of_name WaveformType.sine h = refl
type_of_name WaveformType.square h = refl
type_of_name WaveformType.triangle h = refl
type_of_name WaveformType.chirp h = refl
type_of_name WaveformType.position_sine h = absurd (h refl)

name_of_type :
    (s : String)
    → waveform_type_from_string s ≢ WaveformType.none
    → waveform_type_to_string (waveform_type_from_string s) ≡ s
unfolding waveform_type_from_string waveform_type_to_string
name_of_type s h =
    ground (arith, eq_iff s "sine", eq_iff s "square", eq_iff s "triangle", eq_iff s "chirp")

-- Reading the name of a waveform gives the waveform, except for the position sine, whose name
-- is read as no waveform; and a text that is read as a waveform is the name of that waveform.
names_roundtrip :
    ((t : WaveformType)
      → t ≢ WaveformType.position_sine
      → waveform_type_from_string (waveform_type_to_string t) ≡ t)
    × (waveform_type_from_string (waveform_type_to_string WaveformType.position_sine)
        ≡ WaveformType.none)
    × ((s : String)
        → waveform_type_from_string s ≢ WaveformType.none
        → waveform_type_to_string (waveform_type_from_string s) ≡ s)
unfolding waveform_type_from_string waveform_type_to_string
names_roundtrip = (type_of_name, refl, name_of_type)
