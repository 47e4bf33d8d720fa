-- ===== src/Commands/ForceText.antt =====
-- cpp/src/epos_control/include/commands/command_parsing.hpp: parse_force_ctrl, the v1 force text.
use Prim.Native.String.{String}
use text.Mathlib.Text.{◌==◌ as str_eq}
use motor_control.Base.{Bool, ◌&&◌, ◌||◌, ℤ, pos, eq_ℤ, some, if◌then◌else◌}
use motor_control.Double.{Double, nought}
use motor_control.Commands.Reader.{
  TextReader, Stream, good, read_number, read_integer, read_word, read_line,
}
use motor_control.Commands.Force.{ForceCommandKind, ForceCommand, no_force_command, of_kind}

unfoldable pub parse_feedback_mode : String → ℤ
parse_feedback_mode mode =
    if str_eq mode "ch0" || str_eq mode "0"
    then pos 0
    else if str_eq mode "ch1" || str_eq mode "1"
    then pos 1
    else if str_eq mode "avg" || str_eq mode "average"
    then pos 2
    else if str_eq mode "max" || str_eq mode "absmax"
    then pos 3
    else pos 0

unfoldable pub is_valid_feedback_mode : String → Bool
is_valid_feedback_mode mode =
    str_eq mode "ch0"
    || str_eq mode "0"
    || str_eq mode "ch1"
    || str_eq mode "1"
    || str_eq mode "avg"
    || str_eq mode "average"
    || str_eq mode "max"
    || str_eq mode "absmax"

module _ {F : Type 0} where
  -- The command, or with invalidate_force_command the same with kind INVALID.
  abbrev checked : Bool → ForceCommand F → ForceCommand F
  checked ok command = if ok then command else record command { kind = ForceCommandKind.invalid }

module _ {F : Type 0} ⦃d : Double F⦄ (reader : TextReader F) where
  open d use {is_finite}

  -- The branches that read one number and want it finite.
  unfoldable pub parse_one : Stream → F → F × Bool
  parse_one iss old = let (x, iss') = read_number reader iss old in (x, good iss' && is_finite x)

  unfoldable pub parse_pid : Stream → ForceCommand F
  parse_pid iss =
      let old : ForceCommand F = of_kind ForceCommandKind.set_pid in
      let (kp, iss1) = read_number reader iss old.kp in
      let (ki, iss2) = read_number reader iss1 old.ki in
      let (kd, iss3) = read_number reader iss2 old.kd in
      checked (good iss3 && (is_finite kp && (is_finite ki && is_finite kd)))
        (record old { kp = kp; ki = ki; kd = kd })

  unfoldable pub parse_tanh : Stream → ForceCommand F
  parse_tanh iss =
      let old : ForceCommand F = of_kind ForceCommandKind.set_tanh in
      let (sens, iss1) = read_number reader iss old.tanh_sens_n in
      let (dead, iss2) = read_number reader iss1 old.tanh_dead_n in
      checked (good iss2 && (is_finite sens && is_finite dead))
        (record old { tanh_sens_n = sens; tanh_dead_n = dead })

  unfoldable pub parse_tare : Stream → ForceCommand F
  parse_tare iss =
      let old : ForceCommand F = of_kind ForceCommandKind.set_tare_offset in
      let (channel, iss1) = read_integer reader iss old.tare_channel in
      let (offset, iss2) = read_number reader iss1 old.tare_offset_n in
      checked (good iss2 && ((eq_ℤ channel (pos 0) || eq_ℤ channel (pos 1)) && is_finite offset))
        (record old { tare_channel = channel; tare_offset_n = offset })

  unfoldable pub parse_feedback : Stream → ForceCommand F
  parse_feedback iss =
      let (label, iss1) = read_word reader iss "" in
      let ok = good iss1 && is_valid_feedback_mode label in
      checked ok (record (of_kind ForceCommandKind.set_feedback) {
        feedback_mode = if ok then parse_feedback_mode label else pos 0;
      })

  -- The chain of tests over the first word.
  unfoldable pub parse_token : String → Stream → ForceCommand F
  parse_token token iss =
      let (target, target_ok) = parse_one iss nought in
      let (direction, iss_direction) = read_integer reader iss (pos 1) in
      let (enabled, iss_enabled) = read_integer reader iss (pos 1) in
      let (max_rpm, iss_max_rpm) = read_integer reader iss (pos 100) in
      let (limit, limit_ok) = parse_one iss nought in
      let (alpha, alpha_ok) = parse_one iss (no_force_command {F = F}).alpha in
      if str_eq token "start"
      then of_kind ForceCommandKind.start
      else if str_eq token "stop"
      then of_kind ForceCommandKind.stop
      else if str_eq token "target"
      then checked target_ok (record (of_kind ForceCommandKind.set_target) { target_n = target })
      else if str_eq token "direction"
      then checked (good iss_direction)
          (record (of_kind ForceCommandKind.set_direction) { direction = direction })
      else if str_eq token "feedback"
      then parse_feedback iss
      else if str_eq token "force_abs" || str_eq token "abs_force" || str_eq token "tension_abs"
      then checked (good iss_enabled)
          (record (of_kind ForceCommandKind.set_force_abs) { enabled = enabled })
      else if str_eq token "pid"
      then parse_pid iss
      else if str_eq token "tanh"
      then parse_tanh iss
      else if str_eq token "tare_offset"
      then parse_tare iss
      else if str_eq token "tare_reset"
      then of_kind ForceCommandKind.tare_reset
      else if str_eq token "maxrpm"
      then checked (good iss_max_rpm)
          (record (of_kind ForceCommandKind.set_max_rpm) { max_rpm = max_rpm })
      else if str_eq token "limit"
      then checked limit_ok (record (of_kind ForceCommandKind.set_limit) { limit_n = limit })
      else if str_eq token "alpha"
      then checked alpha_ok (record (of_kind ForceCommandKind.set_alpha) { alpha = alpha })
      else if str_eq token "waveform"
      then record (of_kind ForceCommandKind.set_waveform) {
        waveform_payload = read_line reader iss;
      }
      else no_force_command

  unfoldable pub parse_force_ctrl : String → ForceCommand F
  parse_force_ctrl cmd = let (token, iss) = read_word reader (some cmd) "" in parse_token token iss
