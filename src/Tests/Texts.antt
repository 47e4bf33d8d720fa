-- ===== src/Tests/Texts.antt =====
-- Runs of the command parsers, with a reader that takes a whole text as one word.
use motor_control.Base.{
  ◌≡◌, refl, true, false, ℤ, pos, Option, some, none, ◌+ℤ◌, ◌-ℤ◌, ◌*ℤ◌, ◌/ℤ◌, to_i32, to_i64,
}
use motor_control.Double.Fixed.{Fixed, fixed_double}
use motor_control.Waveform.Hysteresis.{
  invalid_hyst_common, fill_hyst_timing, velocity_plan, make_hyst_velocity_plan, position_plan,
  make_hyst_position_plan, HysteresisPlan,
}
use motor_control.Commands.Reader.{extract}
use motor_control.Commands.Waveform.{WaveformCommandKind, HystPositionCommand}
use motor_control.Commands.WaveformText.{
  waveform_type_from_string, parse_chirp, parse_wave, parse_command, first_token,
  parse_hyst_velocity, parse_hyst_position, general_command, waveform_command_from_string,
}
use motor_control.Commands.Force.{
  ForceCommandKind, force_command_from_msg, set_target_msg, set_pid_msg, set_tanh_msg, set_tare_msg,
  set_limit_msg, set_alpha_msg,
}
use motor_control.Commands.ForceText.{
  parse_feedback_mode, is_valid_feedback_mode, parse_one, parse_pid, parse_tanh, parse_tare,
  parse_feedback, parse_token, parse_force_ctrl,
}
use motor_control.Logging.AsyncLogger.{
  start_logging, stop_logging, start_logging_window, close_file,
}
use motor_control.Node.LogCommands.{LogCommand, parse_log_command}
use motor_control.Node.Start.{start_node}
use motor_control.Tests.Data.{reader, started, feedback_msg, velocity_test, position_test}

stop_text :
    (waveform_command_from_string reader "stop" (pos 3000) (pos 5)).kind ≡ WaveformCommandKind.stop
unfolding waveform_command_from_string general_command first_token parse_command parse_chirp
    parse_wave parse_hyst_velocity parse_hyst_position waveform_type_from_string extract
stop_text = refl

start_text : (parse_force_ctrl reader "start").kind ≡ ForceCommandKind.start
unfolding parse_force_ctrl parse_token parse_one parse_pid parse_tanh parse_tare parse_feedback
    extract
start_text = refl

average_label : parse_feedback_mode "avg" ≡ pos 2
unfolding parse_feedback_mode
average_label = refl

unknown_label : is_valid_feedback_mode "ch2" ≡ false
unfolding is_valid_feedback_mode
unknown_label = refl

log_stop_text : parse_log_command reader "default.csv" "stop" ≡ LogCommand.stop
unfolding parse_log_command extract
log_stop_text = refl

abbrev window_of : Option (HysteresisPlan Fixed) → ℤ × ℤ
window_of none = (pos 0, pos 0)
window_of (some plan) = (plan.log_start_ns, plan.log_end_ns)

-- Two cycles to settle and three to record at 1 Hz, after a lead of 250 ms.
velocity_window :
    window_of (make_hyst_velocity_plan velocity_test (pos 3000) (pos 0))
    ≡ (pos 2_250_000_000, pos 5_250_000_000)
unfolding make_hyst_velocity_plan velocity_plan invalid_hyst_common fill_hyst_timing ◌+ℤ◌ ◌-ℤ◌ ◌*ℤ◌
    ◌/ℤ◌ to_i32 to_i64
velocity_window = refl

abbrev nameless_test : HystPositionCommand Fixed
nameless_test = record position_test { path = "" }

no_path : window_of (make_hyst_position_plan nameless_test (pos 0)) ≡ (pos 0, pos 0)
unfolding make_hyst_position_plan position_plan invalid_hyst_common fill_hyst_timing
no_path = refl

stopped_log :
    (stop_logging (start_logging (λ path. true) "a.csv" (pos 5) started.logger).1).log_active
    ≡ false
unfolding stop_logging start_logging start_logging_window close_file start_node
stopped_log = refl

-- A feedback channel that is too large becomes 3, and a gain that is no number is refused.
feedback_clamped : (force_command_from_msg feedback_msg).feedback_mode ≡ pos 3
unfolding force_command_from_msg
feedback_clamped = refl

gain_refused :
    (force_command_from_msg (record feedback_msg { action = 6 })).kind ≡ ForceCommandKind.invalid
unfolding force_command_from_msg set_pid_msg set_target_msg set_tanh_msg set_tare_msg set_limit_msg
    set_alpha_msg
gain_refused = refl
