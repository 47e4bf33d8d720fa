-- ===== src/Tests/Runs.antt =====
-- Runs of the definitions on concrete inputs.
use motor_control.Base.{
  ◌≡◌, refl, true, false, pos, negsuc, some, length, List, [], ◌∷◌, ◌+ℤ◌, ◌-ℤ◌, ◌*ℤ◌, ◌/ℤ◌, to_i32,
  to_i64, to_u64,
}
use motor_control.Double.Fixed.{Fixed, fixed_double}
use motor_control.Units.{n_to_mn, mn_to_n_float, mm_to_um}
use motor_control.Waveform.{
  WaveformType, WaveformConfig, default_config, type_code, square_sign, triangle_at, wave_value,
}
use motor_control.Control.Slew.{apply_slew_rate_limit}
use motor_control.Waveform.{compute}
use motor_control.Control.Velocity.{compute_velocity_csv_command}
use motor_control.Ethercat.Cia402.{
  is_operation_enabled, is_switched_on, is_ready_to_switch_on, next_control_word,
}
use motor_control.Ethercat.ErrorCodes.{error_texts, lookup_text, epos_error_str}
use motor_control.Ethercat.Setup.{write_map, setup_epos_pdo_mapping, rx_map, tx_map}
use motor_control.Node.Feedback.{core_feedback, wkc_recovery_due, average}
use motor_control.Node.Start.{start_node}
use motor_control.Node.Step.{Event, run}
use motor_control.Node.Step.Logged.{reached-IsConsistent}
use motor_control.Logging.AsyncLogger.Invariant.{IsConsistent}
use motor_control.Tests.Data.{started, options, clock, enabled_drive, reader, outside}

force_in_millinewtons : n_to_mn (some (pos 1_500_000)) ≡ pos 1500
unfolding n_to_mn ◌+ℤ◌ ◌-ℤ◌ ◌*ℤ◌ ◌/ℤ◌ to_i32 to_i64
force_in_millinewtons = refl

newtons_logged : mn_to_n_float (pos 1500) ≡ some (pos 1_500_000)
unfolding mn_to_n_float ◌+ℤ◌ ◌-ℤ◌ ◌*ℤ◌ ◌/ℤ◌ to_i32 to_i64
newtons_logged = refl

micrometres : mm_to_um (some (negsuc 2_499_999)) ≡ negsuc 2499
unfolding mm_to_um ◌+ℤ◌ ◌-ℤ◌ ◌*ℤ◌ ◌/ℤ◌ to_i32 to_i64
micrometres = refl

chirp_code : type_code WaveformType.chirp ≡ pos 4
unfolding type_code
chirp_code = refl

abbrev square_wave : WaveformConfig Fixed
square_wave = record default_config { type = WaveformType.square; amp_rpm = some (pos 500_000_000) }

second_half :
    wave_value WaveformType.square square_wave (some (pos 600_000)) ≡ some (negsuc 499_999_999)
unfolding wave_value square_sign triangle_at ◌+ℤ◌ ◌-ℤ◌ ◌*ℤ◌ ◌/ℤ◌ to_i32 to_i64
second_half = refl

-- From rest, 1 ms at 5000 RPM/s gives 5 RPM.
first_step :
    (compute_velocity_csv_command default_config
      (pos 0)
      (pos 77)
      (pos 100)
      (pos 5000)
      (pos 3000)
      (some (pos 0))
      (pos 1_000_000)).target_rpm
    ≡ pos 5
unfolding compute_velocity_csv_command apply_slew_rate_limit compute ◌+ℤ◌ ◌-ℤ◌ ◌*ℤ◌ ◌/ℤ◌ to_i32
    to_i64
first_step = refl

enable_from_switched_on : next_control_word 0x0023 true ≡ 15
unfolding next_control_word is_operation_enabled is_switched_on is_ready_to_switch_on
enable_from_switched_on = refl

no_error_text : epos_error_str 0 ≡ "No error"
unfolding epos_error_str lookup_text error_texts
no_error_text = refl

mapping_writes : length setup_epos_pdo_mapping ≡ 22
unfolding setup_epos_pdo_mapping write_map rx_map tx_map
mapping_writes = refl

feedback_at_start : length (core_feedback started) ≡ 10
unfolding core_feedback start_node
feedback_at_start = refl

no_recovery_at_start : wkc_recovery_due started ≡ false
unfolding wkc_recovery_due start_node
no_recovery_at_start = refl

average_rounds_down : average (pos 3200) 3 ≡ pos 1066
unfolding average to_u64 to_i32
average_rounds_down = refl

-- A log is started; two rounds of the loop and one of the logger follow.
abbrev logged_events : List (Event Fixed)
logged_events =
    Event.log_cmd (pos 1_500_000) "a.csv" "start"
    ∷ Event.cycle (record { time = clock; wkc = pos 3; inputs = some enabled_drive })
    ∷ Event.cycle (record { time = clock; wkc = pos 3; inputs = some enabled_drive })
    ∷ Event.log_round
    ∷ []

reached-IsConsistent_example :
    IsConsistent (run reader outside logged_events (start_node options (pos 1_000_000))).logger
reached-IsConsistent_example =
    reached-IsConsistent reader outside options (pos 1_000_000) logged_events
