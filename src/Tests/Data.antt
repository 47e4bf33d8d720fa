-- ===== src/Tests/Data.antt =====
-- The concrete node, drive data and commands that the runs use.
use motor_control.Base.{false}
use motor_control.Base.{true, ℤ, pos, negsuc, List, [], ◌∷◌, none, some}
use motor_control.Double.Fixed.{Fixed, fixed_double}
use motor_control.Ethercat.Pdo.{InPdo}
use motor_control.Logging.Record.{LogRecord, zero_record}
use motor_control.Commands.Reader.{TextReader, Extract}
use motor_control.Commands.Waveform.{WaveformCmd, HystVelocityCommand, HystPositionCommand}
use motor_control.Commands.Force.{ForceCtrlCmd}
use motor_control.Node.State.{Node}
use motor_control.Node.Start.{Options, start_node}
use motor_control.Node.Commands.{Outside}
use motor_control.Node.Cycle.Timing.{CycleTime}
use motor_control.Node.Cycle.{CycleInput}
use motor_control.Node.Step.{Event}

abbrev pub options : Options Fixed
options = record {
  cycle_hz = pos 1000;
  max_abs_target = pos 3000;
  cmd_timeout_ms = pos 500;
  auto_enable = true;
  overrun_thresh_us = pos 200;
  wkc_recover_threshold = pos 50;
  heartbeat_timeout_ms = pos 0;
  pos_p_gain = some (pos 5_000_000);
  motor_ticks_per_rev = pos 2000;
  accel_limit_rpm_s = pos 5000;
  force_limit_n = some (pos 100_000_000);
  force_kp = some (pos 500_000);
  force_ki = some (pos 50_000);
  force_kd = some (pos 10_000);
  force_max_rpm = pos 50;
  force_out_alpha = some (pos 300_000);
  force_tanh_sensitivity_n = some (pos 1_000_000);
  force_tanh_deadband_n = some (pos 10_000);
  slave_index = pos 1;
  op_mode = pos 9;
}

abbrev pub started : Node Fixed
started = start_node options (pos 1_000_000)

-- The drive in operation, and the drive in fault.
abbrev pub enabled_drive : InPdo
enabled_drive = record {
  status_word = 0x0027;
  actual_position = pos 100;
  actual_velocity = pos 20;
  actual_torque = pos 3;
}

abbrev pub faulty_drive : InPdo
faulty_drive = record enabled_drive { status_word = 0x0008 }

abbrev pub clock : CycleTime
clock = record { scheduled_ns = pos 1_500_000; now_ns = pos 2_000_000 }

abbrev pub lost : CycleInput
lost = record { time = clock; wkc = negsuc 0; inputs = none }

abbrev pub reader : TextReader Fixed
reader = record {
  word = λ text. Extract.value text "";
  number = λ text. Extract.ended;
  integer = λ text. Extract.ended;
  line = λ text. "";
}

abbrev pub outside : Outside
outside = record { has_parent = λ path. true; opens = λ path. true }

-- A sine of 1 Hz, 500 RPM, for 10 s.
abbrev pub sine_msg : WaveformCmd Fixed
sine_msg = record {
  action = 1;
  waveform_type = 1;
  freq_hz = some (pos 1_000_000);
  freq_end_hz = some (pos 1_000_000);
  amp_rpm = some (pos 500_000_000);
  offset_rpm = some (pos 0);
  duration_s = some (pos 10_000_000);
  amp_pos_ticks = some (pos 0);
  offset_pos_ticks = some (pos 0);
  max_pos_tps = some (pos 0);
  settle_cycles = pos 0;
  record_cycles = pos 1;
  log_path = "";
}

abbrev pub events : List (Event Fixed)
events =
    Event.op_mode_cmd (pos 8)
    ∷ Event.target_position (pos 3_000_000) (pos 4000)
    ∷ Event.cycle (record { time = clock; wkc = pos 3; inputs = some enabled_drive })
    ∷ Event.fault_reset
    ∷ []

abbrev pub row_at : ℤ → LogRecord Fixed
row_at time = record zero_record { timestamp_ns = time }

-- A force message that sets the feedback channel.
abbrev pub feedback_msg : ForceCtrlCmd Fixed
feedback_msg = record {
  action = 5;
  target_n = some (pos 0);
  direction = pos 1;
  feedback = 9;
  max_rpm = pos 50;
  output_alpha = none;
  kp = none;
  ki = none;
  kd = none;
  tanh_sensitivity_n = none;
  tanh_deadband_n = none;
  limit_n = none;
  force_abs = false;
  tare_channel = pos 0;
  tare_offset_n = none;
}

abbrev pub velocity_test : HystVelocityCommand Fixed
velocity_test = record {
  freq_hz = some (pos 1_000_000);
  amp_rpm = some (pos 100_000_000);
  offset_rpm = some (pos 0);
  settle_cycles = pos 2;
  record_cycles = pos 3;
  path = "test.csv";
}

abbrev pub position_test : HystPositionCommand Fixed
position_test = record {
  freq_hz = some (pos 1_000_000);
  amp_ticks = some (pos 100_000_000);
  offset_ticks = some (pos 0);
  max_tps = some (pos 1_000_000_000);
  settle_cycles = pos 2;
  record_cycles = pos 3;
  path = "test.csv";
}
