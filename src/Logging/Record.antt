-- ===== src/Logging/Record.antt =====
-- cpp/src/epos_control/include/logging/async_logger.hpp: one row of the log.
use motor_control.Base.{ℕ, ℤ, pos}
use motor_control.Double.{Double, nought}

-- struct LogRecord
pub record LogRecord (F : Type 0) : Type 0 where
  pub timestamp_ns : ℤ
  pub op_mode : ℤ
  pub target_pos : ℤ
  pub actual_pos : ℤ
  pub target_vel : ℤ
  pub actual_vel : ℤ
  pub target_trq : ℤ
  pub actual_trq : ℤ
  pub dt_us : ℤ
  pub status_word : ℕ
  pub error_code : ℤ
  pub wf_type : ℤ
  pub load_cell_n : F
  pub lc_ch0_n : F
  pub lc_ch1_n : F
  pub load_cell_abs_n : F
  pub lc_ch0_abs_n : F
  pub lc_ch1_abs_n : F
  pub linear_encoder_count : ℤ
  pub linear_encoder_mm : F

module _ {F : Type 0} ⦃d : Double F⦄ where
  -- LogRecord rec{}
  abbrev pub zero_record : LogRecord F
  zero_record = record {
    timestamp_ns = pos 0;
    op_mode = pos 0;
    target_pos = pos 0;
    actual_pos = pos 0;
    target_vel = pos 0;
    actual_vel = pos 0;
    target_trq = pos 0;
    actual_trq = pos 0;
    dt_us = pos 0;
    status_word = 0;
    error_code = pos 0;
    wf_type = pos 0;
    load_cell_n = nought;
    lc_ch0_n = nought;
    lc_ch1_n = nought;
    load_cell_abs_n = nought;
    lc_ch0_abs_n = nought;
    lc_ch1_abs_n = nought;
    linear_encoder_count = pos 0;
    linear_encoder_mm = nought;
  }
