-- ===== src/Waveform/Hysteresis.antt =====
-- cpp/src/epos_control/include/waveform/hysteresis_plan.hpp: the waveform and the logging window of a
-- hysteresis test. A plan that is refused is `none`.
pub mod Timing
use Prim.Native.String.{String}
use text.Mathlib.Text.{◌==◌ as str_eq}
use motor_control.Base.{
  Bool, ◌||◌, not, ℤ, pos, negsuc, ◌+ℤ◌, lt_ℤ, max_ℤ, min_ℤ, neg_ℤ, to_i64, Option, none, some,
  if◌then◌else◌,
}
use motor_control.Double.{Double, ◌⊕◌, ◌⊗◌, ◌⊘◌, nought, fclamp}
use motor_control.Waveform.{WaveformType, WaveformConfig, default_config}
use motor_control.Commands.Waveform.{HystVelocityCommand, HystPositionCommand}

-- HYST_START_LEAD_NS
abbrev pub hyst_start_lead_ns : ℤ
hyst_start_lead_ns = pos 250000000

-- struct HysteresisPlan, of a plan that is accepted
pub record HysteresisPlan (F : Type 0) : Type 0 where
  pub path : String
  pub waveform : WaveformConfig F
  pub log_start_ns : ℤ
  pub log_end_ns : ℤ
  pub max_tps : F
  pub settle_cycles : ℤ
  pub record_cycles : ℤ

abbrev pub clamp_settle : ℤ → ℤ
clamp_settle n = max_ℤ (pos 0) (min_ℤ (pos 1000) n)

abbrev pub clamp_record : ℤ → ℤ
clamp_record n = max_ℤ (pos 1) (min_ℤ (pos 10000) n)

module _ {F : Type 0} ⦃d : Double F⦄ where
  open d use {lit, of_int, div, is_finite, lround}

  unfoldable pub invalid_hyst_common : F → ℤ → ℤ → String → Bool
  invalid_hyst_common freq settle record_cycles path =
      str_eq path "" || not (is_finite freq) || lt_ℤ settle (pos 0) || lt_ℤ record_cycles (pos 1)

  -- The length in seconds of a number of cycles.
  abbrev pub cycles_s : F → ℤ → F
  cycles_s freq cycles = of_int cycles ⊗ (lit (pos 1) 0 ⊘ freq)

  abbrev pub to_ns : F → ℤ
  to_ns seconds = lround (seconds ⊗ lit (pos 1000000000) 0)

  -- fill_hyst_timing: the waveform starts a lead after now, the log after the settling cycles.
  unfoldable pub fill_hyst_timing : HysteresisPlan F → ℤ → HysteresisPlan F
  fill_hyst_timing plan now_ns =
      let freq = plan.waveform.freq_hz in
      let settle_s = cycles_s freq plan.settle_cycles in
      let record_s = cycles_s freq plan.record_cycles in
      let start = to_i64 (now_ns +ℤ hyst_start_lead_ns) in
      let log_start = to_i64 (start +ℤ to_ns settle_s) in
      record plan {
        log_start_ns = log_start;
        log_end_ns = to_i64 (log_start +ℤ to_ns record_s);
        waveform = record plan.waveform { start_ns = start; duration_s = settle_s ⊕ record_s };
      }

  -- The plan of a velocity test before its times are filled in.
  unfoldable pub velocity_plan : HystVelocityCommand F → ℤ → HysteresisPlan F
  velocity_plan cmd max_abs = record {
    path = cmd.path;
    waveform = record default_config {
      type = WaveformType.sine;
      freq_hz = fclamp (lit (pos 1) 3) (lit (pos 1000) 0) cmd.freq_hz;
      amp_rpm = fclamp nought (of_int max_abs) cmd.amp_rpm;
      offset_rpm = fclamp (of_int (neg_ℤ max_abs)) (of_int max_abs) cmd.offset_rpm;
    };
    log_start_ns = pos 0;
    log_end_ns = pos 0;
    max_tps = nought;
    settle_cycles = clamp_settle cmd.settle_cycles;
    record_cycles = clamp_record cmd.record_cycles;
  }

  unfoldable pub make_hyst_velocity_plan : HystVelocityCommand F → ℤ → ℤ → Option (HysteresisPlan F)
  make_hyst_velocity_plan cmd max_abs now_ns =
      let invalid =
        invalid_hyst_common cmd.freq_hz cmd.settle_cycles cmd.record_cycles cmd.path
        || not (is_finite cmd.amp_rpm)
        || not (is_finite cmd.offset_rpm) in
      if invalid then none else some (fill_hyst_timing (velocity_plan cmd max_abs) now_ns)

  unfoldable pub position_plan : HystPositionCommand F → HysteresisPlan F
  position_plan cmd =
      let max_tps = fclamp (lit (pos 1) 0) (lit (pos 100000000) 0) cmd.max_tps in
      record {
        path = cmd.path;
        waveform = record default_config {
          type = WaveformType.position_sine;
          freq_hz = fclamp (lit (pos 1) 3) (lit (pos 1000) 0) cmd.freq_hz;
          amp_pos_ticks = fclamp nought (lit (pos 100000000) 0) cmd.amp_ticks;
          offset_pos_ticks =
              fclamp (lit (negsuc 99999999) 0) (lit (pos 100000000) 0) cmd.offset_ticks;
          max_pos_tps = max_tps;
        };
        log_start_ns = pos 0;
        log_end_ns = pos 0;
        max_tps = max_tps;
        settle_cycles = clamp_settle cmd.settle_cycles;
        record_cycles = clamp_record cmd.record_cycles;
      }

  unfoldable pub make_hyst_position_plan : HystPositionCommand F → ℤ → Option (HysteresisPlan F)
  make_hyst_position_plan cmd now_ns =
      let invalid =
        invalid_hyst_common cmd.freq_hz cmd.settle_cycles cmd.record_cycles cmd.path
        || not (is_finite cmd.amp_ticks)
        || not (is_finite cmd.offset_ticks)
        || not (is_finite cmd.max_tps) in
      if invalid then none else some (fill_hyst_timing (position_plan cmd) now_ns)
