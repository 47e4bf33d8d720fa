-- ===== src/Waveform/Hysteresis/Timing.antt =====
-- cpp/src/epos_control/include/waveform/hysteresis_plan.hpp: the times of a plan.
use mathlib.Core.Path.{subst}
use motor_control.Base.{
  ℕ, ◌*◌, ◌^◌, ◌≤◌, ◌<◌, ◌≡◌, refl, ◌∙◌, ℤ, pos, negsuc, ◌+ℤ◌, ◌≤ℤ◌, abs_ℕ, abs_ℕ-add, pos_part,
  to_i64, to_i64_id, int_laws, some, arith,
}
use motor_control.Double.{Double, ◌≼◌, ◌⊗◌, ◌⊘◌, nought, fclamp}
use motor_control.Double.Laws.{IsOrdered, IsMonotone, fclamp_bounds}
use motor_control.Commands.Waveform.{HystVelocityCommand, HystPositionCommand}
use motor_control.Waveform.Hysteresis.{
  HysteresisPlan, hyst_start_lead_ns, clamp_settle, clamp_record, cycles_s, to_ns, fill_hyst_timing,
  velocity_plan, position_plan, make_hyst_velocity_plan, make_hyst_position_plan,
}

-- Two waits after the lead are in order, and none of the times wraps around.
window_in_order :
    (now settle record_ns : ℤ)
    → abs_ℕ now < 2 ^ 61
    → pos 0 ≤ℤ settle
    → settle ≤ℤ pos (2 * (10000 * 1000 * 1_000_000_000))
    → pos 0 ≤ℤ record_ns
    → record_ns ≤ℤ pos (2 * (10000 * 1000 * 1_000_000_000))
    → let start = to_i64 (now +ℤ hyst_start_lead_ns) in
      let log_start = to_i64 (start +ℤ settle) in
      (start ≡ now +ℤ hyst_start_lead_ns)
      × (start ≤ℤ log_start)
      × (log_start ≤ℤ to_i64 (log_start +ℤ record_ns))
window_in_order now (negsuc n) record_ns near s_low s_high r_low r_high = absurd (omega arith)
window_in_order now (pos n) (negsuc k) near s_low s_high r_low r_high = absurd (omega arith)
window_in_order now (pos n) (pos k) near s_low s_high r_low r_high =
    let start = now +ℤ hyst_start_lead_ns in
    let log_start = start +ℤ pos n in
    let near_start = abs_ℕ-add now hyst_start_lead_ns in
    let near_log = abs_ℕ-add start (pos n) in
    let near_end = abs_ℕ-add log_start (pos k) in
    let start_id = to_i64_id start (omega (arith, near_start)) in
    let log_id = to_i64_id log_start (omega (arith, near_start, near_log)) in
    let end_id = to_i64_id (log_start +ℤ pos k) (omega (arith, near_start, near_log, near_end)) in
    rw start_id (rw log_id (rw end_id (refl, omega int_laws, omega int_laws)))

module _ {F : Type 0} ⦃d : Double F⦄ where
  open d use {lit}

  -- The start, the log's start and its end are in order.
  abbrev IsOrderedWindow : HysteresisPlan F → ℤ → Type 0
  IsOrderedWindow plan now_ns =
      (plan.waveform.start_ns ≡ now_ns +ℤ hyst_start_lead_ns)
      × (plan.waveform.start_ns ≤ℤ plan.log_start_ns)
      × (plan.log_start_ns ≤ℤ plan.log_end_ns)

  -- A plan that may run: its times are in order, its frequency and its cycles in their ranges.
  pub record IsRunnable (plan : HysteresisPlan F) (now_ns : ℤ) : Type 0 where
    pub window : IsOrderedWindow plan now_ns
    pub freq : (lit (pos 1) 3 ≼ plan.waveform.freq_hz) × (plan.waveform.freq_hz ≼ lit (pos 1000) 0)
    pub settle : (pos 0 ≤ℤ plan.settle_cycles) × (plan.settle_cycles ≤ℤ pos 1000)
    pub cycles : (pos 1 ≤ℤ plan.record_cycles) × (plan.record_cycles ≤ℤ pos 10000)

module _ {F : Type 0} ⦃d : Double F⦄ (ordered : IsOrdered F) (mono : IsMonotone F) where
  open d use {lit, of_int}
  open mono use {of_int_lit, mul_bounds, recip_bounds, lround_bounds}

  lit_le : (a b : ℕ) → a ≤ b → lit (pos a) 0 ≼ lit (pos b) 0
  lit_le a b h = ordered.lit_mono a b 0 0 (omega arith)

  -- The length of at most 10000 cycles at 0.001 Hz or more, in nanoseconds.
  to_ns_bounds :
      (freq : F) (cycles : ℕ)
      → cycles ≤ 10000
      → lit (pos 1) 3 ≼ freq
      → (pos 0 ≤ℤ to_ns (cycles_s freq (pos cycles)))
        × (to_ns (cycles_s freq (pos cycles)) ≤ℤ pos (2 * 10_000_000_000_000_000))
  to_ns_bounds freq cycles few slow =
      let (recip_low, recip_high) = recip_bounds freq slow in
      let zero_le : nought ≼ of_int (pos cycles) =
        rw (of_int_lit cycles) (lit_le 0 cycles (omega arith)) in
      let le_top : of_int (pos cycles) ≼ lit (pos 10000) 0 =
        rw (of_int_lit cycles) (lit_le cycles 10000 few) in
      let (s_low, s_high) =
        mul_bounds (of_int (pos cycles)) (lit (pos 1) 0 ⊘ freq) 10000 1000 (omega arith)
          (omega arith) zero_le le_top recip_low recip_high in
      let (ns_low, ns_high) =
        mul_bounds (cycles_s freq (pos cycles)) (lit (pos 1_000_000_000) 0) (10000 * 1000)
          1_000_000_000 (omega arith) (omega arith) s_low s_high
          (lit_le 0 1_000_000_000 (omega arith))
          (lit_le 1_000_000_000 1_000_000_000 (omega arith)) in
      lround_bounds (cycles_s freq (pos cycles) ⊗ lit (pos 1_000_000_000) 0)
        (10000 * 1000 * 1_000_000_000) (omega arith) ns_low ns_high

  fill_hyst_timing-IsOrderedWindow :
      (plan : HysteresisPlan F) (settle record_n : ℕ) (now_ns : ℤ)
      → plan.settle_cycles ≡ pos settle
      → plan.record_cycles ≡ pos record_n
      → settle ≤ 10000
      → record_n ≤ 10000
      → lit (pos 1) 3 ≼ plan.waveform.freq_hz
      → abs_ℕ now_ns < 2 ^ 61
      → IsOrderedWindow (fill_hyst_timing plan now_ns) now_ns
  unfolding fill_hyst_timing
  fill_hyst_timing-IsOrderedWindow plan settle record_n now_ns hs hr few_s few_r slow near =
      let (s_low, s_high) = to_ns_bounds plan.waveform.freq_hz settle few_s slow in
      let (r_low, r_high) = to_ns_bounds plan.waveform.freq_hz record_n few_r slow in
      let times =
        window_in_order now_ns (to_ns (cycles_s plan.waveform.freq_hz (pos settle)))
          (to_ns (cycles_s plan.waveform.freq_hz (pos record_n))) near s_low s_high r_low r_high in
      rw (hs, hr) times

  -- The times of a plan whose numbers are clamped make it runnable.
  fill_hyst_timing-IsRunnable :
      (plan : HysteresisPlan F) (settle record_n now_ns : ℤ) (freq : F)
      → plan.settle_cycles ≡ clamp_settle settle
      → plan.record_cycles ≡ clamp_record record_n
      → plan.waveform.freq_hz ≡ fclamp (lit (pos 1) 3) (lit (pos 1000) 0) freq
      → abs_ℕ now_ns < 2 ^ 61
      → IsRunnable (fill_hyst_timing plan now_ns) now_ns
  unfolding fill_hyst_timing
  fill_hyst_timing-IsRunnable plan settle record_n now_ns freq hs hr hf near =
      let few_s : clamp_settle settle ≡ pos (pos_part (clamp_settle settle)) = ground arith in
      let few_r : clamp_record record_n ≡ pos (pos_part (clamp_record record_n)) = ground arith in
      let (low, high) =
        fclamp_bounds ordered (lit (pos 1) 3) (lit (pos 1000) 0) freq
          (ordered.lit_mono 1 1000 3 0 (omega arith)) in
      record {
        window =
            fill_hyst_timing-IsOrderedWindow plan (pos_part (clamp_settle settle))
              (pos_part (clamp_record record_n)) now_ns (hs ∙ few_s) (hr ∙ few_r) (ground arith)
              (ground arith) (rw hf low) near;
        freq = rw hf (low, high);
        settle = rw hs (ground arith);
        cycles = rw hr (ground arith);
      }

  -- With numbers ordered, multiplied, inverted and rounded as IEEE 754 and cmath document, and
  -- the clock below 2^61 ns: a velocity test that is accepted starts its waveform 250 ms after
  -- now, opens its log at that time or later and closes it at the opening or later, none of the
  -- times wrapped around; its frequency is in [0.001, 1000] Hz, its settling cycles in [0,
  -- 1000] and its recorded cycles in [1, 10000], whatever the command asks for.
  pub make_hyst_velocity_plan-IsRunnable :
      (cmd : HystVelocityCommand F) (max_abs now_ns : ℤ) (plan : HysteresisPlan F)
      → abs_ℕ now_ns < 2 ^ 61
      → make_hyst_velocity_plan cmd max_abs now_ns ≡ some plan
      → IsRunnable plan now_ns
  unfolding make_hyst_velocity_plan velocity_plan
  make_hyst_velocity_plan-IsRunnable cmd max_abs now_ns plan near made =
      let runs =
        fill_hyst_timing-IsRunnable (velocity_plan cmd max_abs) cmd.settle_cycles cmd.record_cycles
          now_ns cmd.freq_hz refl refl refl near in
      subst (λ p. IsRunnable {F = F} p now_ns) (ground arith) runs

  -- With numbers as in the velocity test and the clock below 2^61 ns: a position test that is
  -- accepted has the times, frequency and cycles of a runnable plan, and its speed limit is the
  -- one of its waveform and between 1 and 100000000 ticks a second.
  pub make_hyst_position_plan-IsRunnable :
      (cmd : HystPositionCommand F) (now_ns : ℤ) (plan : HysteresisPlan F)
      → abs_ℕ now_ns < 2 ^ 61
      → make_hyst_position_plan cmd now_ns ≡ some plan
      → IsRunnable plan now_ns
        × (plan.max_tps ≡ plan.waveform.max_pos_tps)
        × (lit (pos 1) 0 ≼ plan.max_tps)
        × (plan.max_tps ≼ lit (pos 100000000) 0)
  unfolding make_hyst_position_plan position_plan fill_hyst_timing
  make_hyst_position_plan-IsRunnable cmd now_ns plan near made =
      let runs =
        fill_hyst_timing-IsRunnable (position_plan cmd) cmd.settle_cycles cmd.record_cycles now_ns
          cmd.freq_hz refl refl refl near in
      let (low, high) =
        fclamp_bounds ordered (lit (pos 1) 0) (lit (pos 100000000) 0) cmd.max_tps
          (lit_le 1 100000000 (omega arith)) in
      subst
        (λ p.
          IsRunnable {F = F} p now_ns
          × (p.max_tps ≡ p.waveform.max_pos_tps)
          × (lit (pos 1) 0 ≼ p.max_tps)
          × (p.max_tps ≼ lit (pos 100000000) 0))
        (ground arith) (runs, refl, low, high)
