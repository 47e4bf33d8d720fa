-- ===== src/Control/ForcePid/Bounds.antt =====
-- cpp/src/epos_control/include/control/force_pid.hpp: the anti-windup and the output limit.
use motor_control.Base.{pos, arith, if◌then◌else◌}
use motor_control.Double.{Double, nought, fclamp, ◌≼◌, ◌⊕◌, ◌⊖◌, ◌⊗◌, ◌⊘◌}
use motor_control.Double.Laws.{IsOrdered, fclamp_bounds}
use motor_control.Control.ForcePid.{ForcePid, pid_compute}

module _ {F : Type 0} ⦃d : Double F⦄ where
  open d use {lit, neg}

  -- With numbers ordered as IEEE 754 documents, the output limit and its negation on the two
  -- sides of 0, the negated integral limit at most the limit, and the integral within its
  -- limits: whatever the target, the measurement and the time step are, NaN included, the
  -- output is within plus or minus the output limit and the new integral within plus or minus
  -- the integral limit.
  pub pid_bounds :
      IsOrdered F
      → (p : ForcePid F) (target measurement dt_s : F) → neg p.integral_limit ≼ p.integral_limit
      → neg p.output_limit ≼ nought
      → nought ≼ p.output_limit
      → (neg p.integral_limit ≼ p.integral) × (p.integral ≼ p.integral_limit)
      → let (output, q) = pid_compute p target measurement dt_s in
        (neg p.output_limit ≼ output)
        × (output ≼ p.output_limit)
        × (neg p.integral_limit ≼ q.integral)
        × (q.integral ≼ p.integral_limit)
  unfolding pid_compute
  pid_bounds laws p target measurement dt_s hi lo hp inside =
      let error = target ⊖ measurement in
      let le_out = IsOrdered.le_trans laws _ _ _ lo hp in
      let integral = fclamp (neg p.integral_limit) p.integral_limit (p.integral ⊕ error ⊗ dt_s) in
      let d_raw = if p.first then nought else neg (measurement ⊖ p.prev_measurement) ⊘ dt_s in
      let d_filtered =
        p.d_filter_alpha ⊗ d_raw ⊕ (lit (pos 1) 0 ⊖ p.d_filter_alpha) ⊗ p.d_filtered in
      let output = p.kp ⊗ error ⊕ p.ki ⊗ integral ⊕ p.kd ⊗ d_filtered in
      ground (
        arith,
        inside,
        lo,
        hp,
        fclamp_bounds laws (neg p.integral_limit) p.integral_limit (p.integral ⊕ error ⊗ dt_s) hi,
        fclamp_bounds laws (neg p.output_limit) p.output_limit output le_out,
      )
