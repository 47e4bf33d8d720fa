-- ===== src/Control/ForcePid.antt =====
-- cpp/src/epos_control/include/control/force_pid.hpp: the PID and the tanh controller of the force.
pub mod Bounds
use motor_control.Base.{Bool, true, false, ◌||◌, ℤ, pos, negsuc, if◌then◌else◌}
use motor_control.Double.{Double, ◌⊕◌, ◌⊖◌, ◌⊗◌, ◌⊘◌, nought, fmin, fmax, fclamp}

-- struct ForcePID
pub record ForcePid (F : Type 0) : Type 0 where
  pub kp : F
  pub ki : F
  pub kd : F
  pub integral : F
  pub prev_measurement : F
  pub d_filtered : F
  pub integral_limit : F
  pub output_limit : F
  pub d_filter_alpha : F
  pub first : Bool

-- struct ForceTanh
pub record ForceTanh (F : Type 0) : Type 0 where
  pub max_rpm : F
  pub sensitivity_mn : F
  pub deadband_mn : F

module _ {F : Type 0} ⦃d : Double F⦄ where
  open d use {lit, neg, abs, lt, le, tanh}

  abbrev pub default_pid : ForcePid F
  default_pid = record {
    kp = nought;
    ki = nought;
    kd = nought;
    integral = nought;
    prev_measurement = nought;
    d_filtered = nought;
    integral_limit = lit (pos 3000) 0;
    output_limit = lit (pos 3000) 0;
    d_filter_alpha = lit (pos 1) 1;
    first = true;
  }

  abbrev pub default_tanh : ForceTanh F
  default_tanh = record {
    max_rpm = lit (pos 3000) 0;
    sensitivity_mn = lit (pos 1000) 0;
    deadband_mn = lit (pos 10) 0;
  }

  -- ForcePID::reset
  unfoldable pub reset : ForcePid F → ForcePid F
  reset p = record p {
    integral = nought;
    prev_measurement = nought;
    d_filtered = nought;
    first = true;
  }

  -- ForcePID::compute, with the controller after the call.
  unfoldable pub pid_compute : ForcePid F → F → F → F → F × ForcePid F
  pid_compute p target measurement dt_s =
      let error = target ⊖ measurement in
      let integral = fclamp (neg p.integral_limit) p.integral_limit (p.integral ⊕ error ⊗ dt_s) in
      let d_raw = if p.first then nought else neg (measurement ⊖ p.prev_measurement) ⊘ dt_s in
      let d_filtered =
        p.d_filter_alpha ⊗ d_raw ⊕ (lit (pos 1) 0 ⊖ p.d_filter_alpha) ⊗ p.d_filtered in
      let output = p.kp ⊗ error ⊕ p.ki ⊗ integral ⊕ p.kd ⊗ d_filtered in
      if le dt_s nought || lt (lit (pos 1) 0) dt_s then (nought, p) else (
        fclamp (neg p.output_limit) p.output_limit output,
        record p {
          integral = integral;
          prev_measurement = measurement;
          d_filtered = d_filtered;
          first = false;
        },
      )

  -- ForceTanh::compute
  unfoldable pub tanh_compute : ForceTanh F → F → F → F
  tanh_compute t target measurement =
      let error = target ⊖ measurement in
      let abs_err = abs error in
      let deadband = fmax nought t.deadband_mn in
      let sensitivity = fmax (lit (pos 1) 0) (abs t.sensitivity_mn) in
      let sign = if lt nought error then lit (pos 1) 0 else lit (negsuc 0) 0 in
      if le abs_err deadband
      then nought
      else t.max_rpm ⊗ tanh ((abs_err ⊖ deadband) ⊘ sensitivity) ⊗ sign
