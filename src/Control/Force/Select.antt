-- ===== src/Control/Force/Select.antt =====
-- cpp/src/epos_control/include/control/force_control.hpp: which force is selected.
use motor_control.Base.{◌<◌, ◌^◌, Bool, ℤ, pos, ◌≤ℤ◌, ◌+ℤ◌, ◌/ℤ◌, abs_ℕ, to_i32_id, arith, max_ℤ}
use motor_control.Control.Force.{select_force_feedback}

-- The larger of two magnitudes.
abbrev larger : ℤ → ℤ → ℤ
larger a b = max_ℤ (pos (abs_ℕ a)) (pos (abs_ℕ b))

-- For channels of magnitude below 2^30 mN and any feedback mode: the signed selection and the
-- controlled force are in magnitude at most the larger channel, and the magnitude that is
-- reported lies between that of the signed selection and the larger channel.
select_bounds :
    (a b mode : ℤ) (force_abs : Bool)
    → abs_ℕ a < 2 ^ 30
    → abs_ℕ b < 2 ^ 30
    → let s = select_force_feedback a b mode force_abs in
      (pos (abs_ℕ s.signed_mn) ≤ℤ larger a b)
      × (pos (abs_ℕ s.control_mn) ≤ℤ larger a b)
      × (pos (abs_ℕ s.signed_mn) ≤ℤ s.abs_mn)
      × (s.abs_mn ≤ℤ larger a b)
unfolding select_force_feedback ◌+ℤ◌ ◌/ℤ◌
select_bounds a b mode force_abs ha hb = ground (
  arith,
  to_i32_id (pos (abs_ℕ a)),
  to_i32_id (pos (abs_ℕ b)),
  to_i32_id (a +ℤ b),
  to_i32_id (pos (abs_ℕ a) +ℤ pos (abs_ℕ b)),
)
