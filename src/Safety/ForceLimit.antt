-- ===== src/Safety/ForceLimit.antt =====
-- cpp/src/epos_control/include/safety/force_limit_guard.hpp: whether a fresh load-cell reading is over
-- the limit. Time is in nanoseconds as int64_t, forces in mN as int32_t.
pub mod Trip
use motor_control.Base.{
  Bool, true, false, ◌&&◌, ◌||◌, not, ℤ, pos, ◌-ℤ◌, lt_ℤ, le_ℤ, max_ℤ, abs_i32, to_i64,
  if◌then◌else◌,
}

-- struct ForceLimitCheck
pub record ForceLimitCheck : Type 0 where
  pub has_valid_data : Bool
  pub over_limit : Bool
  pub peak_mn : ℤ

-- The default argument `stale_ns` of check_force_limit.
abbrev pub default_stale_ns : ℤ
default_stale_ns = pos 500000000

unfoldable pub is_recent_sample : ℤ → ℤ → ℤ → Bool
is_recent_sample now_ns sample_ns stale_ns =
    let age_ns = to_i64 (now_ns -ℤ sample_ns) in
    lt_ℤ (pos 0) sample_ns && (le_ℤ (pos 0) age_ns && lt_ℤ age_ns stale_ns)

abbrev no_check : ForceLimitCheck
no_check = record { has_valid_data = false; over_limit = false; peak_mn = pos 0 }

-- The peak over the channels that are valid.
pub peak_of : Bool → Bool → ℤ → ℤ → ℤ
peak_of valid0 valid1 force0 force1 =
    let peak0 = if valid0 then max_ℤ (pos 0) (abs_i32 force0) else pos 0 in
    if valid1 then max_ℤ peak0 (abs_i32 force1) else peak0

unfoldable pub check_force_limit : ℤ → ℤ → ℤ → ℤ → ℤ → ℤ → ℤ → ForceLimitCheck
check_force_limit limit_mn now_ns force0 force1 last0_ns last1_ns stale_ns =
    let valid0 = is_recent_sample now_ns last0_ns stale_ns in
    let valid1 = is_recent_sample now_ns last1_ns stale_ns in
    let peak = peak_of valid0 valid1 force0 force1 in
    if le_ℤ limit_mn (pos 0)
    then no_check
    else if not (valid0 || valid1)
    then no_check
    else record { has_valid_data = true; over_limit = lt_ℤ limit_mn peak; peak_mn = peak }
