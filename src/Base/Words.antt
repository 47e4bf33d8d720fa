-- ===== src/Base/Words.antt =====
-- Machine integers: the C++ conversions to `int8_t`, `int16_t`, `int32_t` and `int64_t` wrap.
use Prim.Native.Nat.{ℕ, ◌-◌, ◌*◌, ◌%◌, ◌^◌, ◌≤◌, ◌<◌}
use mathlib.Core.Path.{◌≡◌}
use native.Mathlib.Omega.{arith}
use motor_control.Base.Tests.{ltb, if◌then◌else◌}
use motor_control.Base.Int.{ℤ, pos, negsuc, abs_ℕ}

-- The residue modulo `m` of an integer.
abbrev mod_ℤ : ℤ → ℕ → ℕ
mod_ℤ (pos n) m = n % m
mod_ℤ (negsuc n) m = m - 1 - n % m

-- The value in [-h, h) that has the residue of `z` modulo `2 * h`.
abbrev centred : ℕ → ℤ → ℤ
centred h z = let r = mod_ℤ z (2 * h) in if ltb r h then pos r else negsuc (2 * h - r - 1)

-- The conversion to an unsigned 64-bit integer.
unfoldable pub to_u64 : ℤ → ℕ
to_u64 z = mod_ℤ z (2 ^ 64)

unfoldable pub to_i8 : ℤ → ℤ
to_i8 = centred (2 ^ 7)

unfoldable pub to_i16 : ℤ → ℤ
to_i16 = centred (2 ^ 15)

unfoldable pub to_i32 : ℤ → ℤ
to_i32 = centred (2 ^ 31)

unfoldable pub to_i64 : ℤ → ℤ
to_i64 = centred (2 ^ 63)

-- A value that fits keeps its value, and every value fits after the conversion.
pub to_i32_id : (z : ℤ) → abs_ℕ z < 2 ^ 31 → to_i32 z ≡ z
unfolding to_i32
to_i32_id (pos n) h = ground arith
to_i32_id (negsuc n) h = ground arith

pub to_i8_id : (z : ℤ) → abs_ℕ z < 2 ^ 7 → to_i8 z ≡ z
unfolding to_i8
to_i8_id (pos n) h = ground arith
to_i8_id (negsuc n) h = ground arith

pub to_i64_id : (z : ℤ) → abs_ℕ z < 2 ^ 63 → to_i64 z ≡ z
unfolding to_i64
to_i64_id (pos n) h = ground arith
to_i64_id (negsuc n) h = ground arith

pub to_i32_bounds : (z : ℤ) → abs_ℕ (to_i32 z) ≤ 2 ^ 31
unfolding to_i32
to_i32_bounds (pos n) = ground arith
to_i32_bounds (negsuc n) = ground arith

-- `std::abs` on `int32_t`, which cannot represent 2^31.
abbrev pub abs_i32 : ℤ → ℤ
abs_i32 z = to_i32 (pos (abs_ℕ z))
