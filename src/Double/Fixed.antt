-- ===== src/Double/Fixed.antt =====
-- A concrete number type that meets the laws: millionths as integers, with `none` for NaN.
pub mod Monotone
pub mod Rounding
use motor_control.Base.{
  ℕ, zero, suc, ◌+◌, ◌*◌, ◌/◌, ◌^◌, ◌≤◌, ◌<◌, refl, Bool, true, false, ℤ, pos, negsuc, arith,
  Option, none, some, ltb, ◌≤ℤ◌, abs_ℕ, le_ℤ, lt_ℤ, sub_ℕ, neg_ℤ, ◌+ℤ◌, ◌-ℤ◌, ◌*ℤ◌, if◌then◌else◌,
}
use native.Mathlib.Nat.{
  one-le-pow, mul_right_comm, mul-div-le, mul-le-mul_right, le-div_iff_mul-le,
  le_of_mul-le-mul_right,
}
use motor_control.Double.{Double}
use motor_control.Double.Laws.{IsOrdered}

abbrev pub Fixed : Type 0
Fixed = Option ℤ

abbrev pub scale : ℕ
scale = 1_000_000

abbrev lift : (ℤ → ℤ → ℤ) → Fixed → Fixed → Fixed
lift f (some a) (some b) = some (f a b)
lift f _ _ = none

abbrev test : (ℤ → ℤ → Bool) → Fixed → Fixed → Bool
test f (some a) (some b) = f a b
test f _ _ = false

abbrev lift_one : (ℤ → ℤ) → Fixed → Fixed
lift_one f (some a) = some (f a)
lift_one f none = none

-- a * k, where k is a number.
abbrev pub times : ℤ → ℕ → ℤ
times (pos n) k = pos (n * k)
times (negsuc n) k = sub_ℕ 0 (suc n * k)

abbrev pub over : ℤ → ℕ → ℤ
over (pos n) k = pos (n / k)
over (negsuc n) k = sub_ℕ 0 (suc n / k)

abbrev pub fixed_div : ℤ → ℤ → Fixed
fixed_div a (pos zero) = none
fixed_div a (pos (suc n)) = some (over (times a scale) (suc n))
fixed_div a (negsuc n) = some (neg_ℤ (over (times a scale) (suc n)))

abbrev divide : Fixed → Fixed → Fixed
divide (some a) (some b) = fixed_div a b
divide _ _ = none

abbrev sign_int : ℤ → ℕ → ℤ
sign_int (pos n) k = pos k
sign_int (negsuc n) k = sub_ℕ 0 k

-- Half away from zero.
abbrev pub round : Fixed → ℤ
round (some (pos n)) = pos ((n + 500_000) / scale)
round (some (negsuc n)) = sub_ℕ 0 ((suc n + 500_000) / scale)
round none = pos 0

abbrev unit_clamp : ℤ → ℤ
unit_clamp (pos n) = if ltb scale n then pos scale else pos n
unit_clamp (negsuc n) = if ltb scale n then sub_ℕ 0 scale else negsuc n

abbrev is_some : Fixed → Bool
is_some (some a) = true
is_some none = false

abbrev rest_of : ℤ → ℤ → ℤ
rest_of a b = a -ℤ over (times a 1) (abs_ℕ b) *ℤ sign_int a (abs_ℕ b)

instance abbrev pub fixed_double : Double Fixed
fixed_double = record {
  lit = λ m e. some (over (times m scale) (10 ^ e));
  of_int = λ a. some (times a scale);
  add = lift ◌+ℤ◌;
  sub = lift ◌-ℤ◌;
  mul = lift (λ a b. over (a *ℤ b) scale);
  div = divide;
  neg = lift_one neg_ℤ;
  abs = lift_one (λ a. pos (abs_ℕ a));
  lt = test lt_ℤ;
  le = test le_ℤ;
  is_finite = is_some;
  lround = round;
  sin = lift_one (λ a. pos 0);
  cos = lift_one (λ a. pos scale);
  tanh = lift_one unit_clamp;
  fmod = lift rest_of;
  to_float = λ a. a;
}

pub times_mono : (a b : ℤ) → a ≤ℤ b → times a scale ≤ℤ times b scale
times_mono (pos a) (pos b) h = ground arith
times_mono (pos a) (negsuc b) h = ground arith
times_mono (negsuc a) (pos b) h = ground arith
times_mono (negsuc a) (negsuc b) h = ground arith

-- Floors of quotients are in the order of the quotients.
div_mono : (m n A B : ℕ) → m * B ≤ n * A → 0 < A → 0 < B → m / A ≤ n / B
div_mono m n A B h ha hb =
    let quotient : m / A * A ≤ m = ground (arith, mul-div-le m A) in
    let scaled : m / A * A * B ≤ m * B = mul-le-mul_right B quotient in
    let swapped : m / A * B * A ≤ n * A = ground (arith, scaled, mul_right_comm (m / A) A B) in
    (le-div_iff_mul-le hb).1 (le_of_mul-le-mul_right swapped ha)

power_positive : (e : ℕ) → 0 < 10 ^ e
power_positive e = one-le-pow e 10 (omega arith)

lit_mono_fixed : (a b e f : ℕ) → a * 10 ^ f ≤ b * 10 ^ e → a * scale / 10 ^ e ≤ b * scale / 10 ^ f
lit_mono_fixed a b e f h =
    let scaled : a * 10 ^ f * scale ≤ b * 10 ^ e * scale = mul-le-mul_right scale h in
    let swapped : a * scale * 10 ^ f ≤ b * scale * 10 ^ e =
      rw (mul_right_comm a scale (10 ^ f), mul_right_comm b scale (10 ^ e)) scaled in
    div_mono (a * scale) (b * scale) (10 ^ e) (10 ^ f) swapped (power_positive e) (power_positive f)

pub Fixed-IsOrdered : IsOrdered Fixed
Fixed-IsOrdered = record {
  refl_of_le = ground arith;
  le_trans = ground arith;
  le_of_lt = ground arith;
  le_of_not_lt = ground arith;
  of_int_mono = λ a b h. ground (arith, times_mono a b);
  lit_mono = λ a b e f h. ground (arith, lit_mono_fixed a b e f h);
  nought_lem = refl;
}
