-- ===== src/Double/Fixed/Monotone.antt =====
-- The concrete numbers meet the laws of products, reciprocals and rounding.
use mathlib.Core.Path.{subst}
use motor_control.Base.{
  ℕ, zero, suc, ◌*◌, ◌/◌, ◌≤◌, ◌≡◌, ap, pos, negsuc, arith, none, some, ◌*ℤ◌, ◌≤ℤ◌,
}
use native.Mathlib.Nat.{mul-le-mul, div-le_of_le-mul}
use motor_control.Double.{◌≼◌, ◌⊗◌, ◌⊘◌, nought}
use motor_control.Double.Laws.{IsMonotone}
use motor_control.Double.Fixed.{Fixed, fixed_double}

pos-mul-pos : (a b : ℕ) → pos a *ℤ pos b ≡ pos (a * b)
unfolding ◌*ℤ◌
pos-mul-pos a b = ground arith

product_mono : (a b x y : ℕ) → a ≤ b → x ≤ y → a * x / 1_000_000 ≤ b * y / 1_000_000
product_mono a b x y p q = omega (arith, mul-le-mul p q)

mul_mono_fixed :
    (a b x y : Fixed) → nought ≼ a → a ≼ b → nought ≼ x → x ≼ y → (nought ≼ a ⊗ x) × (a ⊗ x ≼ b ⊗ y)
mul_mono_fixed (some (pos a)) (some (pos b)) (some (pos x)) (some (pos y)) ha hb hx hy =
    rw (pos-mul-pos a x, pos-mul-pos b y) (ground arith, ground (arith, product_mono a b x y))
mul_mono_fixed (some (pos a)) (some (negsuc b)) x y ha hb hx hy = absurd (ground arith)
mul_mono_fixed (some (negsuc a)) b x y ha hb hx hy = absurd (ground arith)
mul_mono_fixed none b x y ha hb hx hy = absurd (ground arith)
mul_mono_fixed (some (pos a)) none x y ha hb hx hy = absurd (ground arith)
mul_mono_fixed (some (pos a)) (some (pos b)) none y ha hb hx hy = absurd (ground arith)
mul_mono_fixed (some (pos a)) (some (pos b)) (some (negsuc x)) y ha hb hx hy = absurd (ground arith)
mul_mono_fixed (some (pos a)) (some (pos b)) (some (pos x)) none ha hb hx hy = absurd (ground arith)
mul_mono_fixed (some (pos a)) (some (pos b)) (some (pos x)) (some (negsuc y)) ha hb hx hy =
    absurd (ground arith)

scaled_product : (m n : ℕ) → m * 1_000_000 * (n * 1_000_000) / 1_000_000 ≡ m * n * 1_000_000
scaled_product m n =
    let moved : m * 1_000_000 * (n * 1_000_000) ≡ m * n * 1_000_000 * 1_000_000 = grind arith in
    omega (arith, moved)

unscaled_product :
    (m n : ℕ) → m * 1_000_000 / 1 * (n * 1_000_000 / 1) / 1_000_000 ≡ m * n * 1_000_000 / 1
unscaled_product m n =
    let whole : (k : ℕ) → k / 1 ≡ k = λ k. omega arith in
    rw (whole (m * 1_000_000), whole (n * 1_000_000), whole (m * n * 1_000_000))
      (scaled_product m n)

mul_lit_fixed :
    (m n : ℕ)
    → fixed_double.lit (pos m) 0 ⊗ fixed_double.lit (pos n) 0 ≡ fixed_double.lit (pos (m * n)) 0
mul_lit_fixed m n =
    rw (pos-mul-pos (m * 1_000_000 / 1) (n * 1_000_000 / 1))
      (ap (λ k. some (pos k)) (unscaled_product m n))

mul_bounds_fixed :
    (a x : Fixed) (m n : ℕ)
    → nought ≼ a
    → a ≼ fixed_double.lit (pos m) 0
    → nought ≼ x
    → x ≼ fixed_double.lit (pos n) 0
    → (nought ≼ a ⊗ x) × (a ⊗ x ≼ fixed_double.lit (pos (m * n)) 0)
mul_bounds_fixed a x m n ha hm hx hn =
    let (low, high) =
      mul_mono_fixed a (fixed_double.lit (pos m) 0) x (fixed_double.lit (pos n) 0) ha hm hx hn in
    (low, subst (λ y. a ⊗ x ≼ y) (mul_lit_fixed m n) high)

recip_fixed :
    (x : Fixed)
    → fixed_double.lit (pos 1) 3 ≼ x
    → let r : Fixed = fixed_double.lit (pos 1) 0 ⊘ x in
      (nought ≼ r) × (r ≼ fixed_double.lit (pos 1000) 0)
recip_fixed (some (pos zero)) h = absurd (ground arith)
recip_fixed (some (pos (suc n))) h =
    let small : 1_000_000 * 1_000_000 / suc n ≤ 1_000_000_000 =
      div-le_of_le-mul (suc n) (ground arith) in
    (ground arith, ground (arith, small))
recip_fixed (some (negsuc n)) h = absurd (ground arith)
recip_fixed none h = absurd (ground arith)

lround_fixed :
    (x : Fixed) (n : ℕ)
    → nought ≼ x
    → x ≼ fixed_double.lit (pos n) 0
    → (pos 0 ≤ℤ fixed_double.lround x) × (fixed_double.lround x ≤ℤ pos (2 * n))
lround_fixed (some (pos k)) n low high = (omega arith, ground arith)
lround_fixed (some (negsuc k)) n low high = absurd (ground arith)
lround_fixed none n low high = absurd (ground arith)

pub Fixed-IsMonotone : IsMonotone Fixed
Fixed-IsMonotone = record {
  of_int_lit = λ n. ap (λ k. some (pos k)) (omega arith);
  mul_bounds = λ a x m n p q ha hm hx hn. mul_bounds_fixed a x m n ha hm hx hn;
  recip_bounds = recip_fixed;
  lround_bounds = λ x n small low high. lround_fixed x n low high;
}
