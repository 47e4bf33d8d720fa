-- ===== src/Double/Fixed/Rounding.antt =====
-- The concrete numbers meet the laws of rounding.
use mathlib.Core.Path.{subst}
use motor_control.Base.{
  ℕ, zero, suc, ◌+◌, ◌*◌, ◌/◌, ◌≤◌, ◌<◌, ◌≡◌, ap, ℤ, pos, negsuc, arith, none, some, ◌*ℤ◌, ◌≤ℤ◌,
  abs_ℕ, neg_ℤ, le_ℤ, true, sym,
}
use native.Mathlib.Nat.{mul-le-mul_right, mul-le-mul_left, div-le_of_le-mul}
use motor_control.Double.{◌≼◌, ◌⊗◌, ◌⊘◌, nought}
use motor_control.Double.Rounding.{IsRounding}
use motor_control.Double.Fixed.{Fixed, fixed_double, scale, times, over, round, fixed_div}

div_bounds :
    (a c d : ℕ)
    → 0 < d
    → a * scale ≤ d * c
    → (nought ≼ fixed_div (pos a) (pos d)) × (fixed_div (pos a) (pos d) ≼ some (pos c))
div_bounds a c zero p h = absurd (omega (arith, p))
div_bounds a c (suc d) p h =
    let small : a * scale / suc d ≤ c = div-le_of_le-mul (suc d) h in
    (ground arith, ground (arith, small))

quotient_lem :
    (n m : ℕ)
    → let k = fixed_div (pos (n * scale)) (pos (suc m * scale)) in
      (nought ≼ k) × (k ≼ some (pos (n * scale)))
quotient_lem n m =
    let split : suc m * scale * (n * scale) ≡ n * scale * scale + m * scale * (n * scale) =
      grind arith in
    div_bounds (n * scale) (n * scale) (suc m * scale) (omega arith) (omega (arith, split))

-- Half away from zero is in the order of the numbers.
round_mono : (a b : ℤ) → a ≤ℤ b → round (some a) ≤ℤ round (some b)
round_mono (pos a) (pos b) h = ground arith
round_mono (pos a) (negsuc b) h = ground arith
round_mono (negsuc a) (pos b) h = ground arith
round_mono (negsuc a) (negsuc b) h = ground arith

round-times : (a : ℤ) → round (some (times a scale)) ≡ a
round-times (pos n) = ground arith
round-times (negsuc n) = ground arith

-- A product by a positive number of millionths.
scaled : ℤ → ℕ → ℤ
scaled a c = over (a *ℤ pos c) scale

over_mono : (a b : ℤ) → a ≤ℤ b → over a scale ≤ℤ over b scale
over_mono (pos a) (pos b) h = ground arith
over_mono (pos a) (negsuc b) h = ground arith
over_mono (negsuc a) (pos b) h = ground arith
over_mono (negsuc a) (negsuc b) h = ground arith

mul_mono : (a b : ℤ) (c : ℕ) → a ≤ℤ b → (a *ℤ pos c) ≤ℤ (b *ℤ pos c)
unfolding ◌*ℤ◌
mul_mono (pos a) (pos b) c h =
    let p : a * c ≤ b * c = mul-le-mul_right c (omega (arith, h)) in ground (arith, p)
mul_mono (pos a) (negsuc b) c h = ground arith
mul_mono (negsuc a) (pos b) c h = ground arith
mul_mono (negsuc a) (negsuc b) c h =
    let p : suc b * c ≤ suc a * c = mul-le-mul_right c (omega (arith, h)) in ground (arith, p)

scaled_mono : (a b : ℤ) (c : ℕ) → a ≤ℤ b → scaled a c ≤ℤ scaled b c
unfolding scaled
scaled_mono a b c h = over_mono (a *ℤ pos c) (b *ℤ pos c) (mul_mono a b c h)

-- The same product in whole numbers.
part_le : (a c n : ℕ) → c ≤ n * scale → a * scale * c ≤ a * n * scale * scale
part_le a c n h =
    let moved : a * scale * (n * scale) ≡ a * n * scale * scale = grind arith in
    let p : a * scale * c ≤ a * scale * (n * scale) = mul-le-mul_left (a * scale) h in
    omega (arith, moved, p)

scaled-times :
    (a : ℤ) (c n : ℕ)
    → c ≤ n * scale
    → (neg_ℤ (pos (abs_ℕ a * n * scale)) ≤ℤ scaled (times a scale) c)
      × (scaled (times a scale) c ≤ℤ pos (abs_ℕ a * n * scale))
unfolding scaled ◌*ℤ◌
scaled-times (pos a) c n h = let p = part_le a c n h in (ground (arith, p), ground (arith, p))
scaled-times (negsuc a) c n h =
    let p = part_le (suc a) c n h in (ground (arith, p), ground (arith, p))

lit_whole : (n : ℕ) → fixed_double.lit (pos n) 0 ≡ some (pos (n * scale))
lit_whole n = ap (λ k. some (pos k)) (omega arith)

quotient_bounds_fixed :
    (n m : ℕ)
    → let k : Fixed = fixed_double.lit (pos n) 0 ⊘ fixed_double.of_int (pos (suc m)) in
      (nought ≼ k) × (k ≼ fixed_double.lit (pos n) 0)
quotient_bounds_fixed n m =
    subst
      (λ (z : Fixed).
        (nought ≼ z ⊘ fixed_double.of_int (pos (suc m)))
        × (z ⊘ fixed_double.of_int (pos (suc m)) ≼ z))
      (sym (lit_whole n)) (quotient_lem n m)

le_of : (a b : ℤ) → a ≤ℤ b → le_ℤ a b ≡ true
le_of a b h = ground arith

times-neg_ℤ : (k : ℕ) → times (neg_ℤ (pos k)) scale ≡ neg_ℤ (pos (k * scale))
times-neg_ℤ k = ground arith

mul_between_fixed :
    (a b : ℤ) (x k : Fixed)
    → fixed_double.of_int a ≼ x
    → x ≼ fixed_double.of_int b
    → nought ≼ k
    → (fixed_double.of_int a ⊗ k ≼ x ⊗ k) × (x ⊗ k ≼ fixed_double.of_int b ⊗ k)
unfolding scaled
mul_between_fixed a b (some x) (some (pos c)) low high h =
    let p : scaled (times a scale) c ≤ℤ scaled x c =
      scaled_mono (times a scale) x c (ground (arith, low)) in
    let q : scaled x c ≤ℤ scaled (times b scale) c =
      scaled_mono x (times b scale) c (ground (arith, high)) in
    (
      le_of (scaled (times a scale) c) (scaled x c) p,
      le_of (scaled x c) (scaled (times b scale) c) q,
    )
mul_between_fixed a b (some x) (some (negsuc c)) low high h = absurd (ground arith)
mul_between_fixed a b (some x) none low high h = absurd (ground arith)
mul_between_fixed a b none k low high h = absurd (ground arith)

mul_range_fixed :
    (a : ℤ) (k : Fixed) (n : ℕ)
    → nought ≼ k
    → k ≼ fixed_double.lit (pos n) 0
    → (fixed_double.of_int (neg_ℤ (pos (abs_ℕ a * n))) ≼ fixed_double.of_int a ⊗ k)
      × (fixed_double.of_int a ⊗ k ≼ fixed_double.of_int (pos (abs_ℕ a * n)))
unfolding scaled
mul_range_fixed a (some (pos c)) n h g =
    let small : c ≤ n * scale = ground (arith, g) in
    let (p, q) = scaled-times a c n small in
    let low = subst (λ z. z ≤ℤ scaled (times a scale) c) (sym (times-neg_ℤ (abs_ℕ a * n))) p in
    (
      le_of (times (neg_ℤ (pos (abs_ℕ a * n))) scale) (scaled (times a scale) c) low,
      le_of (scaled (times a scale) c) (pos (abs_ℕ a * n * scale)) q,
    )
mul_range_fixed a (some (negsuc c)) n h g = absurd (ground arith)
mul_range_fixed a none n h g = absurd (ground arith)

lround_mono_fixed : (a b : ℤ) (x y : Fixed) → x ≼ y → fixed_double.lround x ≤ℤ fixed_double.lround y
lround_mono_fixed a b (some x) (some y) h = round_mono x y (ground (arith, h))
lround_mono_fixed a b none y h = absurd (ground arith)
lround_mono_fixed a b (some x) none h = absurd (ground arith)

pub Fixed-IsRounding : IsRounding Fixed
Fixed-IsRounding = record {
  quotient_bounds = λ n m e. quotient_bounds_fixed n m;
  mul_between = λ a b x k n e ea eb low high h g. mul_between_fixed a b x k low high h;
  mul_range = λ a k n ea e. mul_range_fixed a k n;
  lround_mono = λ a b x y ea eb low h high. lround_mono_fixed a b x y h;
  lround_int = λ a e. round-times a;
}
