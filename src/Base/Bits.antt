-- ===== src/Base/Bits.antt =====
-- The mask of a status word: laws of `bit_and` at a variable.
use Prim.Native.Nat.{ℕ, zero, suc, ◌+◌, ◌*◌, ◌/◌, ◌%◌, ◌≤◌, min, bit_and, digits, bit_and-bitwise}
use mathlib.Core.Path.{◌≡◌, refl}
use native.Mathlib.Omega.{arith}

-- The conjunction of the lowest `left` digits.
abbrev masked : ℕ → ℕ → ℕ → ℕ
masked left word mask = digits (λ _. zero) min left word mask

-- Any two counts that cover the word give the same.
masked-left :
    (word mask left left' : ℕ)
    → word ≤ left
    → word ≤ left'
    → masked left word mask ≡ masked left' word mask
masked-left zero mask zero zero h h' = refl
masked-left zero mask zero (suc left') h h' = refl
masked-left zero mask (suc left) zero h h' = refl
masked-left zero mask (suc left) (suc left') h h' = refl
masked-left (suc word) mask zero left' h h' = absurd (omega arith)
masked-left (suc word) mask (suc left) zero h h' = absurd (omega arith)
masked-left (suc word) mask (suc left) (suc left') h h' =
    omega (arith, masked-left (suc word / 2) (mask / 2) left left' (omega arith) (omega arith))

-- The digits of a masked word above the lowest one are those of the halves.
pub bit_and-halves :
    (word mask : ℕ)
    → bit_and word mask ≡ 2 * bit_and (word / 2) (mask / 2) + min (word % 2) (mask % 2)
bit_and-halves zero mask = omega (arith, bit_and-bitwise 0 mask, bit_and-bitwise 0 (mask / 2))
bit_and-halves (suc word) mask = omega (
  arith,
  bit_and-bitwise (suc word) mask,
  bit_and-bitwise (suc word / 2) (mask / 2),
  masked-left (suc word / 2) (mask / 2) word (suc word / 2) (omega arith) (omega arith),
)

masked-none : (left word : ℕ) → masked left word 0 ≡ 0
masked-none zero word = refl
masked-none (suc left) zero = refl
masked-none (suc left) (suc word) = omega (arith, masked-none left (suc word / 2))

-- The lowest and the fourth digit of a masked word.
pub bit_and-lowest : (word mask : ℕ) → bit_and word mask % 2 ≡ min (word % 2) (mask % 2)
bit_and-lowest word mask = omega (arith, bit_and-halves word mask)

pub bit_and-fourth : (word mask : ℕ) → bit_and word mask / 8 % 2 ≡ min (word / 8 % 2) (mask / 8 % 2)
bit_and-fourth word mask = omega (
  arith,
  bit_and-halves word mask,
  bit_and-halves (word / 2) (mask / 2),
  bit_and-halves (word / 2 / 2) (mask / 2 / 2),
  bit_and-lowest (word / 2 / 2 / 2) (mask / 2 / 2 / 2),
)

-- A mask of the fourth digit alone.
pub bit_and-eight : (word : ℕ) → bit_and word 8 ≡ 8 * (word / 8 % 2)
bit_and-eight word = omega (
  arith,
  bit_and-halves word 8,
  bit_and-halves (word / 2) 4,
  bit_and-halves (word / 2 / 2) 2,
  bit_and-halves (word / 2 / 2 / 2) 1,
  bit_and-bitwise (word / 2 / 2 / 2 / 2) 0,
  masked-none (word / 2 / 2 / 2 / 2) (word / 2 / 2 / 2 / 2),
)
