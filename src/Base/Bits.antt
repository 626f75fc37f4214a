-- ===== src/Base/Bits.antt =====
-- `get_base_type_by_raw` (phper/src/types.rs) masks the lowest byte of a type word: what such a mask
-- keeps is the remainder.
use Prim.Native.Nat.{ℕ, zero, suc, ◌+◌, ◌*◌, ◌/◌, ◌%◌, ◌≤◌, min, bit_and, digits, bit_and-bitwise}
use mathlib.Core.Path.{◌≡◌, refl, ap}
use native.Mathlib.Omega.{arith}

-- A mask of so many ones, and what it keeps of a number.
abbrev ones : ℕ → ℕ
ones zero = 0
ones (suc k) = ones k * 2 + 1

abbrev low : ℕ → ℕ → ℕ
low zero a = 0
low (suc k) a = low k (a / 2) * 2 + a % 2

abbrev masked : ℕ → ℕ → ℕ → ℕ
masked n a m = digits (λ b. zero) min n a m

low_zero : (k : ℕ) → low k 0 ≡ 0
low_zero zero = refl
low_zero (suc k) = omega (arith, low_zero k)

-- As many digits as the number itself are enough to go.
masked-ones : (k n a : ℕ) → a ≤ n → masked n a (ones k) ≡ low k a
masked-ones k zero zero h = omega (arith, low_zero k)
masked-ones k zero (suc a) h = absurd (omega arith)
masked-ones k (suc n) zero h = omega (arith, low_zero k)
masked-ones zero (suc n) (suc a) h = omega (arith, masked-ones zero n (suc a / 2) (omega arith))
masked-ones (suc k) (suc n) (suc a) h =
    let shifted : ones (suc k) / 2 ≡ ones k = omega arith in
    omega (arith, ap (masked n (suc a / 2)) shifted, masked-ones k n (suc a / 2) (omega arith))

low_byte : (a : ℕ) → low 8 a ≡ a % 256
low_byte a = omega arith

pub bit_and-byte : (a : ℕ) → bit_and a 255 ≡ a % 256
bit_and-byte a = omega (arith, bit_and-bitwise a 255, masked-ones 8 a a (omega arith), low_byte a)
