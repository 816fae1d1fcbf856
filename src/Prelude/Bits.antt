-- ===== src/Prelude/Bits.antt =====
-- Masks: `x & m` with a mask of the lowest bits is the remainder of `x`.
use Prim.Native.Nat.{ℕ, zero, suc, ◌+◌, ◌*◌, ◌/◌, ◌%◌, ◌≤◌, min, bit_and, digits, bit_and-bitwise}
use mathlib.Core.Path.{◌≡◌, refl}
use native.Mathlib.Omega.{arith}

-- The mask of `k` ones.
unfoldable pub ones : ℕ → ℕ
ones zero = 0
ones (suc k) = ones k * 2 + 1

-- The number that the lowest `k` bits spell.
unfoldable pub low : ℕ → ℕ → ℕ
low zero a = 0
low (suc k) a = low k (a / 2) * 2 + a % 2

pub low-zero : (k : ℕ) → low k 0 ≡ 0
unfolding low
low-zero zero = refl
low-zero (suc k) = omega (arith, low-zero k)

-- The recursion behind the native operation, with enough rounds for `a`.
pub masked : (rounds k a : ℕ) → a ≤ rounds → digits (λ m. 0) min rounds a (ones k) ≡ low k a
unfolding ones low
masked zero k zero enough = omega (arith, low-zero k)
masked (suc r) k zero enough = omega (arith, low-zero k)
masked zero k (suc a) enough = absurd (omega arith)
masked (suc r) zero (suc a) enough = omega (arith, masked r zero (suc a / 2) (omega arith))
masked (suc r) (suc k) (suc a) enough =
    let half : (ones k * 2 + 1) / 2 ≡ ones k = omega arith in
    rw half (omega (arith, masked r k (suc a / 2) (omega arith)))

pub bit_and-ones : (k a : ℕ) → bit_and a (ones k) ≡ low k a
bit_and-ones k a = omega (arith, bit_and-bitwise a (ones k), masked a k a (omega arith))

pub bit_and-mask₄ : (a : ℕ) → bit_and a 0x0f ≡ a % 16
unfolding ones low
bit_and-mask₄ a = omega (arith, bit_and-ones 4 a)

pub bit_and-mask₅ : (a : ℕ) → bit_and a 0x1f ≡ a % 32
unfolding ones low
bit_and-mask₅ a = omega (arith, bit_and-ones 5 a)

pub bit_and-mask₆ : (a : ℕ) → bit_and a 0x3f ≡ a % 64
unfolding ones low
bit_and-mask₆ a = omega (arith, bit_and-ones 6 a)
