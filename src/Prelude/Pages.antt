-- ===== src/Prelude/Pages.antt =====
-- Masks of the upper bits: `x & ~m` with a mask `m` of the lowest bits rounds `x` down.
use Prim.Native.Nat.{
  ℕ, zero, suc, ◌+◌, ◌-◌, ◌*◌, ◌/◌, ◌%◌, ◌^◌, ◌≤◌, ◌<◌, min, bit_and, digits, bit_and-bitwise,
}
use mathlib.Core.Path.{◌≡◌, sym, ap, ◌∙◌, subst}
use native.Mathlib.Omega.{arith}
use native.Mathlib.Nat.{mul_assoc, mul-add-mod_self_right, mul-mod_left, mod-eq_of_lt}
use nson.Prelude.Bits.{ones, low, masked, low-zero, bit_and-ones}

pub pow_suc : (k : ℕ) → 2 ^ suc k ≡ 2 ^ k * 2
pow_suc k = omega arith

-- `n` ones above `k` zeros.
unfoldable upper : ℕ → ℕ → ℕ
upper zero n = ones n
upper (suc k) n = upper k n * 2

low_below : (k a : ℕ) → low k a < 2 ^ k
unfolding low
low_below zero a = omega arith
low_below (suc k) a = omega (arith, low_below k (a / 2))

-- What stands above the lowest `k` bits.
unfoldable high : ℕ → ℕ → ℕ
high zero a = a
high (suc k) a = high k (a / 2)

high-low : (k a : ℕ) → a ≡ high k a * 2 ^ k + low k a
unfolding high low
high-low zero a = omega arith
high-low (suc k) a = omega (
  arith,
  high-low k (a / 2),
  mul_assoc (high k (a / 2)) (2 ^ k) 2,
  ap (λ t. high k (a / 2) * t) (pow_suc k),
)

pub low_rem : (k a : ℕ) → low k a ≡ a % 2 ^ k
low_rem k a = sym (
    ap (λ t. t % 2 ^ k) (high-low k a)
    ∙ mul-add-mod_self_right (high k a) (2 ^ k) (low k a)
    ∙ mod-eq_of_lt (low_below k a))

ones_pow : (k : ℕ) → ones k + 1 ≡ 2 ^ k
unfolding ones
ones_pow zero = omega arith
ones_pow (suc k) = omega (arith, ones_pow k)

add_zero : (n : ℕ) → 0 + n ≡ n
add_zero n = omega arith

add_suc : (k n : ℕ) → suc k + n ≡ suc (k + n)
add_suc k n = omega arith

upper-ones : (k n : ℕ) → upper k n + ones k ≡ ones (k + n)
unfolding ones upper
upper-ones zero n = omega (arith, ap ones (add_zero n))
upper-ones (suc k) n = omega (arith, upper-ones k n, ap ones (add_suc k n))

low_small : (n a : ℕ) → a < 2 ^ n → low n a ≡ a
low_small n a h = low_rem n a ∙ mod-eq_of_lt h

-- The recursion behind the native operation, with enough rounds for `a`.
masked_upper :
    (rounds k n a : ℕ)
    → a ≤ rounds
    → a < 2 ^ (k + n)
    → digits (λ m. 0) min rounds a (upper k n) + low k a ≡ a
unfolding upper low
masked_upper rounds zero n a enough le = omega (
  arith,
  masked rounds n a enough,
  low_small n a (omega (arith, le, ap (λ t. 2 ^ t) (add_zero n))),
)
masked_upper zero (suc k) n zero enough le = omega (arith, low-zero k)
masked_upper (suc r) (suc k) n zero enough le = omega (arith, low-zero k)
masked_upper zero (suc k) n (suc a) enough le = absurd (omega arith)
masked_upper (suc r) (suc k) n (suc a) enough le =
    let half : upper k n * 2 / 2 ≡ upper k n = omega arith in
    let below : suc a / 2 < 2 ^ (k + n) = omega (arith, le, ap (λ t. 2 ^ t) (add_suc k n)) in
    rw half (omega (arith, masked_upper r k n (suc a / 2) (omega arith) below))

-- `x & ~(2^k - 1)` in 64 bits.
bit_and-upper :
    (k n x : ℕ) → x < 2 ^ (k + n) → bit_and x (2 ^ (k + n) - 1 - (2 ^ k - 1)) + x % 2 ^ k ≡ x
bit_and-upper k n x le =
    let mask : 2 ^ (k + n) - 1 - (2 ^ k - 1) ≡ upper k n =
      omega (arith, ones_pow k, ones_pow (k + n), upper-ones k n) in
    rw mask (
      omega
        (arith, bit_and-bitwise x (upper k n), masked_upper x k n x (omega arith) le, low_rem k x))

-- Rounded down to a multiple.
bit_and-multiple :
    (k n x : ℕ) → x < 2 ^ (k + n) → bit_and x (2 ^ (k + n) - 1 - (2 ^ k - 1)) % 2 ^ k ≡ 0
bit_and-multiple k n x le =
    let rounded : bit_and x (2 ^ (k + n) - 1 - (2 ^ k - 1)) ≡ high k x * 2 ^ k =
      omega (arith, bit_and-upper k n x le, low_rem k x, high-low k x) in
    ap (λ t. t % 2 ^ k) rounded ∙ mul-mod_left (high k x) (2 ^ k)

pub bit_and-mask : (k x : ℕ) → bit_and x (2 ^ k - 1) ≡ x % 2 ^ k
bit_and-mask k x =
    let mask : 2 ^ k - 1 ≡ ones k = omega (arith, ones_pow k) in
    rw mask (bit_and-ones k x ∙ low_rem k x)

-- The two, where the width is the sum of the bits kept and dropped.
pub bit_and-pages :
    (k n width x : ℕ)
    → k + n ≡ width
    → x < 2 ^ width
    → (bit_and x (2 ^ width - 1 - (2 ^ k - 1)) + x % 2 ^ k ≡ x)
      × (bit_and x (2 ^ width - 1 - (2 ^ k - 1)) % 2 ^ k ≡ 0)
bit_and-pages k n width x e le =
    let below : x < 2 ^ (k + n) = omega (arith, le, ap (λ t. 2 ^ t) e) in
    subst
      (λ w.
        (bit_and x (2 ^ w - 1 - (2 ^ k - 1)) + x % 2 ^ k ≡ x)
        × (bit_and x (2 ^ w - 1 - (2 ^ k - 1)) % 2 ^ k ≡ 0))
      e (bit_and-upper k n x below, bit_and-multiple k n x below)
