-- ===== src/Prelude/Bits.antt =====
-- Masks: `x & (2^k - 1)` is a remainder, and `x & ~(2^k - 1)` rounds down.
use Prim.Native.Nat.{
  ℕ, zero, suc, ◌+◌, ◌-◌, ◌*◌, ◌/◌, ◌%◌, ◌^◌, ◌≤◌, ◌<◌, min, bit_and, digits, bit_and-bitwise,
}
use mathlib.Core.Path.{◌≡◌, refl, ◌∙◌, ap}
use native.Mathlib.Nat.{pow-suc, div-add-mod', div-div-eq-div-mul, mod-eq_of_lt, add-zero}
use native.Mathlib.Omega.{arith}

-- A remainder by an even number: the lowest bit beside the bits above it.
mod-double : (x m : ℕ) → x % (2 * m) ≡ x / 2 % m * 2 + x % 2
mod-double x m = omega (
  arith,
  ap (λ (t : ℕ). t * m) (div-div-eq-div-mul x 2 m),
  div-add-mod' x (2 * m),
  div-add-mod' (x / 2) m,
)

pub two_pow-pos : (k : ℕ) → 0 < 2 ^ k
two_pow-pos zero = omega arith
two_pow-pos (suc k) = omega (arith, pow-suc 2 k, two_pow-pos k)

mod-two_pow : (x k : ℕ) → x % 2 ^ suc k ≡ x / 2 % 2 ^ k * 2 + x % 2
mod-two_pow x k = ap (λ (t : ℕ). x % t) (omega (arith, pow-suc 2 k)) ∙ mod-double x (2 ^ k)

-- Both laws go by recursion on the digits that the operation stands for.
abbrev conj : ℕ → ℕ → ℕ → ℕ
conj fuel x mask = digits (λ _. 0) min fuel x mask

conj-zero : (fuel mask : ℕ) → conj fuel 0 mask ≡ 0
conj-zero zero mask = refl
conj-zero (suc fuel) mask = refl

conj_low : (fuel k x : ℕ) → x ≤ fuel → conj fuel x (2 ^ k - 1) ≡ x % 2 ^ k
conj_low fuel k zero h = omega (arith, conj-zero fuel (2 ^ k - 1), two_pow-pos k)
conj_low zero k (suc x) h = absurd (omega arith)
conj_low (suc fuel) zero (suc x) h = omega (arith, conj_low fuel 0 (suc x / 2) (omega arith))
conj_low (suc fuel) (suc k) (suc x) h = omega (
  arith,
  ap (conj fuel (suc x / 2)) half,
  conj_low fuel k (suc x / 2) (omega arith),
  mod-two_pow (suc x) k,
  pow-suc 2 k,
  two_pow-pos k,
)
  where
    half : (2 ^ suc k - 1) / 2 ≡ 2 ^ k - 1
    half = omega (arith, pow-suc 2 k, two_pow-pos k)

-- `w` bits, the lowest `k` of them cleared.
conj_high :
    (fuel d k x : ℕ)
    → x ≤ fuel
    → x < 2 ^ (d + k)
    → conj fuel x (2 ^ (d + k) - 2 ^ k) ≡ x - x % 2 ^ k
conj_high fuel d k zero h lt = omega (arith, conj-zero fuel (2 ^ (d + k) - 2 ^ k))
conj_high zero d k (suc x) h lt = absurd (omega arith)
conj_high (suc fuel) d zero (suc x) h lt = omega (
  arith,
  ap (λ (n : ℕ). conj (suc fuel) (suc x) (2 ^ n - 1)) (add-zero d),
  conj_low (suc fuel) d (suc x) h,
  ap (λ (n : ℕ). 2 ^ n) (add-zero d),
  mod-eq_of_lt {n = suc x} {m = 2 ^ d} (omega (arith, ap (λ (n : ℕ). 2 ^ n) (add-zero d))),
)
conj_high (suc fuel) d (suc k) (suc x) h lt = omega (
  arith,
  ap (conj (suc fuel) (suc x)) wide,
  ap (conj fuel (suc x / 2)) half,
  conj_high fuel d k (suc x / 2) (omega arith) (omega (arith, double)),
  mod-two_pow (suc x) k,
)
  where
    double : 2 ^ (d + suc k) ≡ 2 ^ (d + k) * 2
    double = ap (λ (n : ℕ). 2 ^ n) (omega arith) ∙ pow-suc 2 (d + k)

    wide : 2 ^ (d + suc k) - 2 ^ suc k ≡ (2 ^ (d + k) - 2 ^ k) * 2
    wide = omega (arith, double, pow-suc 2 k)

    half : (2 ^ (d + k) - 2 ^ k) * 2 / 2 ≡ 2 ^ (d + k) - 2 ^ k
    half = omega arith

-- The remainder by a power of two.
pub bit_and_low : (x k : ℕ) → bit_and x (2 ^ k - 1) ≡ x % 2 ^ k
bit_and_low x k = bit_and-bitwise x (2 ^ k - 1) ∙ conj_low x k x (omega arith)

-- A word of `d + k` bits, rounded down to a multiple of `2 ^ k`.
pub bit_and_high : (d k x : ℕ) → x < 2 ^ (d + k) → bit_and x (2 ^ (d + k) - 2 ^ k) ≡ x - x % 2 ^ k
bit_and_high d k x lt = bit_and-bitwise x (2 ^ (d + k) - 2 ^ k) ∙ conj_high x d k x (omega arith) lt

-- A mask bounds the result.
conj-le : (fuel x mask : ℕ) → conj fuel x mask ≤ mask
conj-le zero x mask = omega arith
conj-le (suc fuel) zero mask = omega arith
conj-le (suc fuel) (suc x) mask = omega (arith, conj-le fuel (suc x / 2) (mask / 2))

pub bit_and-le : (x mask : ℕ) → bit_and x mask ≤ mask
bit_and-le x mask = omega (arith, bit_and-bitwise x mask, conj-le x x mask)
