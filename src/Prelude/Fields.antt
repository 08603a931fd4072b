-- ===== src/Prelude/Fields.antt =====
-- Words put together from fields: `|` of fields that do not overlap is their sum.
use Prim.Native.Nat.{
  ℕ, zero, suc, ◌+◌, ◌*◌, ◌/◌, ◌^◌, ◌≤◌, ◌<◌, max, bit_or, digits, bit_or-bitwise,
}
use mathlib.Core.Path.{◌≡◌, refl, ◌∙◌, ap}
use native.Mathlib.Nat.{pow-suc}
use native.Mathlib.Omega.{arith}
use mathlib.Core.Bool.{Bool, true, false}
use fast_llm.Prelude.Tests.{◌==◌, if◌then◌else◌}

abbrev disj : ℕ → ℕ → ℕ → ℕ
disj fuel x y = digits (λ b. b) max fuel x y

disj_zero : (fuel x : ℕ) → x ≤ fuel → disj fuel x 0 ≡ x
disj_zero zero zero h = refl
disj_zero zero (suc x) h = absurd (omega arith)
disj_zero (suc fuel) zero h = refl
disj_zero (suc fuel) (suc x) h = omega (arith, disj_zero fuel (suc x / 2) (omega arith))

disj_fields : (fuel k q r x : ℕ) → x ≤ fuel → x ≡ q * 2 ^ k → r < 2 ^ k → disj fuel x r ≡ x + r
disj_fields zero k q r zero h e p = omega arith
disj_fields (suc fuel) k q r zero h e p = omega arith
disj_fields zero k q r (suc x) h e p = absurd (omega arith)
disj_fields (suc fuel) zero q r (suc x) h e p =
    let e' : r ≡ 0 = omega arith in rw e' (disj_zero (suc fuel) (suc x) h ∙ omega arith)
disj_fields (suc fuel) (suc k) q r (suc x) h e p = omega (
  arith,
  double,
  disj_fields fuel k q (r / 2) (suc x / 2) (omega arith) (omega (arith, double))
      (omega (arith, pow-suc 2 k)),
)
  where
    double : q * 2 ^ suc k ≡ 2 * (q * 2 ^ k)
    double = omega (arith, ap (λ (t : ℕ). q * t) (pow-suc 2 k))

-- `(q << k) | r` for an `r` of `k` bits
pub or_shifted :
    (width hi lo : ℕ) → lo < 2 ^ width → bit_or (hi * 2 ^ width) lo ≡ hi * 2 ^ width + lo
or_shifted k q r h =
    bit_or-bitwise (q * 2 ^ k) r ∙ disj_fields (q * 2 ^ k) k q r (q * 2 ^ k) (omega arith) refl h

disj_low : (fuel k q r x : ℕ) → r ≤ fuel → x ≡ q * 2 ^ k → r < 2 ^ k → disj fuel r x ≡ x + r
disj_low zero k q zero x h e p = omega arith
disj_low (suc fuel) k q zero x h e p = omega arith
disj_low zero k q (suc r) x h e p = absurd (omega arith)
disj_low (suc fuel) zero q (suc r) x h e p = absurd (omega arith)
disj_low (suc fuel) (suc k) q (suc r) x h e p = omega (
  arith,
  double,
  disj_low fuel k q (suc r / 2) (x / 2) (omega arith) (omega (arith, double))
      (omega (arith, pow-suc 2 k)),
)
  where
    double : q * 2 ^ suc k ≡ 2 * (q * 2 ^ k)
    double = omega (arith, ap (λ (t : ℕ). q * t) (pow-suc 2 k))

-- `r | (q << k)` for an `r` of `k` bits
pub shifted_or : (k q r : ℕ) → r < 2 ^ k → bit_or r (q * 2 ^ k) ≡ q * 2 ^ k + r
shifted_or k q r h =
    bit_or-bitwise r (q * 2 ^ k) ∙ disj_low r k q r (q * 2 ^ k) (omega arith) refl h

disj-lt : (fuel k x y : ℕ) → x < 2 ^ k → y < 2 ^ k → disj fuel x y < 2 ^ k
disj-lt zero k x y p q = q
disj-lt (suc fuel) k zero y p q = q
disj-lt (suc fuel) zero (suc x) y p q = absurd (omega arith)
disj-lt (suc fuel) (suc k) (suc x) y p q = omega (
  arith,
  pow-suc 2 k,
  disj-lt fuel k (suc x / 2) (y / 2) (omega (arith, pow-suc 2 k)) (omega (arith, pow-suc 2 k)),
)

-- `|` of words of `k` bits has `k` bits.
pub bit_or-lt : (k x y : ℕ) → x < 2 ^ k → y < 2 ^ k → bit_or x y < 2 ^ k
bit_or-lt k x y p q = omega (arith, bit_or-bitwise x y, disj-lt x k x y p q)

-- Whether two functions have the same values at every number under `n`.
unfoldable pub same_values : ℕ → (ℕ → ℕ) → (ℕ → ℕ) → Bool
same_values zero f g = true
same_values (suc n) f g = if f n == g n then same_values n f g else false

pub same_values-eq : (f g : ℕ → ℕ) (n x : ℕ) → x < n → same_values n f g ≡ true → f x ≡ g x
unfolding same_values
same_values-eq f g zero x lt h = absurd (omega arith)
same_values-eq f g (suc n) x lt h = ground (arith, same_values-eq f g n x)
