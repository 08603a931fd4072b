-- ===== src/Prelude/Sums.antt =====
-- Sums of a table over the indices below a bound.
use Prim.Native.Nat.{ℕ, zero, suc, ◌+◌, ◌≤◌, ◌<◌}
use mathlib.Core.Path.{◌≡◌, refl}
use native.Mathlib.Omega.{arith}
use native.Mathlib.Decide.{dec_lt}
use fast_llm.Prelude.Tests.{◌==◌, if◌then◌else◌}
use fast_llm.Prelude.Lists.{update}

unfoldable pub total : ℕ → (ℕ → ℕ) → ℕ
total zero f = 0
total (suc n) f = total n f + f n

pub total-cong : (n : ℕ) (f g : ℕ → ℕ) → ((i : ℕ) → i < n → f i ≡ g i) → total n f ≡ total n g
unfolding total
total-cong zero f g h = refl
total-cong (suc n) f g h =
    omega (arith, total-cong n f g (λ i p. h i (omega arith)), h n (omega arith))

-- One summand of two tables that agree elsewhere.
pub total-bump :
    (n : ℕ) (f g : ℕ → ℕ) (i d : ℕ)
    → i < n
    → ((j : ℕ) → j < n → f j ≡ g j + (if i == j then d else 0))
    → total n f ≡ total n g + d
unfolding total
total-bump zero f g i d p h = absurd (omega arith)
total-bump (suc n) f g i d p h = elim (dec_lt i n) [
  | yes q ↦ ground (arith, total-bump n f g i d q (λ j r. h j (omega arith)), h n (omega arith))
  | no q ↦ ground (
    arith,
    total-cong n f g (λ j r. let e = h j (omega arith) in ground arith),
    h n (omega arith),
  )
]

pub total-zero : (n : ℕ) → total n (λ _. 0) ≡ 0
unfolding total
total-zero zero = refl
total-zero (suc n) = omega (arith, total-zero n)

-- A summand is zero if the sum is.
pub total-eq_zero : (n : ℕ) (f : ℕ → ℕ) (i : ℕ) → i < n → total n f ≡ 0 → f i ≡ 0
unfolding total
total-eq_zero zero f i p h = absurd (omega arith)
total-eq_zero (suc n) f i p h = elim (dec_lt i n) [
  | yes q ↦ total-eq_zero n f i q (omega arith)
  | no q ↦ let e : i ≡ n = omega arith in rw e (omega arith)
]

-- Summands of at most one each: the sum is at most the bound, and meets it only if all are one.
pub total-le : (n : ℕ) (f : ℕ → ℕ) → ((i : ℕ) → i < n → f i ≤ 1) → total n f ≤ n
unfolding total
total-le zero f h = omega arith
total-le (suc n) f h = omega (arith, total-le n f (λ i p. h i (omega arith)), h n (omega arith))

pub total-full :
    (n : ℕ) (f : ℕ → ℕ) → ((i : ℕ) → i < n → f i ≤ 1) → total n f ≡ n → (i : ℕ) → i < n → f i ≡ 1
unfolding total
total-full zero f h e i p = absurd (omega arith)
total-full (suc n) f h e i p = elim (dec_lt i n) [
  | yes q ↦ total-full n f below (omega (arith, total-le n f below, h n (omega arith))) i q
  | no q ↦
      let e' : i ≡ n = omega arith in rw e' (omega (arith, total-le n f below, h n (omega arith)))
]
  where
    below : (j : ℕ) → j < n → f j ≤ 1
    below j p = h j (omega arith)

pub total-ones : (n : ℕ) (f : ℕ → ℕ) → ((i : ℕ) → i < n → f i ≡ 1) → total n f ≡ n
unfolding total
total-ones zero f h = refl
total-ones (suc n) f h = omega (arith, total-ones n f (λ i p. h i (omega arith)), h n (omega arith))

-- A family written at one index.
pub total-update {ℓ} :
    {A : Type ℓ} (f : A → ℕ) (n : ℕ) (pc : ℕ → A) (i : ℕ) (a : A)
    → i < n
    → total n (λ j. f (update pc i a j)) + f (pc i) ≡ total n (λ j. f (pc j)) + f a
unfolding total
total-update f zero pc i a h = absurd (omega arith)
total-update f (suc n) pc i a h = elim (dec_lt i n) [
  | yes p ↦ ground (arith, total-update f n pc i a p)
  | no p ↦
      ground (arith, total-cong n (λ j. f (update pc i a j)) (λ j. f (pc j)) (λ j q. ground arith))
]

-- A summand is at most the sum.
pub total-ge : (n : ℕ) (f : ℕ → ℕ) (i : ℕ) → i < n → f i ≤ total n f
unfolding total
total-ge zero f i h = absurd (omega arith)
total-ge (suc n) f i h = elim (dec_lt i n) [
  | yes p ↦ omega (arith, total-ge n f i p)
  | no p ↦ let e : i ≡ n = omega arith in rw e (omega arith)
]

-- Summands that do not grow, and one that shrinks.
pub total_mono : (n : ℕ) (f g : ℕ → ℕ) → ((i : ℕ) → i < n → f i ≤ g i) → total n f ≤ total n g
unfolding total
total_mono zero f g h = omega arith
total_mono (suc n) f g h =
    omega (arith, total_mono n f g (λ i p. h i (omega arith)), h n (omega arith))

pub total-shrinks :
    (n : ℕ) (f g : ℕ → ℕ) (x d : ℕ)
    → x < n
    → f x + d ≤ g x
    → ((i : ℕ) → i < n → f i ≤ g i)
    → total n f + d ≤ total n g
unfolding total
total-shrinks zero f g x d lt less h = absurd (omega arith)
total-shrinks (suc n) f g x d lt less h = elim (dec_lt x n) [
  | yes p ↦
      omega (arith, total-shrinks n f g x d p less (λ i q. h i (omega arith)), h n (omega arith))
  | no p ↦
      let e : x ≡ n = omega arith in
      omega (arith, total_mono n f g (λ i q. h i (omega arith)), rw e at less)
]
