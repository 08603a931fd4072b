-- ===== src/Prelude/IntBounds.antt =====
-- Integers of bounded magnitude.
use Prim.Native.Nat.{ℕ, zero, suc, ◌+◌, ◌*◌, ◌<◌, ◌≤◌}
use native.Mathlib.Omega.{arith}
use native.Mathlib.Nat.{mul-le-mul}
use fast_llm.Prelude.Int.{ℤ, pos, negsuc, pos_part, neg_part, ◌+ℤ◌, ◌-ℤ◌, ◌*ℤ◌}
use fast_llm.Prelude.IntSums.{total_ℤ}
use fast_llm.Prelude.Loops.{loop}

-- From `-k` to `k`
abbrev pub Within : ℕ → ℤ → Type 0
Within k z = (pos_part z ≤ k) × (neg_part z ≤ k)

pub Within-add : (j k : ℕ) (a b : ℤ) → Within j a → Within k b → Within (j + k) (a +ℤ b)
unfolding ◌+ℤ◌
Within-add j k a b p q = ground arith

pub Within-sub : (j k : ℕ) (a b : ℤ) → Within j a → Within k b → Within (j + k) (a -ℤ b)
unfolding ◌-ℤ◌
Within-sub j k a b p q = ground arith

pub Within-mul : (j k : ℕ) (a b : ℤ) → Within j a → Within k b → Within (j * k) (a *ℤ b)
unfolding ◌*ℤ◌
Within-mul j k (pos a) (pos b) p q = ground (arith, mul-le-mul p.0 q.0)
Within-mul j k (pos a) (negsuc b) p q = ground (arith, mul-le-mul p.0 q.1)
Within-mul j k (negsuc a) (pos b) p q = ground (arith, mul-le-mul p.1 q.0)
Within-mul j k (negsuc a) (negsuc b) p q = ground (arith, mul-le-mul p.1 q.1)

pub Within-total :
    (n k : ℕ) (f : ℕ → ℤ) → ((i : ℕ) → i < n → Within k (f i)) → Within (n * k) (total_ℤ n f)
unfolding loop
Within-total zero k f h = omega arith
Within-total (suc n) k f h =
    let b =
      Within-add (n * k) k (total_ℤ n f) (f n) (Within-total n k f (λ i p. h i (omega arith)))
        (h n (omega arith)) in
    omega (arith, b.0, b.1)

pub Within-mono : (j k : ℕ) (a : ℤ) → j ≤ k → Within j a → Within k a
Within-mono j k a h p = omega arith
