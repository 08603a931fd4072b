-- ===== src/Prelude/Writes.antt =====
-- Memory as a table of bytes, and code that fills a range of it and leaves the rest alone.
use Prim.Native.Nat.{ℕ, zero, suc, ◌+◌, ◌-◌, ◌*◌, ◌/◌, ◌%◌, ◌<◌}
use mathlib.Core.Path.{◌≡◌, refl, ◌∙◌, ap, ap₂, subst}
use mathlib.Core.Bool.{◌&&◌}
use native.Mathlib.Omega.{arith}
use native.Mathlib.Decide.{dec_lt}
use fast_llm.Prelude.Tests.{ltb, leb, if◌then◌else◌}
use fast_llm.Prelude.Lists.{update}
use fast_llm.Prelude.Loops.{loop}

-- The `n` places from `off` on hold what `c` says, and the other places what they held before.
abbrev pub Fills : ℕ → ℕ → (ℕ → ℕ) → ((ℕ → ℕ) → ℕ → ℕ) → Type 0
Fills off n c f =
    (mem : ℕ → ℕ) (j : ℕ) → f mem j ≡ (if leb off j && ltb j (off + n) then c (j - off) else mem j)

-- What it holds inside the range.
pub Fills-in :
    (off n : ℕ) (c : ℕ → ℕ) (f : (ℕ → ℕ) → ℕ → ℕ) (mem : ℕ → ℕ) (k : ℕ)
    → Fills off n c f
    → k < n
    → f mem (off + k) ≡ c k
Fills-in off n c f mem k h p =
    h mem (off + k) ∙ ground (arith, ap c {x = off + k - off} {y = k} (omega arith))

-- `for (i = 0; i < n; ++i) mem[off + i] = v(i);`, or a copy of `n` bytes
unfoldable pub write : ℕ → ℕ → (ℕ → ℕ) → (ℕ → ℕ) → ℕ → ℕ
write off n v mem = loop n (λ i m. update m (off + i) (v i)) mem

pub write-Fills : (off n : ℕ) (v : ℕ → ℕ) → Fills off n v (write off n v)
unfolding write loop
write-Fills off zero v mem j = ground arith
write-Fills off (suc n) v mem j =
    ground (arith, write-Fills off n v mem j, ap v {x = j - off} {y = n})

-- One range after another.
pub Fills-next :
    (off m n mid : ℕ) (c d : ℕ → ℕ) (f g : (ℕ → ℕ) → ℕ → ℕ)
    → mid ≡ off + m
    → Fills off m c f
    → Fills mid n d g
    → Fills off (m + n) (λ k. if ltb k m then c k else d (k - m)) (λ mem. g (f mem))
Fills-next off m n mid c d f g e p q mem j =
    ground (arith, q (f mem) j, p mem j, ap d {x = j - mid} {y = j - off - m} (omega arith))

pub quotient : (b n x i : ℕ) → x ≡ b * n + i → i < n → x / n ≡ b
quotient b n x i e h = rw e (grind arith)

pub remainder : (b n x i : ℕ) → x ≡ b * n + i → i < n → x % n ≡ i
remainder b n x i e h = rw e (grind arith)

-- Ranges of one size, one after the other.
pub Fills-loop :
    (off size : ℕ) (c : ℕ → ℕ → ℕ) (f : ℕ → (ℕ → ℕ) → ℕ → ℕ) (n : ℕ)
    → 0 < size
    → ((i : ℕ) → i < n → Fills (off + i * size) size (c i) (f i))
    → Fills off (n * size) (λ k. c (k / size) (k % size)) (loop n f)
unfolding loop
Fills-loop off size c f zero pos h mem j = ground arith
Fills-loop off size c f (suc n) pos h mem j = elim (dec_lt j (off + n * size)) [
  | yes p ↦ ground (
    arith,
    grow,
    h n (omega arith) (loop n f mem) j,
    Fills-loop off size c f n pos (λ i q. h i (omega arith)) mem j,
  )
  | no p ↦ elim (dec_lt j (off + n * size + size)) [
    | yes q ↦ ground (
      arith,
      grow,
      h n (omega arith) (loop n f mem) j,
      ap₂ c (quotient n size (j - off) (j - (off + n * size)) (omega arith) (omega arith))
          (remainder n size (j - off) (j - (off + n * size)) (omega arith) (omega arith)),
    )
    | no q ↦ ground (
      arith,
      grow,
      h n (omega arith) (loop n f mem) j,
      Fills-loop off size c f n pos (λ i q. h i (omega arith)) mem j,
    )
  ]
]
  where
    grow : suc n * size ≡ n * size + size
    grow = omega arith

Fills-move :
    (o o' n : ℕ) (c : ℕ → ℕ) (f : (ℕ → ℕ) → ℕ → ℕ) → o ≡ o' → Fills o n c f → Fills o' n c f
Fills-move o o' n c f e h = subst (λ (t : ℕ). Fills t n c f) e h

inside : (n size b k : ℕ) → b < n → k < size → b * size + k < n * size
inside n size b k p q = grind arith

-- Rows of `n` blocks, each of `size` places: place `k` of block `b` of row `r`.
pub Fills-rows :
    (rows n size : ℕ) (c : ℕ → ℕ → ℕ → ℕ) (f : ℕ → ℕ → (ℕ → ℕ) → ℕ → ℕ) (mem : ℕ → ℕ) (r b k : ℕ)
    → ((r b : ℕ) → Fills (r * (n * size) + b * size) size (c r b) (f r b))
    → r < rows
    → b < n
    → k < size
    → loop rows (λ r. loop n (f r)) mem (r * (n * size) + (b * size + k)) ≡ c r b k
Fills-rows rows n size c f mem r b k h p q t =
    ap (loop rows (λ r. loop n (f r)) mem) {y = 0 + (r * (n * size) + (b * size + k))} (omega arith)
    ∙ Fills-in 0 (rows * (n * size))
        (λ k. c (k / (n * size)) (k % (n * size) / size) (k % (n * size) % size)) _ mem
        (r * (n * size) + (b * size + k))
        (Fills-loop 0 (n * size) (λ r k. c r (k / size) (k % size)) (λ r. loop n (f r)) rows
          (omega (arith, inside n size b k q t))
          (λ r p.
            Fills-move (r * (n * size)) (0 + r * (n * size)) (n * size)
              (λ k. c r (k / size) (k % size)) (loop n (f r)) (omega arith)
              (Fills-loop (r * (n * size)) size (c r) (f r) n (omega arith) (λ b q. h r b))))
        (omega (
          arith,
          inside n size b k q t,
          inside rows (n * size) r (b * size + k) p (inside n size b k q t),
        ))
    ∙ ap₂ (λ (r k : ℕ). c r (k / size) (k % size))
        (quotient r (n * size) _ (b * size + k) refl (inside n size b k q t))
        (remainder r (n * size) _ (b * size + k) refl (inside n size b k q t))
    ∙ ap₂ (c r) (quotient b size _ k refl t) (remainder b size _ k refl t)
