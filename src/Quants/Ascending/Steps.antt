-- ===== src/Quants/Ascending/Steps.antt =====
-- Single steps of the dot products, and the reference cut in blocks.
use fast_llm.Prelude.{ℕ, ◌+◌, ◌*◌, ◌/◌, ◌%◌, ◌<◌, ◌≡◌, ◌∙◌, refl, ap₂, arith}
use fast_llm.Prelude.Loops.{loop, loop-cong, loop-mul}
use fast_llm.Floats.{Float}
use fast_llm.Quants.{blk_elems, blk_bytes}
use fast_llm.Task.{Fmt}
use fast_llm.Quants.Blocks.{Bytes, at}
use fast_llm.Quants.Rows.{accumulate, f_zero}
use fast_llm.Quants.Reference.{dot_ascending, dequantize, ref_elem}

pub ap₃ {ℓ} :
    {A : Type ℓ} (f : ℕ → ℕ → ℕ → A) {a a' b b' c c' : ℕ}
    → a ≡ a'
    → b ≡ b'
    → c ≡ c'
    → f a b c ≡ f a' b' c'
ap₃ f p q r = rw (p, q, r)

pub quot_at : (b i n : ℕ) → i < n → (b * n + i) / n ≡ b
quot_at b i n h = grind arith

pub rem_at : (b i n : ℕ) → i < n → (b * n + i) % n ≡ i
rem_at b i n h = grind arith

module _ (float : Float) where
  open float use {F, of_bits, mul, of_int}

  -- One step, where the weight and the place in the vector are written in two ways.
  pub step_eq :
      {w w' : F} (x : ℕ → F) {i i' : ℕ} (acc : F)
      → w ≡ w'
      → i ≡ i'
      → accumulate float w (x i) acc ≡ accumulate float w' (x i') acc
  step_eq x acc e e' = rw (e, e')

  -- The element at place `i` of block `b`.
  pub dequantize-at :
      (f : Fmt) (row : Bytes) (b i : ℕ)
      → i < blk_elems f
      → dequantize float f row (b * blk_elems f + i) ≡ ref_elem float f (at row (b * blk_bytes f)) i
  unfolding dequantize
  dequantize-at f row b i h =
      ap₂ (λ (q r : ℕ). ref_elem float f (at row (q * blk_bytes f)) r) (quot_at b i (blk_elems f) h)
        (rem_at b i (blk_elems f) h)

  -- The reference, cut in blocks.
  pub dot_blocks :
      (f : Fmt) (row : Bytes) (x : ℕ → F) (n : ℕ)
      → dot_ascending float (n * blk_elems f) (dequantize float f row) x
        ≡ loop n
            (λ b. loop (blk_elems f) (λ i.
              accumulate float
                (ref_elem float f (at row (b * blk_bytes f)) i)
                (x (b * blk_elems f + i))))
            (f_zero float)
  unfolding dot_ascending
  dot_blocks f row x n =
      loop-mul n (blk_elems f) _ _
      ∙ loop-cong n _ _ _ (λ b acc p.
        loop-cong (blk_elems f) _ _ acc (λ i acc q. step_eq x acc (dequantize-at f row b i q) refl))
