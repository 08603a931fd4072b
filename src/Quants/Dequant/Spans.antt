-- ===== src/Quants/Dequant/Spans.antt =====
-- dequant_chunk() of src/runtime/kernels.h on a block of q6_K.
use fast_llm.Prelude.{ℕ, ◌+◌, ◌*◌, ◌/◌, ◌%◌, ◌<◌, ◌≡◌, ◌∙◌, sym, ap, arith, dec_lt, update}
use fast_llm.Prelude.Loops.{loop}
use fast_llm.Prelude.Stores.{
  Keeps, Sets, update-Keeps, update-Sets, loop-Keeps, loop-Sets, update_next, Sets-next,
}
use fast_llm.Task.{q6_k}
use fast_llm.Floats.{Float}
use fast_llm.Quants.{blk_elems}
use fast_llm.Quants.Blocks.{Bytes, q6_k_weight}
use fast_llm.Quants.Reference.{ref_elem, part_q6_k}
use fast_llm.Quants.Ascending.Formats.{q6_k_elem}
use fast_llm.Quants.Dequant.{chunk_q6_k}
use fast_llm.Quants.Dequant.Contents.{WritesBlock}

module _ (float : Float) where
  open float use {F, of_bits, of_int, sub, mul}

  -- One block of q6_K: the four spans of a half are written in turns
  module _ (B : Bytes) (o : ℕ) (w : ℕ → F)
      (h : (k : ℕ) → k < 256 → ref_elem float q6_k B k ≡ w (o + k)) where
    span-elem :
        (s a b l : ℕ)
        → a < 2
        → s < 4
        → l < 32
        → b ≡ 32 * s
        → part_q6_k float B a s l ≡ w (o + (a * 128 + l) + b)
    unfolding ref_elem
    span-elem s a b l p q r e =
        sym (q6_k_elem float B a s l q r)
        ∙ h (a * 128 + (32 * s + l)) (omega (arith, p, q, r))
        ∙ ap w (omega (arith, e))

    abbrev first : ℕ → ℕ → (ℕ → F) → ℕ → F
    first a l m = update m (o + (a * 128 + l)) (part_q6_k float B a 0 l)

    abbrev second : ℕ → ℕ → (ℕ → F) → ℕ → F
    second a l m = update (first a l m) (o + (a * 128 + l) + 32) (part_q6_k float B a 1 l)

    abbrev third : ℕ → ℕ → (ℕ → F) → ℕ → F
    third a l m = update (second a l m) (o + (a * 128 + l) + 64) (part_q6_k float B a 2 l)

    abbrev spans : ℕ → ℕ → (ℕ → F) → ℕ → F
    spans a l m = update (third a l m) (o + (a * 128 + l) + 96) (part_q6_k float B a 3 l)

    module _ (a l : ℕ) (p : a < 2) (q : l < 32) where
      first-elem : part_q6_k float B a 0 l ≡ w (o + (a * 128 + l))
      first-elem = span-elem 0 a 0 l p (omega arith) q (omega arith) ∙ ap w (omega arith)

      second-elem : part_q6_k float B a 1 l ≡ w (o + (a * 128 + l) + 32)
      second-elem = span-elem 1 a 32 l p (omega arith) q (omega arith)

      third-elem : part_q6_k float B a 2 l ≡ w (o + (a * 128 + l) + 64)
      third-elem = span-elem 2 a 64 l p (omega arith) q (omega arith)

      fourth-elem : part_q6_k float B a 3 l ≡ w (o + (a * 128 + l) + 96)
      fourth-elem = span-elem 3 a 96 l p (omega arith) q (omega arith)

      spans-Keeps : (i : ℕ) → Keeps w i (spans a l)
      spans-Keeps i = update_next w i (third a l) _ _ fourth-elem (
          update_next w i (second a l) _ _ third-elem
            (update_next w i (first a l) _ _ second-elem (update-Keeps w i _ _ first-elem)))

      spans-Sets : (k s : ℕ) → s < 4 → k ≡ a * 128 + (32 * s + l) → Sets w (o + k) (spans a l)
      spans-Sets k s t e = elim (dec_lt s 1) [
        | yes u ↦ Sets-next w (o + k) (third a l) _ _ fourth-elem (
            Sets-next w (o + k) (second a l) _ _ third-elem (
              Sets-next w (o + k) (first a l) _ _ second-elem
                (update-Sets w (o + k) _ _ first-elem (omega (arith, e, u)))))
        | no u1 ↦ elim (dec_lt s 2) [
          | yes u ↦ Sets-next w (o + k) (third a l) _ _ fourth-elem (
              Sets-next w (o + k) (second a l) _ _ third-elem (λ m.
                update-Sets w (o + k) _ _ second-elem (omega (arith, e, u, u1)) (first a l m)))
          | no u2 ↦ elim (dec_lt s 3) [
            | yes u ↦
                Sets-next w (o + k) (third a l) _ _ fourth-elem (λ m.
                  update-Sets w (o + k) _ _ third-elem (omega (arith, e, u, u2)) (second a l m))
            | no u3 ↦
                λ m. update-Sets w (o + k) _ _ fourth-elem (omega (arith, e, t, u3)) (third a l m)
          ]
        ]
      ]

  pub q6_k-WritesBlock : WritesBlock float q6_k (chunk_q6_k float)
  unfolding chunk_q6_k q6_k_weight blk_elems
  q6_k-WritesBlock B o w h = (
    λ i. loop-Keeps w i 2 _ (λ a p. keeps i a p),
    λ k q.
        loop-Sets w (o + k) 2 (λ a. loop 32 (spans B o w h a)) (k / 128) (omega (arith, q))
          (keeps (o + k))
          (loop-Sets w (o + k) 32 (spans B o w h (k / 128)) (k % 32) (omega arith)
            (λ l r. spans-Keeps B o w h (k / 128) l (omega (arith, q)) r (o + k))
            (spans-Sets B o w h (k / 128) (k % 32) (omega (arith, q)) (omega arith) k (k % 128 / 32)
              (omega arith) (omega arith))),
  )
    where
      keeps : (i a : ℕ) → a < 2 → Keeps w i (loop 32 (spans B o w h a))
      keeps i a p = loop-Keeps w i 32 (spans B o w h a) (λ l r. spans-Keeps B o w h a l p r i)
