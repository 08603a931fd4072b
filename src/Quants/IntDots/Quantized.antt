-- ===== src/Quants/IntDots/Quantized.antt =====
-- The dot products with the activations that the quantizer has written.
use fast_llm.Prelude.{ℕ, ◌+◌, ◌*◌, ◌/◌, ◌<◌, ◌≡◌, sym, subst, ap, lt→ltb, if_of_true}
use fast_llm.Prelude.Int.{ℤ, ◌*ℤ◌}
use fast_llm.Prelude.IntSums.{total_ℤ}
use fast_llm.Prelude.Loops.{loop, loop-cong}
use fast_llm.Task.{q4_k, q6_k}
use fast_llm.Floats.{Float}
use fast_llm.Quants.Blocks.{Bytes, at, u16_at}
use fast_llm.Quants.Half.{half2float}
use fast_llm.Quants.Activations.{BlkQ8k, BlkQ81, exec_act_q8}
use fast_llm.Quants.Activations.Sums.{Converts, Clean, HoldsSums, quantize-HoldsSums}
use fast_llm.Quants.IntDots.{dot_i8k_any, dot_i8k_q4_k, dot_i8k_q6_k, fold4, fold_term, four_zeros}
use fast_llm.Quants.IntDots.Exact.{int_q6_k, iacc_q6_k_lem}
use fast_llm.Quants.IntDots.Minima.{int_q4_k, min_q4_k, iacc_q4_k_lem}

module _ (float : Float) where
  open float use {F, mul, neg}

  -- The terms of superblock `sb`, from its integer sums
  abbrev terms_q4_k : Bytes → (ℕ → BlkQ8k F) → ℕ → ℤ × ℤ → (ℕ → F) → ℕ → F
  terms_q4_k row xk sb sums a4 =
      let W = at row (sb * 144) in
      fold_term float sb (neg (mul (half2float float (u16_at W 2)) (xk sb).d)) sums.1
        (fold_term float sb (mul (half2float float (u16_at W 0)) (xk sb).d) sums.0 a4)

  abbrev term_q6_k : Bytes → (ℕ → BlkQ8k F) → ℕ → ℤ → (ℕ → F) → ℕ → F
  term_q6_k row xk sb sum a4 =
      let W = at row (sb * 210) in
      fold_term float sb (mul (half2float float (u16_at W 208)) (xk sb).d) sum a4

  -- The same with the exact dot products of the integer weights and the activations.
  abbrev pub exact_q4_k : Bytes → (ℕ → BlkQ8k F) → ℕ → (ℕ → F) → ℕ → F
  exact_q4_k row xk sb =
      let W = at row (sb * 144) in
      terms_q4_k row xk sb (
        total_ℤ 256 (λ e. int_q4_k W e *ℤ (xk sb).qs e),
        total_ℤ 256 (λ e. min_q4_k W e *ℤ (xk sb).qs e),
      )

  abbrev pub exact_q6_k : Bytes → (ℕ → BlkQ8k F) → ℕ → (ℕ → F) → ℕ → F
  exact_q6_k row xk sb =
      term_q6_k row xk sb (total_ℤ 256 (λ e. int_q6_k (at row (sb * 210)) e *ℤ (xk sb).qs e))

  module _ (c : Converts float) (x : ℕ → F) (cols : ℕ) (out : (ℕ → BlkQ81) × (ℕ → BlkQ8k F))
      (clean : (sb : ℕ) → sb < cols / 256 → Clean float c (λ i. x (sb * 256 + i))) where
    abbrev written : ℕ → BlkQ8k F
    written = (exec_act_q8 float x cols out).1

    written-HoldsSums : (sb : ℕ) → sb < cols / 256 → HoldsSums (written sb)
    unfolding exec_act_q8
    written-HoldsSums sb h =
        subst HoldsSums (sym (if_of_true _ _ (lt→ltb sb (cols / 256) h)))
          (quantize-HoldsSums float c (λ i. x (sb * 256 + i)) (clean sb h))

    -- The product of a row of q4_K or of q6_K with an activation vector that the quantizing task has
    -- written, none of its scaled activations being a NaN: per superblock, the exact integer dot
    -- products of the block with the quantized activations, scaled and folded into the accumulator of
    -- the superblock's number modulo four.
    pub i8k_exact :
        (row : Bytes)
        → (dot_i8k_any float q4_k row (exec_act_q8 float x cols out).1 cols
            ≡ fold4 float (
                loop
                  (cols / 256)
                  (exact_q4_k row (exec_act_q8 float x cols out).1)
                  (four_zeros float)))
          × (dot_i8k_any float q6_k row (exec_act_q8 float x cols out).1 cols
              ≡ fold4 float (
                  loop
                    (cols / 256)
                    (exact_q6_k row (exec_act_q8 float x cols out).1)
                    (four_zeros float)))
    unfolding dot_i8k_any dot_i8k_q4_k dot_i8k_q6_k
    i8k_exact row = (
      ap (fold4 float) (
          loop-cong (cols / 256) _ _ (four_zeros float) (λ sb a4 h.
            ap (λ (s : ℤ × ℤ). terms_q4_k row written sb s a4)
              (iacc_q4_k_lem (at row (sb * 144)) (written sb) (written-HoldsSums sb h)))),
      ap (fold4 float) (
          loop-cong (cols / 256) _ _ (four_zeros float) (λ sb a4 h.
            ap (λ (s : ℤ). term_q6_k row written sb s a4)
              (iacc_q6_k_lem (at row (sb * 210)) (written sb) (written-HoldsSums sb h)))),
    )
