-- ===== src/Quants/Ascending/Formats.antt =====
-- The products that ascend, format by format.
use fast_llm.Prelude.{ℕ, ◌+◌, ◌*◌, ◌/◌, ◌<◌, ◌≡◌, ◌∙◌, refl, sym, ap, arith}
use fast_llm.Prelude.Loops.{loop-cong, loop-mul, loop_cut, loop_nest, loop_quarters}
use fast_llm.Floats.{Float}
use fast_llm.Quants.{blk_elems, blk_bytes}
use fast_llm.Task.{f32, q8_0, q5_0, q4_k, q6_k, iq2_xxs}
use fast_llm.Quants.Blocks.{Bytes, at, u16_at, u32_at, q5_0_low, q5_0_high, q6_k_weight}
use fast_llm.Quants.Half.{half2float}
use fast_llm.Prelude.Int.{pos, ◌-ℤ◌}
use fast_llm.Quants.Rows.{
  accumulate, dot_row_f32, dot_row_q8_0, dot_row_q5_0, dot_row_q4_k, dot_row_q6_k, dot_row_iq2_xxs,
}
use fast_llm.Quants.Reference.Integers.{low_int, high_int}
use fast_llm.Quants.Reference.{
  dot_ascending, dequantize, part_iq2_xxs, ref_elem, ref_elem_iq2_xxs, ref_elem_q8_0, ref_elem_q5_0,
  ref_elem_q4_k, ref_elem_q6_k, part_q4_k, part_q6_k,
}
use fast_llm.Quants.Ascending.Steps.{ap₃, step_eq, dot_blocks}

module _ (float : Float) where
  open float use {F, of_bits, mul, of_int}

  pub ascending_q8_0 :
      (row : Bytes) (x : ℕ → F) (cols : ℕ)
      → dot_row_q8_0 float row x cols
        ≡ dot_ascending float (cols / 32 * 32) (dequantize float q8_0 row) x
  unfolding dot_row_q8_0 ref_elem ref_elem_q8_0 blk_elems blk_bytes
  ascending_q8_0 row x cols = sym (dot_blocks float q8_0 row x (cols / 32))

  pub q5_0_low_elem :
      (B : Bytes) (j : ℕ)
      → j < 16
      → ref_elem_q5_0 float B j
        ≡ mul (half2float float (u16_at B 0)) (of_int (pos (q5_0_low B j) -ℤ pos 16))
  unfolding ref_elem_q5_0
  q5_0_low_elem B j h = ap (λ v. mul (half2float float (u16_at B 0)) (of_int v)) (low_int B j h)

  pub q5_0_high_elem :
      (B : Bytes) (j : ℕ)
      → j < 16
      → ref_elem_q5_0 float B (16 + j)
        ≡ mul (half2float float (u16_at B 0)) (of_int (pos (q5_0_high B j) -ℤ pos 16))
  unfolding ref_elem_q5_0
  q5_0_high_elem B j h = ap (λ v. mul (half2float float (u16_at B 0)) (of_int v)) (high_int B j h)

  pub ascending_q5_0 :
      (row : Bytes) (x : ℕ → F) (cols : ℕ)
      → dot_row_q5_0 float row x cols
        ≡ dot_ascending float (cols / 32 * 32) (dequantize float q5_0 row) x
  unfolding dot_row_q5_0 ref_elem blk_elems blk_bytes
  ascending_q5_0 row x cols =
      loop-cong (cols / 32) _ _ _ (λ b acc p. sym (
        loop_cut 16 16 _ _ _ acc
          (λ j acc h. step_eq float x acc (q5_0_low_elem (at row (b * 22)) j h) refl)
          (λ j acc h. step_eq float x acc (q5_0_high_elem (at row (b * 22)) j h) (omega arith))))
      ∙ sym (dot_blocks float q5_0 row x (cols / 32))

  -- One element of chunk `c`, at place `j` of its 64.
  pub q4_k_elem :
      (B : Bytes) (c j : ℕ)
      → j < 64
      → ref_elem_q4_k float B (c * 64 + j) ≡ part_q4_k float B (2 * c + j / 32) c j
  unfolding ref_elem_q4_k
  q4_k_elem B c j h = ap₃ (part_q4_k float B) (omega arith) (omega arith) (omega arith)

  pub ascending_q4_k :
      (row : Bytes) (x : ℕ → F) (cols : ℕ)
      → dot_row_q4_k float row x cols
        ≡ dot_ascending float (cols / 256 * 256) (dequantize float q4_k row) x
  unfolding dot_row_q4_k ref_elem blk_elems blk_bytes
  ascending_q4_k row x cols =
      loop-cong (cols / 256) _ _ _ (λ sb acc p. sym (
        loop-mul 4 64 _ acc
        ∙ loop-cong 4 _ _ acc (λ c acc q.
          loop_cut 32 32 _ _ _ acc
            (λ j acc h.
              step_eq float x acc (q4_k_elem (at row (sb * 144)) c j (omega arith) ∙ ground arith)
                (omega arith))
            (λ j acc h.
              step_eq float x acc
                (q4_k_elem (at row (sb * 144)) c (32 + j) (omega arith) ∙ ground arith)
                (omega arith)))))
      ∙ sym (dot_blocks float q4_k row x (cols / 256))

  -- One element of half `h` and span `k`.
  pub q6_k_elem :
      (B : Bytes) (h k l : ℕ)
      → k < 4
      → l < 32
      → ref_elem_q6_k float B (h * 128 + (32 * k + l)) ≡ part_q6_k float B h k l
  unfolding ref_elem_q6_k
  q6_k_elem B h k l p q = ap₃ (part_q6_k float B) (omega arith) (omega arith) (omega arith)

  pub ascending_q6_k :
      (row : Bytes) (x : ℕ → F) (cols : ℕ)
      → dot_row_q6_k float row x cols
        ≡ dot_ascending float (cols / 256 * 256) (dequantize float q6_k row) x
  unfolding dot_row_q6_k q6_k_weight ref_elem blk_elems blk_bytes
  ascending_q6_k row x cols =
      loop-cong (cols / 256) _ _ _ (λ sb acc p. sym (
        loop-mul 2 128 _ acc
        ∙ loop-cong 2 _ _ acc (λ h acc q.
          loop_quarters 32
            (λ i.
              accumulate float (ref_elem_q6_k float (at row (sb * 210)) (h * 128 + i))
                (x (sb * 256 + (h * 128 + i))))
            _ _ _ _ acc (λ l acc r. span sb h 0 l l acc (omega arith) r (omega arith) (omega arith))
            (λ l acc r. span sb h 1 l (32 + l) acc (omega arith) r refl (omega arith))
            (λ l acc r. span sb h 2 l (64 + l) acc (omega arith) r refl (omega arith))
            (λ l acc r. span sb h 3 l (96 + l) acc (omega arith) r refl (omega arith)))))
      ∙ sym (dot_blocks float q6_k row x (cols / 256))
    where
      span :
          (sb h k l i : ℕ) (acc : F) {o : ℕ}
          → k < 4
          → l < 32
          → i ≡ 32 * k + l
          → sb * 256 + (h * 128 + i) ≡ o
          → accumulate float
              (ref_elem_q6_k float (at row (sb * 210)) (h * 128 + i))
              (x (sb * 256 + (h * 128 + i)))
              acc
            ≡ accumulate float (part_q6_k float (at row (sb * 210)) h k l) (x o) acc
      span sb h k l i acc p q e e' =
          step_eq float x acc
            (ap (λ (t : ℕ). ref_elem_q6_k float (at row (sb * 210)) (h * 128 + t)) e
              ∙ q6_k_elem (at row (sb * 210)) h k l p q)
            e'

  iq2_xxs_elem :
      (B : Bytes) (ib l j : ℕ)
      → l < 4
      → j < 8
      → ref_elem_iq2_xxs float B (ib * 32 + (l * 8 + j)) ≡ part_iq2_xxs float B ib l j
  unfolding ref_elem_iq2_xxs
  iq2_xxs_elem B ib l j p q = ap₃ (part_iq2_xxs float B) (omega arith) (omega arith) (omega arith)

  pub ascending_iq2_xxs :
      (row : Bytes) (x : ℕ → F) (cols : ℕ)
      → dot_row_iq2_xxs float row x cols
        ≡ dot_ascending float (cols / 256 * 256) (dequantize float iq2_xxs row) x
  unfolding dot_row_iq2_xxs ref_elem blk_elems blk_bytes
  ascending_iq2_xxs row x cols =
      loop-cong (cols / 256) _ _ _ (λ sb acc p. sym (
        loop-mul 8 32 _ acc
        ∙ loop-cong 8 _ _ acc (λ ib acc q. loop_nest 4 8 _ _ acc (λ l j acc r t.
          step_eq float x acc (iq2_xxs_elem (at row (sb * 66)) ib l j r t) (omega arith)))))
      ∙ sym (dot_blocks float iq2_xxs row x (cols / 256))

  pub ascending_f32 :
      (row : Bytes) (x : ℕ → F) (cols : ℕ)
      → dot_row_f32 float row x cols
        ≡ dot_ascending float (cols / 1 * 1) (dequantize float f32 row) x
  unfolding dot_row_f32 ref_elem blk_elems blk_bytes dequantize dot_ascending
  ascending_f32 row x cols =
      loop-cong cols _ _ _ (λ c acc p.
        step_eq float x acc
          (ap (λ (t : ℕ). of_bits (u32_at (at row t) 0)) {y = c / 1 * 4} (omega arith)) refl)
      ∙ ap (λ (n : ℕ). dot_ascending float n (dequantize float f32 row) x) (omega arith)
