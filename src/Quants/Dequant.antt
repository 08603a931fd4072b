-- ===== src/Quants/Dequant.antt =====
-- src/runtime/kernels.h: dequant_chunk(), the weights of whole blocks written out as floats.
pub mod Contents
pub mod Spans
pub mod Equal
use fast_llm.Prelude.{ℕ, ◌+◌, ◌*◌, ◌/◌, ◌^◌, bit_and, update}
use fast_llm.Prelude.Int.{pos, ◌-ℤ◌}
use fast_llm.Prelude.Loops.{loop}
use fast_llm.Task.{Fmt, f32, q8_0, q5_0, q4_k, q6_k, iq2_xxs, iq3_xxs}
use fast_llm.Floats.{Float}
use fast_llm.Quants.{blk_elems, blk_bytes}
use fast_llm.Quants.Blocks.{
  Bytes, at, u16_at, u32_at, int8, q4k_scale_min, q5_0_low, q5_0_high, q6_k_weight,
}
use fast_llm.Quants.Half.{half2float}
use fast_llm.Quants.Rows.{f_zero}

module _ (float : Float) where
  open float use {F, of_bits, of_int, sub, mul}

  -- One block of each format, written from `o` on
  unfoldable pub chunk_q8_0 : Bytes → ℕ → (ℕ → F) → ℕ → F
  chunk_q8_0 B o =
      let d = half2float float (u16_at B 0) in
      loop 32 (λ j m. update m (o + j) (mul d (of_int (int8 (B (2 + j))))))

  unfoldable pub chunk_q5_0 : Bytes → ℕ → (ℕ → F) → ℕ → F
  chunk_q5_0 B o =
      let d = half2float float (u16_at B 0) in
      loop 16 (λ j m.
        update (update m (o + j) (mul d (of_int (pos (q5_0_low B j) -ℤ pos 16)))) (o + (16 + j))
          (mul d (of_int (pos (q5_0_high B j) -ℤ pos 16))))

  unfoldable pub chunk_q4_k : Bytes → ℕ → (ℕ → F) → ℕ → F
  chunk_q4_k B o =
      let d = half2float float (u16_at B 0) in
      let dmin = half2float float (u16_at B 2) in
      loop 4 (λ c m.
        let q = at B (16 + c * 32) in
        let (sc1, mn1) = q4k_scale_min (2 * c + 0) (at B 4) in
        let (sc2, mn2) = q4k_scale_min (2 * c + 1) (at B 4) in
        let d1 = mul d (of_int (pos sc1)) in
        let m1 = mul dmin (of_int (pos mn1)) in
        let d2 = mul d (of_int (pos sc2)) in
        let m2 = mul dmin (of_int (pos mn2)) in
        loop 32
          (λ l m. update m (o + (c * 64 + (32 + l))) (sub (mul d2 (of_int (pos (q l / 2 ^ 4)))) m2))
          (loop 32
            (λ l m.
              update m (o + (c * 64 + l)) (sub (mul d1 (of_int (pos (bit_and (q l) 0xF)))) m1))
            m))

  unfoldable pub chunk_q6_k : Bytes → ℕ → (ℕ → F) → ℕ → F
  chunk_q6_k B o =
      let d = half2float float (u16_at B 208) in
      loop 2 (λ h.
        let ql = at B (h * 64) in
        let qh = at B (128 + h * 32) in
        let sc = λ (i : ℕ). of_int (int8 (B (192 + h * 8 + i))) in
        let w = λ (s lb hb : ℕ). of_int (pos (q6_k_weight s lb hb) -ℤ pos 32) in
        loop 32 (λ l m.
          let p = o + (h * 128 + l) in
          let m0 = update m p (mul (mul d (sc (l / 16 + 0))) (w 0 (ql l) (qh l))) in
          let m1 = update m0 (p + 32) (mul (mul d (sc (l / 16 + 2))) (w 1 (ql (l + 32)) (qh l))) in
          let m2 = update m1 (p + 64) (mul (mul d (sc (l / 16 + 4))) (w 2 (ql l) (qh l))) in
          update m2 (p + 96) (mul (mul d (sc (l / 16 + 6))) (w 3 (ql (l + 32)) (qh l)))))

  -- Whole blocks one after the other; the codebook formats are filled with zeros.
  unfoldable pub dequant_chunk : Fmt → Bytes → ℕ → ℕ → (ℕ → F) → ℕ → F
  dequant_chunk f row elem0 n =
      let bp = elem0 / blk_elems f * blk_bytes f in
      let blocks = λ (chunk : Bytes → ℕ → (ℕ → F) → ℕ → F).
        loop (n / blk_elems f) (λ b. chunk (at row (bp + b * blk_bytes f)) (b * blk_elems f)) in
      elim f [
        | q5_0 ↦ blocks chunk_q5_0
        | q4_k ↦ blocks chunk_q4_k
        | f32 ↦ loop n (λ i m. update m i (of_bits (u32_at (at row ((elem0 + i) * 4)) 0)))
        | q8_0 ↦ blocks chunk_q8_0
        | q6_k ↦ blocks chunk_q6_k
        | _ ↦ loop n (λ i m. update m i (f_zero float))
      ]
