-- ===== src/Shadow/Unpack.antt =====
-- src/runtime/shadow.cpp: how packed rows of q4_K and q5_0 are unpacked to bytes, and the scalar dot
-- products of src/runtime/kernels.h that read the unpacked rows.
pub mod Contents
pub mod Equal
mod Tests
use fast_llm.Prelude.{
  ℕ, ◌+◌, ◌-◌, ◌*◌, ◌/◌, ◌%◌, ◌^◌, bit_and, bit_or, if◌then◌else◌, ltb, ◌==◌, update,
}
use fast_llm.Prelude.Int.{ℤ, pos, ◌+ℤ◌, ◌-ℤ◌, ◌*ℤ◌}
use fast_llm.Prelude.Loops.{loop}
use fast_llm.Prelude.Writes.{write}
use fast_llm.Floats.{Float}
use fast_llm.Quants.Blocks.{
  Bytes, at, u16_at, u32_at, u8, int8, q4k_scales_all, q5_0_low, q5_0_high,
}
use fast_llm.Quants.Half.{half2float}
use fast_llm.Quants.Activations.{BlkQ81, BlkQ8k}
use fast_llm.Quants.IntDots.{fold4, fold_term, four_zeros}

module _ (float : Float) where
  open float use {F, of_bits, to_bits, of_int, mul, neg}

  -- The bytes of a float in memory, and the float that four bytes are
  abbrev pub float_bytes : F → ℕ → ℕ
  float_bytes f k = to_bits f / 2 ^ (8 * k) % 2 ^ 8

  abbrev pub float_at : Bytes → ℕ → F
  float_at mem o = of_bits (u32_at mem o)

  -- One chunk: the low halves of 32 bytes, and then the high ones
  unfoldable pub unpack_chunk : Bytes → ℕ → Bytes → Bytes
  unpack_chunk q o =
      loop 32
        (λ i mem. update (update mem (o + i) (bit_and (q i) 0x0F)) (o + (32 + i)) (q i / 2 ^ 4))

  -- One superblock of q4_K at `W`, unpacked to the 280 bytes at `o`
  unfoldable pub build_block_q4k : Bytes → ℕ → Bytes → Bytes
  build_block_q4k W o mem =
      let d = half2float float (u16_at W 0) in
      let dmin = half2float float (u16_at W 2) in
      let m₁ = write o 4 (float_bytes d) mem in
      let m₂ = write (o + 4) 4 (float_bytes dmin) m₁ in
      let scales = q4k_scales_all (at W 4) (at m₂ (o + 8), at m₂ (o + 16)) in
      let m₃ = write (o + 8) 8 scales.0 m₂ in
      let m₄ = write (o + 16) 8 scales.1 m₃ in
      loop 4 (λ c. unpack_chunk (at W (16 + c * 32)) (o + 24 + c * 64)) m₄

  unfoldable pub build_rows_q4k : Bytes → ℕ → ℕ → Bytes → Bytes
  build_rows_q4k packed rows cols =
      let nsb = cols / 256 in
      let prb = nsb * 144 in
      let srb = nsb * 280 in
      loop rows (λ r.
        loop nsb (λ sb. build_block_q4k (at packed (r * prb + sb * 144)) (r * srb + sb * 280)))

  -- One block of q5_0 at `W`, unpacked to the 40 bytes at `o`
  unfoldable pub build_block_q50 : Bytes → ℕ → Bytes → Bytes
  build_block_q50 W o mem =
      let d = half2float float (u16_at W 0) in
      let m₁ = write o 4 (float_bytes d) mem in
      let m₂ =
        loop 16
          (λ j m.
            update (update m (o + 4 + j) (u8 (q5_0_low W j))) (o + 4 + (16 + j))
              (u8 (q5_0_high W j)))
          m₁ in
      write (o + 36) 4 (λ _. 0) m₂

  unfoldable pub build_rows_q50 : Bytes → ℕ → ℕ → Bytes → Bytes
  build_rows_q50 packed rows cols =
      let nb = cols / 32 in
      let prb = nb * 22 in
      let srb = nb * 40 in
      loop rows
        (λ r. loop nb (λ b. build_block_q50 (at packed (r * prb + b * 22)) (r * srb + b * 40)))

  -- Group `g` of an unpacked superblock at `o` against a q8_K block
  unfoldable pub step_shadow : Bytes → BlkQ8k F → ℕ → ℤ × ℤ → ℤ × ℤ
  step_shadow o xk g acc =
      let w = at o (24 + (g / 2 * 64 + g % 2 * 32)) in
      let idot = loop 32 (λ i s. s +ℤ int8 (w i) *ℤ xk.qs (g * 32 + i)) (pos 0) in
      (
        acc.0 +ℤ pos (o (8 + g)) *ℤ idot,
        acc.1 +ℤ pos (o (16 + g)) *ℤ (xk.bsums (2 * g) +ℤ xk.bsums (2 * g + 1)),
      )

  unfoldable pub dot_i8k_q4_k_shadow : Bytes → (ℕ → BlkQ8k F) → ℕ → F
  dot_i8k_q4_k_shadow srow xk cols = fold4 float (
      loop (cols / 256)
        (λ sb a4.
          let o = at srow (sb * 280) in
          let d = float_at o 0 in
          let dmin = float_at o 4 in
          let (iacc, imins) = loop 8 (step_shadow o (xk sb)) (pos 0, pos 0) in
          let dk = (xk sb).d in
          fold_term float sb (neg (mul dmin dk)) imins (fold_term float sb (mul d dk) iacc a4))
        (four_zeros float))

  unfoldable pub dot_i8_q5_0_shadow : Bytes → (ℕ → BlkQ81) → ℕ → F
  dot_i8_q5_0_shadow srow xq cols = fold4 float (
      loop (cols / 32)
        (λ b.
          let o = at srow (b * 40) in
          let d = float_at o 0 in
          let idot = loop 32 (λ i s. s +ℤ int8 (o (4 + i)) *ℤ (xq b).qs i) (pos 0) in
          let isum = loop 32 (λ i s. s +ℤ (xq b).qs i) (pos 0) in
          fold_term float b (mul d (half2float float (xq b).d)) (idot -ℤ pos 16 *ℤ isum))
        (four_zeros float))
