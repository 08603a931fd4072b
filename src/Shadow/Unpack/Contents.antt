-- ===== src/Shadow/Unpack/Contents.antt =====
-- What the unpacked blocks hold, byte by byte.
use fast_llm.Prelude.{
  ℕ, zero, suc, dec_lt, ◌⊎◌, inl, inr, ◌+◌, ◌-◌, ◌*◌, ◌/◌, ◌%◌, ◌^◌, ◌≤◌, ◌<◌, ◌≡◌, ◌∙◌, refl, ap,
  bit_and, arith, if◌then◌else◌, ltb, update,
}
use fast_llm.Prelude.Loops.{loop}
use fast_llm.Prelude.Writes.{Fills, write, write-Fills, Fills-next, Fills-loop, Fills-rows}
use fast_llm.Floats.{Float}
use fast_llm.Quants.Blocks.{
  Bytes, at, u16_at, u8, q4k_scale_min, q4k_scales_all, q5_0_low, q5_0_high,
}
use fast_llm.Quants.Blocks.Ranges.{q4k_scales_all_lem}
use fast_llm.Quants.Half.{half2float}
use fast_llm.Shadow.Unpack.{
  float_bytes, unpack_chunk, build_block_q4k, build_block_q50, build_rows_q4k, build_rows_q50,
}

-- Two ranges of `h` bytes, filled in turns: what stands in the first, in the second, and elsewhere.
module _ (a h : ℕ) (u v : ℕ → ℕ) where
  abbrev turns : ℕ → (ℕ → ℕ) → ℕ → ℕ
  turns n = loop n (λ i m. update (update m (a + i) (u i)) (a + (h + i)) (v i))

  low_stream : (n : ℕ) (mem : ℕ → ℕ) (k : ℕ) → n ≤ h → k < n → turns n mem (a + k) ≡ u k
  unfolding loop
  low_stream zero mem k p q = absurd (omega arith)
  low_stream (suc n) mem k p q = elim (dec_lt k n) [
    | yes r ↦ ground (arith, low_stream n mem k (omega arith) r)
    | no r ↦ let e : k ≡ n = omega arith in rw e (ground arith)
  ]

  high_stream : (n : ℕ) (mem : ℕ → ℕ) (k : ℕ) → n ≤ h → k < n → turns n mem (a + (h + k)) ≡ v k
  unfolding loop
  high_stream zero mem k p q = absurd (omega arith)
  high_stream (suc n) mem k p q = elim (dec_lt k n) [
    | yes r ↦ ground (arith, high_stream n mem k (omega arith) r)
    | no r ↦ let e : k ≡ n = omega arith in rw e (ground arith)
  ]

  rest_kept :
      (n : ℕ) (mem : ℕ → ℕ) (j : ℕ) → n ≤ h → (j < a) ⊎ (a + (h + h) ≤ j) → turns n mem j ≡ mem j
  unfolding loop
  rest_kept zero mem j p q = refl
  rest_kept (suc n) mem j p q = ground (arith, rest_kept n mem j (omega arith) q)

  pub streams-Fills : Fills a (h + h) (λ k. if ltb k h then u k else v (k - h)) (turns h)
  streams-Fills mem j = elim (dec_lt j a) [
    | yes p ↦ ground (arith, rest_kept h mem j (omega arith) (inl p))
    | no p ↦ elim (dec_lt j (a + h)) [
      | yes q ↦
          ap (turns h mem) {y = a + (j - a)} (omega arith)
          ∙ low_stream h mem (j - a) (omega arith) (omega arith)
          ∙ ground arith
      | no q ↦ elim (dec_lt j (a + (h + h))) [
        | yes r ↦
            ap (turns h mem) {y = a + (h + (j - a - h))} (omega arith)
            ∙ high_stream h mem (j - a - h) (omega arith) (omega arith)
            ∙ ground arith
        | no r ↦ ground (arith, rest_kept h mem j (omega arith) (inr (omega arith)))
      ]
    ]
  ]

module _ (float : Float) where
  -- The scales and the minima of a superblock, side by side.
  abbrev pub scale_bytes : Bytes → ℕ → ℕ
  scale_bytes W k =
      if ltb k 8 then (q4k_scale_min k (at W 4)).0 else (q4k_scale_min (k - 8) (at W 4)).1

  scales-Fills :
      (W : Bytes) (o : ℕ) (get : Bytes → Bytes × Bytes)
      → Fills (o + 8) (8 + 8) (scale_bytes W) (λ m.
        let s = q4k_scales_all (at W 4) (get m) in write (o + 16) 8 s.1 (write (o + 8) 8 s.0 m))
  scales-Fills W o get mem j =
      let s = q4k_scales_all (at W 4) (get mem) in
      Fills-next (o + 8) 8 8 (o + 16) s.0 s.1 (write (o + 8) 8 s.0) (write (o + 16) 8 s.1)
        (omega arith) (write-Fills (o + 8) 8 s.0) (write-Fills (o + 16) 8 s.1) mem j
      ∙ ground (
        arith,
        q4k_scales_all_lem (at W 4) (get mem) (j - (o + 8)),
        q4k_scales_all_lem (at W 4) (get mem) (j - (o + 8) - 8),
      )

  -- The weights of chunk `c`: low halves, then high ones.
  abbrev pub chunk_bytes : Bytes → ℕ → ℕ → ℕ
  chunk_bytes W c k =
      if ltb k 32 then bit_and (W (16 + c * 32 + k)) 0x0F else W (16 + c * 32 + (k - 32)) / 2 ^ 4

  abbrev pub floats_q4k : Bytes → ℕ → ℕ
  floats_q4k W k =
      if ltb k 4
      then float_bytes float (half2float float (u16_at W 0)) k
      else float_bytes float (half2float float (u16_at W 2)) (k - 4)

  abbrev pub header_q4k : Bytes → ℕ → ℕ
  header_q4k W k = if ltb k 8 then floats_q4k W k else scale_bytes W (k - 8)

  abbrev pub weights_q4k : Bytes → ℕ → ℕ
  weights_q4k W k = chunk_bytes W (k / 64) (k % 64)

  -- The 280 bytes of an unpacked superblock
  abbrev pub block_q4k : Bytes → ℕ → ℕ
  block_q4k W k = if ltb k 24 then header_q4k W k else weights_q4k W (k - 24)

  pub build_block_q4k-Fills :
      (W : Bytes) (o : ℕ) → Fills o 280 (block_q4k W) (build_block_q4k float W o)
  unfolding build_block_q4k unpack_chunk
  build_block_q4k-Fills W o =
      Fills-next o 24 256 (o + 24) (header_q4k W) (weights_q4k W) _ _ refl
        (Fills-next o 8 16 (o + 8) (floats_q4k W) (scale_bytes W) _ _ refl
          (Fills-next o 4 4 (o + 4) (float_bytes float (half2float float (u16_at W 0)))
            (float_bytes float (half2float float (u16_at W 2))) _ _ refl (write-Fills o 4 _)
            (write-Fills (o + 4) 4 _))
          (scales-Fills W o (λ m. (at m (o + 8), at m (o + 16)))))
        (Fills-loop (o + 24) 64 (chunk_bytes W) _ 4 (omega arith)
          (λ c p. streams-Fills (o + 24 + c * 64) 32 _ _))

  -- Byte `k` of superblock `sb` of row `r`
  pub row_byte_q4k :
      (packed : Bytes) (rows cols : ℕ) (out : Bytes) (r sb k : ℕ)
      → r < rows
      → sb < cols / 256
      → k < 280
      → build_rows_q4k float packed rows cols out (r * (cols / 256 * 280) + (sb * 280 + k))
        ≡ block_q4k (at packed (r * (cols / 256 * 144) + sb * 144)) k
  unfolding build_rows_q4k
  row_byte_q4k packed rows cols out r sb k =
      Fills-rows rows (cols / 256) 280
        (λ r sb. block_q4k (at packed (r * (cols / 256 * 144) + sb * 144))) _ out r sb k
        (λ r sb. build_block_q4k-Fills _ _)

  -- The 40 bytes of an unpacked block of q5_0
  abbrev pub weights_q50 : Bytes → ℕ → ℕ
  weights_q50 W k = if ltb k 16 then u8 (q5_0_low W k) else u8 (q5_0_high W (k - 16))

  abbrev pub filled_q50 : Bytes → ℕ → ℕ
  filled_q50 W k =
      if ltb k 4 then float_bytes float (half2float float (u16_at W 0)) k else weights_q50 W (k - 4)

  abbrev pub block_q50 : Bytes → ℕ → ℕ
  block_q50 W k = if ltb k 36 then filled_q50 W k else 0

  build_block_q50-Fills : (W : Bytes) (o : ℕ) → Fills o 40 (block_q50 W) (build_block_q50 float W o)
  unfolding build_block_q50
  build_block_q50-Fills W o =
      Fills-next o 36 4 (o + 36) (filled_q50 W) (λ _. 0) _ _ refl
        (Fills-next o 4 32 (o + 4) (float_bytes float (half2float float (u16_at W 0)))
          (weights_q50 W) _ _ refl (write-Fills o 4 _) (streams-Fills (o + 4) 16 _ _))
        (write-Fills (o + 36) 4 _)

  pub row_byte_q50 :
      (packed : Bytes) (rows cols : ℕ) (out : Bytes) (r b k : ℕ)
      → r < rows
      → b < cols / 32
      → k < 40
      → build_rows_q50 float packed rows cols out (r * (cols / 32 * 40) + (b * 40 + k))
        ≡ block_q50 (at packed (r * (cols / 32 * 22) + b * 22)) k
  unfolding build_rows_q50
  row_byte_q50 packed rows cols out r b k =
      Fills-rows rows (cols / 32) 40 (λ r b. block_q50 (at packed (r * (cols / 32 * 22) + b * 22)))
        _ out r b k (λ r b. build_block_q50-Fills _ _)
