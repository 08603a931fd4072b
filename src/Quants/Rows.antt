-- ===== src/Quants/Rows.antt =====
-- src/runtime/quants.h: the canonical dot product of a packed row and a vector of floats, for every
-- format. The tables of src/model/iq_tables.h come from `Codebooks`.
use fast_llm.Prelude.{ℕ, ◌+◌, ◌*◌, ◌/◌, ◌^◌, bit_and, bit_or, ◌==◌, if◌then◌else◌}
use fast_llm.Prelude.Int.{pos, ◌-ℤ◌}
use fast_llm.Prelude.Loops.{loop}
use fast_llm.Task.{Fmt, f32, q8_0, q5_0, q4_k, q6_k, iq2_xxs, iq3_xxs}
use fast_llm.Floats.{Float}
use fast_llm.Quants.Codebooks.{iq2_xxs_grid, iq3_xxs_grid, iq_signs, iq_sign_mask}
use fast_llm.Quants.Blocks.{
  Bytes, at, u16_at, u32_at, u8, int8, q4k_scale_min, q5_0_low, q5_0_high, q6_k_weight,
}
use fast_llm.Quants.Half.{half2float}

module _ (float : Float) where
  open float use {F, of_bits, of_int, add, sub, mul, neg}

  abbrev pub f_zero : F
  f_zero = of_bits 0

  -- `acc += w * x`
  abbrev pub accumulate : F → F → F → F
  accumulate w x acc = add acc (mul w x)

  unfoldable pub dot_row_q8_0 : Bytes → (ℕ → F) → ℕ → F
  dot_row_q8_0 row x cols =
      loop (cols / 32)
        (λ b.
          let B = at row (b * 34) in
          let d = half2float float (u16_at B 0) in
          loop 32 (λ i. accumulate (mul d (of_int (int8 (B (2 + i))))) (x (b * 32 + i))))
        f_zero

  unfoldable pub dot_row_q5_0 : Bytes → (ℕ → F) → ℕ → F
  dot_row_q5_0 row x cols =
      loop (cols / 32)
        (λ b acc.
          let B = at row (b * 22) in
          let d = half2float float (u16_at B 0) in
          loop 16
            (λ j. accumulate (mul d (of_int (pos (q5_0_high B j) -ℤ pos 16))) (x (b * 32 + 16 + j)))
            (loop 16
              (λ j. accumulate (mul d (of_int (pos (q5_0_low B j) -ℤ pos 16))) (x (b * 32 + j)))
              acc))
        f_zero

  unfoldable pub dot_row_q4_k : Bytes → (ℕ → F) → ℕ → F
  dot_row_q4_k row x cols =
      loop (cols / 256)
        (λ sb.
          let B = at row (sb * 144) in
          let d = half2float float (u16_at B 0) in
          let dmin = half2float float (u16_at B 2) in
          loop 4 (λ c acc.
            let q = at B (16 + c * 32) in
            let (sc1, mn1) = q4k_scale_min (2 * c + 0) (at B 4) in
            let (sc2, mn2) = q4k_scale_min (2 * c + 1) (at B 4) in
            let d1 = mul d (of_int (pos sc1)) in
            let m1 = mul dmin (of_int (pos mn1)) in
            let d2 = mul d (of_int (pos sc2)) in
            let m2 = mul dmin (of_int (pos mn2)) in
            let xb = λ (l : ℕ). x (sb * 256 + c * 64 + l) in
            loop 32 (λ l. accumulate (sub (mul d2 (of_int (pos (q l / 2 ^ 4)))) m2) (xb (32 + l)))
              (loop 32 (λ l. accumulate (sub (mul d1 (of_int (pos (bit_and (q l) 0xF)))) m1) (xb l))
                acc)))
        f_zero

  unfoldable pub dot_row_q6_k : Bytes → (ℕ → F) → ℕ → F
  dot_row_q6_k row x cols =
      loop (cols / 256)
        (λ sb.
          let B = at row (sb * 210) in
          let d = half2float float (u16_at B 208) in
          loop 2 (λ h acc.
            let ql = at B (h * 64) in
            let qh = at B (128 + h * 32) in
            let sc = λ (i : ℕ). of_int (int8 (B (192 + h * 8 + i))) in
            let xb = λ (l : ℕ). x (sb * 256 + h * 128 + l) in
            let w = λ (s lb hb : ℕ). of_int (pos (q6_k_weight s lb hb) -ℤ pos 32) in
            loop 32
              (λ l.
                accumulate (mul (mul d (sc (l / 16 + 6))) (w 3 (ql (l + 32)) (qh l))) (xb (l + 96)))
              (loop 32
                (λ l. accumulate (mul (mul d (sc (l / 16 + 4))) (w 2 (ql l) (qh l))) (xb (l + 64)))
                (loop 32
                  (λ l.
                    accumulate (mul (mul d (sc (l / 16 + 2))) (w 1 (ql (l + 32)) (qh l)))
                      (xb (l + 32)))
                  (loop 32
                    (λ l. accumulate (mul (mul d (sc (l / 16 + 0))) (w 0 (ql l) (qh l))) (xb l))
                    acc)))))
        f_zero

  -- `s & mask ? -v : v`, where `v` is byte `j` of a grid entry
  abbrev pub signed_byte : ℕ → ℕ → ℕ → ℕ → F
  signed_byte g s i j =
      let v = of_int (pos (u8 (g / 2 ^ (8 * j)))) in
      if bit_and s (iq_sign_mask i) == 0 then v else neg v

  unfoldable pub dot_row_iq2_xxs : Bytes → (ℕ → F) → ℕ → F
  dot_row_iq2_xxs row x cols =
      loop (cols / 256)
        (λ sb.
          let B = at row (sb * 66) in
          let d = half2float float (u16_at B 0) in
          loop 8 (λ ib.
            let q = λ (i : ℕ). u16_at B (2 + 2 * (4 * ib + i)) in
            let w0 = bit_or (q 0) (q 1 * 2 ^ 16) in
            let w1 = bit_or (q 2) (q 3 * 2 ^ 16) in
            let db =
              mul (mul d (add (of_bits 0x3F000000) (of_int (pos (w1 / 2 ^ 28)))))
                (of_bits 0x3E800000) in
            loop 4 (λ l.
              let g = iq2_xxs_grid (bit_and (w0 / 2 ^ (8 * l)) 0xFF) in
              let s = iq_signs (bit_and (w1 / 2 ^ (7 * l)) 127) in
              loop 8 (λ j.
                accumulate (mul db (signed_byte g s j j)) (x (sb * 256 + (ib * 32 + l * 8 + j)))))))
        f_zero

  unfoldable pub dot_row_iq3_xxs : Bytes → (ℕ → F) → ℕ → F
  dot_row_iq3_xxs row x cols =
      loop (cols / 256)
        (λ sb.
          let B = at row (sb * 98) in
          let d = half2float float (u16_at B 0) in
          loop 8 (λ ib.
            let w1 = loop 4 (λ b w. bit_or w (B (66 + (4 * ib + b)) * 2 ^ (8 * b))) 0 in
            let db =
              mul (mul d (add (of_bits 0x3F000000) (of_int (pos (w1 / 2 ^ 28)))))
                (of_bits 0x3F000000) in
            loop 4 (λ l.
              let g1 = iq3_xxs_grid (B (2 + (8 * ib + 2 * l + 0))) in
              let g2 = iq3_xxs_grid (B (2 + (8 * ib + 2 * l + 1))) in
              let s = iq_signs (bit_and (w1 / 2 ^ (7 * l)) 127) in
              loop 4 (λ j acc.
                accumulate (mul db (signed_byte g2 s (j + 4) j))
                  (x (sb * 256 + (ib * 32 + l * 8 + j + 4)))
                  (accumulate (mul db (signed_byte g1 s j j)) (x (sb * 256 + (ib * 32 + l * 8 + j)))
                    acc)))))
        f_zero

  unfoldable pub dot_row_f32 : Bytes → (ℕ → F) → ℕ → F
  dot_row_f32 row x cols =
      loop cols (λ c. accumulate (of_bits (u32_at (at row (c * 4)) 0)) (x c)) f_zero

  unfoldable pub dot_row_any : Fmt → Bytes → (ℕ → F) → ℕ → F
  dot_row_any f32 = dot_row_f32
  dot_row_any q8_0 = dot_row_q8_0
  dot_row_any q5_0 = dot_row_q5_0
  dot_row_any q4_k = dot_row_q4_k
  dot_row_any q6_k = dot_row_q6_k
  dot_row_any iq2_xxs = dot_row_iq2_xxs
  dot_row_any iq3_xxs = dot_row_iq3_xxs
