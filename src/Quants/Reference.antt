-- ===== src/Quants/Reference.antt =====
-- tests/test_quants.cpp: the value of one element of a block, transcribed apart from the kernels, down to
-- the bits of each weight. The codebook formats, which the tests leave out, are read off the layout
-- that src/runtime/quants.h describes. The reference product takes the elements of a row one after
-- the other, in single precision, as the F32 case of src/runtime/quants.h does; the tests add up in
-- double precision. `Integers` shows that the kernels unpack the same bits.
pub mod Integers
use fast_llm.Prelude.{ℕ, ◌+◌, ◌-◌, ◌*◌, ◌/◌, ◌%◌, ◌^◌, bit_and, bit_or, ltb, ◌==◌, if◌then◌else◌}
use fast_llm.Prelude.Int.{ℤ, pos, ◌-ℤ◌}
use fast_llm.Prelude.Loops.{loop}
use fast_llm.Task.{Fmt, f32, q8_0, q5_0, q4_k, q6_k, iq2_xxs, iq3_xxs}
use fast_llm.Floats.{Float}
use fast_llm.Quants.{blk_elems, blk_bytes}
use fast_llm.Quants.Codebooks.{iq2_xxs_grid, iq3_xxs_grid, iq_signs}
use fast_llm.Quants.Blocks.{Bytes, at, u16_at, u32_at, int8, q4k_scale_min}
use fast_llm.Quants.Half.{half2float}
use fast_llm.Quants.Rows.{accumulate, signed_byte, f_zero}

-- The word of signs and scale of group `ib`
abbrev pub word_iq3_xxs : Bytes → ℕ → ℕ
word_iq3_xxs B ib = loop 4 (λ b w. bit_or w (B (66 + (4 * ib + b)) * 2 ^ (8 * b))) 0

-- `v`, the integer of element `i` of a q5_0 block
unfoldable pub ref_int_q5_0 : Bytes → ℕ → ℤ
ref_int_q5_0 B i =
    let j = i % 16 in
    let qh = u32_at B 2 in
    if ltb i 16
    then pos (bit_or (bit_and (B (6 + j)) 0xF) (bit_and (qh / 2 ^ j * 2 ^ 4) 0x10)) -ℤ pos 16
    else pos (bit_or (B (6 + j) / 2 ^ 4) (bit_and (qh / 2 ^ (j + 12)) 0x10)) -ℤ pos 16

-- `v`, the integer at place `off` of chunk `chunk` of a q4_K block
abbrev pub ref_int_q4_k : Bytes → ℕ → ℕ → ℕ
ref_int_q4_k B chunk off =
    let q = B (16 + chunk * 32 + off % 32) in if ltb off 32 then bit_and q 0xF else q / 2 ^ 4

-- `q` and the scale, at place `l` of group `grp` in half `h` of a q6_K block
abbrev pub ref_int_q6_k : Bytes → ℕ → ℕ → ℕ → ℕ
ref_int_q6_k B h grp l =
    let ql = at B (h * 64) in
    let qh = at B (128 + h * 32) in
    if grp == 0
    then bit_or (bit_and (ql l) 0xF) (bit_and (qh l / 2 ^ 0) 3 * 2 ^ 4)
    else if grp == 1
    then bit_or (bit_and (ql (l + 32)) 0xF) (bit_and (qh l / 2 ^ 2) 3 * 2 ^ 4)
    else if grp == 2
    then bit_or (ql l / 2 ^ 4) (bit_and (qh l / 2 ^ 4) 3 * 2 ^ 4)
    else bit_or (ql (l + 32) / 2 ^ 4) (bit_and (qh l / 2 ^ 6) 3 * 2 ^ 4)

abbrev pub ref_scale_q6_k : Bytes → ℕ → ℕ → ℕ → ℤ
ref_scale_q6_k B h grp l = int8 (B (192 + h * 8 + (l / 16 + grp * 2)))

module _ (float : Float) where
  open float use {F, of_bits, of_int, add, sub, mul}

  unfoldable pub ref_elem_q8_0 : Bytes → ℕ → F
  ref_elem_q8_0 B i = mul (half2float float (u16_at B 0)) (of_int (int8 (B (2 + i))))

  unfoldable pub ref_elem_q5_0 : Bytes → ℕ → F
  ref_elem_q5_0 B i = mul (half2float float (u16_at B 0)) (of_int (ref_int_q5_0 B i))

  -- Element `off` of chunk `chunk`, with the scale and the minimum of sub-block `sub`
  abbrev pub part_q4_k : Bytes → ℕ → ℕ → ℕ → F
  part_q4_k B sub_block chunk off =
      let (sc, mn) = q4k_scale_min sub_block (at B 4) in
      sub
        (mul (mul (half2float float (u16_at B 0)) (of_int (pos sc)))
          (of_int (pos (ref_int_q4_k B chunk off))))
        (mul (half2float float (u16_at B 2)) (of_int (pos mn)))

  unfoldable pub ref_elem_q4_k : Bytes → ℕ → F
  ref_elem_q4_k B i = part_q4_k B (i / 32) (i / 64) (i % 64)

  abbrev pub part_q6_k : Bytes → ℕ → ℕ → ℕ → F
  part_q6_k B h grp l =
      mul (mul (half2float float (u16_at B 208)) (of_int (ref_scale_q6_k B h grp l)))
        (of_int (pos (ref_int_q6_k B h grp l) -ℤ pos 32))

  unfoldable pub ref_elem_q6_k : Bytes → ℕ → F
  ref_elem_q6_k B i = part_q6_k B (i / 128) (i % 128 / 32) (i % 128 % 32)

  -- Group `ib` of 32 weights, byte `j` of its grid entry `l`
  abbrev pub part_iq2_xxs : Bytes → ℕ → ℕ → ℕ → F
  part_iq2_xxs B ib l j =
      let q = λ (i : ℕ). u16_at B (2 + 2 * (4 * ib + i)) in
      let w0 = bit_or (q 0) (q 1 * 2 ^ 16) in
      let w1 = bit_or (q 2) (q 3 * 2 ^ 16) in
      let g = iq2_xxs_grid (bit_and (w0 / 2 ^ (8 * l)) 0xFF) in
      let s = iq_signs (bit_and (w1 / 2 ^ (7 * l)) 127) in
      mul
        (mul
          (mul (half2float float (u16_at B 0))
            (add (of_bits 0x3F000000) (of_int (pos (w1 / 2 ^ 28)))))
          (of_bits 0x3E800000))
        (signed_byte float g s j j)

  unfoldable pub ref_elem_iq2_xxs : Bytes → ℕ → F
  ref_elem_iq2_xxs B i = part_iq2_xxs B (i / 32) (i % 32 / 8) (i % 32 % 8)

  -- The scale of group `ib`, and its signs and byte for element `j` of the group's quarter `l`
  abbrev pub scale_iq3_xxs : Bytes → ℕ → F
  scale_iq3_xxs B ib =
      mul
        (mul (half2float float (u16_at B 0))
          (add (of_bits 0x3F000000) (of_int (pos (word_iq3_xxs B ib / 2 ^ 28)))))
        (of_bits 0x3F000000)

  abbrev pub byte_iq3_xxs : Bytes → ℕ → ℕ → ℕ → ℕ → ℕ → F
  byte_iq3_xxs B ib l k j i =
      signed_byte float (iq3_xxs_grid (B (2 + (8 * ib + 2 * l + k))))
        (iq_signs (bit_and (word_iq3_xxs B ib / 2 ^ (7 * l)) 127)) j i

  abbrev pub part_iq3_xxs : Bytes → ℕ → ℕ → ℕ → F
  part_iq3_xxs B ib l j =
      mul (scale_iq3_xxs B ib)
        (if ltb j 4 then byte_iq3_xxs B ib l 0 j j else byte_iq3_xxs B ib l 1 j (j - 4))

  unfoldable pub ref_elem_iq3_xxs : Bytes → ℕ → F
  ref_elem_iq3_xxs B i = part_iq3_xxs B (i / 32) (i % 32 / 8) (i % 32 % 8)

  unfoldable pub ref_elem : Fmt → Bytes → ℕ → F
  ref_elem f32 = λ B i. of_bits (u32_at B 0)
  ref_elem q8_0 = ref_elem_q8_0
  ref_elem q5_0 = ref_elem_q5_0
  ref_elem q4_k = ref_elem_q4_k
  ref_elem q6_k = ref_elem_q6_k
  ref_elem iq2_xxs = ref_elem_iq2_xxs
  ref_elem iq3_xxs = ref_elem_iq3_xxs

  -- The value of element `i` of a row
  unfoldable pub dequantize : Fmt → Bytes → ℕ → F
  dequantize f row i = ref_elem f (at row (i / blk_elems f * blk_bytes f)) (i % blk_elems f)

  -- The dot product of `n` weights with a vector, elementwise ascending
  unfoldable pub dot_ascending : ℕ → (ℕ → F) → (ℕ → F) → F
  dot_ascending n w x = loop n (λ i. accumulate float (w i) (x i)) (f_zero float)

-- The element that the canonical product takes at step `p`: ascending, but for iq3_xxs, which takes
-- those of a group of eight in the order 0 4 1 5 2 6 3 7.
unfoldable pub visit_order : Fmt → ℕ → ℕ
visit_order iq3_xxs p = p / 8 * 8 + (p % 8 / 2 + p % 2 * 4)
visit_order _ p = p
