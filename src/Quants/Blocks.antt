-- ===== src/Quants/Blocks.antt =====
-- src/runtime/quants.h: the bytes of a block, and the integers that the formats pack into them. A row
-- is a table of bytes, and a pointer into it is the table from there on.
pub mod Ranges
use fast_llm.Prelude.{ℕ, ◌+◌, ◌-◌, ◌*◌, ◌/◌, ◌%◌, ◌^◌, bit_and, bit_or, ltb, if◌then◌else◌, update}
use fast_llm.Prelude.Int.{ℤ, pos, negsuc}
use fast_llm.Prelude.Loops.{loop}

abbrev pub Bytes : Type 0
Bytes = ℕ → ℕ

abbrev pub at : Bytes → ℕ → Bytes
at row o = λ i. row (o + i)

-- Little-endian words
abbrev pub u16_at : Bytes → ℕ → ℕ
u16_at row o = row o + row (o + 1) * 2 ^ 8

abbrev pub u32_at : Bytes → ℕ → ℕ
u32_at row o = row o + row (o + 1) * 2 ^ 8 + row (o + 2) * 2 ^ 16 + row (o + 3) * 2 ^ 24

abbrev pub u8 : ℕ → ℕ
u8 n = n % 2 ^ 8

-- `(int8_t)b` of a byte
unfoldable pub int8 : ℕ → ℤ
int8 b = if ltb b 128 then pos b else negsuc (255 - b)

-- The scale and the minimum of group `j`
unfoldable pub q4k_scale_min : ℕ → Bytes → ℕ × ℕ
q4k_scale_min j s = if ltb j 4 then (bit_and (s j) 63, bit_and (s (j + 4)) 63) else (
  u8 (bit_or (bit_and (s (j + 4)) 0xF) (s (j - 4) / 2 ^ 6 * 2 ^ 4)),
  u8 (bit_or (s (j + 4) / 2 ^ 4) (s (j - 0) / 2 ^ 6 * 2 ^ 4)),
)

-- All eight, written to two arrays by two unrolled loops
unfoldable pub q4k_scales_all : Bytes → Bytes × Bytes → Bytes × Bytes
q4k_scales_all s out =
    loop 4
      (λ i o.
        let j = 4 + i in
        (
          update o.0 j (u8 (bit_or (bit_and (s (j + 4)) 0xF) (s (j - 4) / 2 ^ 6 * 2 ^ 4))),
          update o.1 j (u8 (bit_or (s (j + 4) / 2 ^ 4) (s j / 2 ^ 6 * 2 ^ 4))),
        ))
      (loop 4 (λ j o. (update o.0 j (bit_and (s j) 63), update o.1 j (bit_and (s (j + 4)) 63))) out)

-- The 5-bit weights `j` and `16 + j` of a q5_0 block, before 16 is taken off
unfoldable pub q5_0_low : Bytes → ℕ → ℕ
q5_0_low B j = bit_or (bit_and (B (6 + j)) 0x0F) (u8 (bit_and (u32_at B 2 / 2 ^ j * 2 ^ 4) 0x10))

unfoldable pub q5_0_high : Bytes → ℕ → ℕ
q5_0_high B j = bit_or (B (6 + j) / 2 ^ 4) (u8 (bit_and (u32_at B 2 / 2 ^ (j + 12)) 0x10))

-- The 6-bit weight in span `s`, before 32 is taken off
unfoldable pub q6_k_weight : ℕ → ℕ → ℕ → ℕ
q6_k_weight s lb hb =
    bit_or (if ltb s 2 then bit_and lb 0x0F else lb / 2 ^ 4) (bit_and (hb / 2 ^ (2 * s)) 3 * 2 ^ 4)
