-- ===== src/Quants/Reference/Integers.antt =====
-- The integers that the kernels of src/runtime/quants.h unpack, against those of tests/test_quants.cpp.
use fast_llm.Prelude.{ℕ, ◌+◌, ◌*◌, ◌/◌, ◌%◌, ◌^◌, ◌<◌, ◌≡◌, bit_and, arith}
use fast_llm.Prelude.Bits.{bit_and-le}
use fast_llm.Prelude.Int.{pos, ◌-ℤ◌}
use fast_llm.Quants.Blocks.{Bytes, u32_at, u8, q5_0_low, q5_0_high}
use fast_llm.Quants.Reference.{ref_int_q5_0}

-- The fifth bit fits in a byte.
u8_fifth : (x : ℕ) → u8 (bit_and x 0x10) ≡ bit_and x 0x10
u8_fifth x = omega (arith, bit_and-le x 0x10)

pub low_int : (B : Bytes) (j : ℕ) → j < 16 → ref_int_q5_0 B j ≡ pos (q5_0_low B j) -ℤ pos 16
unfolding ref_int_q5_0 q5_0_low
low_int B j h =
    let same : j % 16 ≡ j = omega (arith, h) in
    rw (same, u8_fifth (u32_at B 2 / 2 ^ j * 2 ^ 4)) (ground (arith, h))

pub high_int :
    (B : Bytes) (j : ℕ) → j < 16 → ref_int_q5_0 B (16 + j) ≡ pos (q5_0_high B j) -ℤ pos 16
unfolding ref_int_q5_0 q5_0_high
high_int B j h =
    let same : (16 + j) % 16 ≡ j = omega (arith, h) in
    rw (same, u8_fifth (u32_at B 2 / 2 ^ (j + 12))) (ground (arith, h))
