-- ===== src/Quants/Tests.antt =====
-- Small blocks and vectors, over integers in the place of floats, and the theorems at them.
use fast_llm.Prelude.{
  ℕ, ◌+◌, ◌-◌, ◌*◌, ◌/◌, ◌%◌, ◌^◌, ◌≤◌, ◌<◌, ◌≡◌, refl, Bool, false, arith, ltb, if◌then◌else◌,
}
use fast_llm.Prelude.Int.{ℤ, pos, negsuc, pos_part, neg_part, ◌+ℤ◌, ◌-ℤ◌, ◌*ℤ◌}
use fast_llm.Prelude.IntBounds.{Within}
use fast_llm.Prelude.Loops.{loop}
use fast_llm.Task.{q8_0, q4_k, q6_k, iq3_xxs}
use fast_llm.Floats.{Float}
use fast_llm.Quants.{blk_elems, blk_bytes, fmt_is_codebook}
use fast_llm.Quants.Blocks.{Bytes}
use fast_llm.Quants.Half.{half_bits, float2half_bits, round_even}
use fast_llm.Quants.Half.RoundTrip.{float2half-half_bits}
use fast_llm.Quants.Rows.{dot_row_any}
use fast_llm.Quants.Reference.{
  ref_int_q5_0, ref_int_q4_k, ref_int_q6_k, ref_scale_q6_k, dot_ascending, dequantize, visit_order,
}
use fast_llm.Quants.Ascending.{ascending}
use fast_llm.Quants.Dequant.{dequant_chunk, chunk_q8_0}
use fast_llm.Quants.Dequant.Equal.{dequant_chunk_lem}
use fast_llm.Quants.Activations.{
  BlkQ81, BlkQ8k, exec_act_q8, xq_of, xqk_of, x_alloc_bytes, xq_bytes, align_16,
}
use fast_llm.Quants.Activations.Sums.{Converts}
use fast_llm.Quants.Activations.Layout.{layout}
use fast_llm.Quants.IntDots.{
  sum_q5_0, dot_q4_k, dot_q6_k, dot_i8k_any, fold4, four_zeros, step_q4_k, iacc_q6_k, scale_q6_k,
}
use fast_llm.Prelude.IntSums.{total_ℤ}
use fast_llm.Quants.IntDots.Bounds.{sums_fit, flat_step}
use fast_llm.Quants.IntDots.Quantized.{i8k_exact, exact_q4_k, exact_q6_k}
use fast_llm.Quants.IntDots.Weights.{sums_of_weights}

abbrev ltb_ℤ : ℤ → ℤ → Bool
ltb_ℤ a b = ltb (pos_part a + neg_part b) (pos_part b + neg_part a)

abbrev integers : Float
integers = record {
  F = ℤ;
  of_bits = pos;
  to_bits = pos_part;
  of_int = λ n. n;
  to_int = λ x. x;
  add = ◌+ℤ◌;
  sub = ◌-ℤ◌;
  mul = ◌*ℤ◌;
  div = λ a b. a;
  neg = λ a. pos 0 -ℤ a;
  fma = λ a b c. a *ℤ b +ℤ c;
  fabs = λ a. pos (pos_part a + neg_part a);
  round = λ a. a;
  lt = ltb_ℤ;
}

integers_cut : (q : ℤ) → ltb_ℤ (pos 127) q ≡ false → ltb_ℤ q (negsuc 126) ≡ false → Within 127 q
integers_cut q a b = ground arith

abbrev integers-Converts : Converts integers
integers-Converts = record {
  IsNumber = λ _. Unit {0};
  to_int_within = λ q _ a b. integers_cut q a b;
  to_int_of_int = λ n _. refl;
  lt_bounds = refl;
}

abbrev some_row : Bytes
some_row i = i * 7 % 256

abbrev some_x : ℕ → ℤ
some_x i = if ltb (i % 3) 2 then pos (i % 40) else negsuc (i % 50)

abbrev nothing : (ℕ → BlkQ81) × (ℕ → BlkQ8k ℤ)
nothing = (
  λ _. record { d = 0; s = 0; qs = λ _. pos 0 },
  λ _. record { d = pos 0; bsums = λ _. pos 0; qs = λ _. pos 0 },
)

abbrev some_block : BlkQ8k ℤ
some_block = record { d = pos 3; bsums = λ g. negsuc 2031; qs = λ i. pos (i % 128) }

one_and_a_half : half_bits 0xBE00 ≡ 0xBFC00000
unfolding half_bits
one_and_a_half = refl

to_even : float2half_bits 0x3F801000 ≡ 0x3C00
unfolding float2half_bits round_even
to_even = refl

ascending_example :
    dot_row_any integers iq3_xxs some_row some_x 512
    ≡ dot_ascending integers
        (512 / blk_elems iq3_xxs * blk_elems iq3_xxs)
        (λ p. dequantize integers iq3_xxs some_row (visit_order iq3_xxs p))
        (λ p. some_x (visit_order iq3_xxs p))
ascending_example = ascending integers iq3_xxs some_row some_x 512

float2half-half_bits_example : float2half_bits (half_bits 0x8123) ≡ 0x8123
float2half-half_bits_example = float2half-half_bits 0x8123 (omega arith) (omega arith)

x_alloc_small : x_alloc_bytes 2816 < 2 ^ 20
unfolding x_alloc_bytes xq_bytes align_16
x_alloc_small = omega arith

layout_example :
    (4096 + 2816 * 4 ≤ xq_of 4096 2816)
    × (xq_of 4096 2816 + 2816 / 32 * 36 ≤ xqk_of 4096 2816)
    × (xqk_of 4096 2816 + 2816 / 256 * 292 ≡ 4096 + x_alloc_bytes 2816)
    × (xq_of 4096 2816 % 16 ≡ 0)
    × (xqk_of 4096 2816 % 16 ≡ 0)
layout_example = layout 4096 2816 (omega arith) (omega arith) (omega (arith, x_alloc_small))

i8k_exact_example :
    (dot_i8k_any integers q4_k some_row (exec_act_q8 integers some_x 512 nothing).1 512
      ≡ fold4 integers (
          loop
            (512 / 256)
            (exact_q4_k integers some_row (exec_act_q8 integers some_x 512 nothing).1)
            (four_zeros integers)))
    × (dot_i8k_any integers q6_k some_row (exec_act_q8 integers some_x 512 nothing).1 512
        ≡ fold4 integers (
            loop
              (512 / 256)
              (exact_q6_k integers some_row (exec_act_q8 integers some_x 512 nothing).1)
              (four_zeros integers)))
i8k_exact_example = i8k_exact integers integers-Converts some_x 512 nothing (λ _ _ _ _. tt) some_row

sums_fit_example :
    ((n : ℕ)
      → n ≤ 8
      → Within (2 ^ 31 - 1) (loop n (step_q4_k some_row some_block) (pos 0, pos 0)).0
        × Within (2 ^ 31 - 1) (loop n (step_q4_k some_row some_block) (pos 0, pos 0)).1)
    × ((n : ℕ) → n ≤ 16 → Within (2 ^ 31 - 1) (loop n (flat_step some_row some_block) (pos 0)))
    × (iacc_q6_k some_row some_block ≡ loop 16 (flat_step some_row some_block) (pos 0))
sums_fit_example =
    sums_fit some_row some_block (λ i. omega arith) ((λ i p. omega arith), (λ g p. omega arith))

-- Activations of both signs
abbrev some_ints : ℕ → ℤ
some_ints i = pos (i % 5) -ℤ pos 2

sums_of_weights_example :
    (sum_q5_0 some_row some_ints ≡ total_ℤ 32 (λ i. ref_int_q5_0 some_row i *ℤ some_ints i))
    × (dot_q4_k some_row 3 some_ints
        ≡ total_ℤ 32 (λ i.
          pos (ref_int_q4_k some_row ((3 * 32 + i) / 64) ((3 * 32 + i) % 64)) *ℤ some_ints i))
    × (scale_q6_k some_row 1 2 1
          *ℤ (dot_q6_k some_row 1 2 1 some_ints
              -ℤ pos 32 *ℤ total_ℤ 16 (λ i. some_ints (1 * 16 + i)))
        ≡ total_ℤ 16 (λ i.
          ref_scale_q6_k some_row 1 2 (1 * 16 + i)
          *ℤ (pos (ref_int_q6_k some_row 1 2 (1 * 16 + i)) -ℤ pos 32)
          *ℤ some_ints (1 * 16 + i)))
sums_of_weights_example = sums_of_weights some_row some_ints 3 1 2 1 (omega arith)

-- A row of small bytes, unpacked from its second block on over a table of zeros.
abbrev small_row : Bytes
small_row i = i % 7

dequant_chunk-q8_0 : dequant_chunk integers q8_0 small_row 32 64 (λ i. pos 0) 64 ≡ pos 0
unfolding dequant_chunk chunk_q8_0 loop blk_elems blk_bytes
dequant_chunk-q8_0 = refl

dequant_chunk_lem_example :
    dequant_chunk integers q8_0 small_row 32 64 (λ i. pos 0) 40
    ≡ dequantize integers q8_0 small_row 72
unfolding fmt_is_codebook blk_elems
dequant_chunk_lem_example = dequant_chunk_lem integers q8_0 small_row 1 2 (λ i. pos 0) 40
