-- ===== src/Quants/IntDots/Weights.antt =====
-- The integer sums of src/runtime/quants.h over the integer weights of tests/test_quants.cpp.
use fast_llm.Prelude.{ℕ, ◌+◌, ◌*◌, ◌/◌, ◌%◌, ◌<◌, ◌≡◌, ◌∙◌, sym, ap, arith}
use fast_llm.Prelude.Bits.{bit_and_low}
use fast_llm.Prelude.Int.{ℤ, pos, ◌-ℤ◌, ◌*ℤ◌}
use fast_llm.Prelude.IntSums.{total_ℤ, total_cong}
use fast_llm.Quants.Blocks.{Bytes}
use fast_llm.Quants.IntDots.{sum_q5_0, weight_q4_k, dot_q4_k, dot_q6_k, scale_q6_k}
use fast_llm.Quants.IntDots.Exact.{sum_q5_0_lem, scaled_q6_k, group_q6_k}
use fast_llm.Quants.Reference.{ref_int_q5_0, ref_int_q4_k, ref_int_q6_k, ref_scale_q6_k}

weight_q4_k-eq :
    (B : Bytes) (g i : ℕ)
    → i < 32
    → weight_q4_k B g i ≡ ref_int_q4_k B ((g * 32 + i) / 64) ((g * 32 + i) % 64)
unfolding weight_q4_k
weight_q4_k-eq B g i h = ground (arith, bit_and_low g 1)

-- The integer of each integer product is the sum of the weights that the dequantizer of the tests
-- unpacks, each times its activation: for a block of q5_0, with its 16 taken off; for group `g` of a
-- q4_K block; and for the group `k` of 16 in span `s` (of four) of half `h` of a q6_K block, with its 32 taken
-- off and times its scale.
pub sums_of_weights :
    (B : Bytes) (x : ℕ → ℤ) (g h s k : ℕ)
    → s < 4
    → (sum_q5_0 B x ≡ total_ℤ 32 (λ i. ref_int_q5_0 B i *ℤ x i))
      × (dot_q4_k B g x
          ≡ total_ℤ 32 (λ i. pos (ref_int_q4_k B ((g * 32 + i) / 64) ((g * 32 + i) % 64)) *ℤ x i))
      × (scale_q6_k B h s k *ℤ (dot_q6_k B h s k x -ℤ pos 32 *ℤ total_ℤ 16 (λ i. x (k * 16 + i)))
          ≡ total_ℤ 16 (λ i.
            ref_scale_q6_k B h s (k * 16 + i)
            *ℤ (pos (ref_int_q6_k B h s (k * 16 + i)) -ℤ pos 32)
            *ℤ x (k * 16 + i)))
unfolding dot_q4_k
sums_of_weights B x g h s k p = (
  sum_q5_0_lem B x,
  total_cong 32 _ _ (λ i q. ap (λ (w : ℕ). pos w *ℤ x i) (weight_q4_k-eq B g i q)),
  group_q6_k B h s k x
      ∙ total_cong 16 _ _
          (λ i q. ap (λ (w : ℤ). w *ℤ x (k * 16 + i)) (sym (scaled_q6_k B h s k i p q))),
)
