-- ===== src/Quants/IntDots/Exact.antt =====
-- The integer sums of the dot products against the integer weights of the dequantizer.
use fast_llm.Prelude.{
  ℕ, zero, suc, dec_lt, ◌-◌, ◌+◌, ◌*◌, ◌/◌, ◌%◌, ◌<◌, ◌≡◌, ◌∙◌, sym, ap, ap₂, arith, if◌then◌else◌,
  ltb,
}
use fast_llm.Prelude.Int.{ℤ, pos, ◌+ℤ◌, ◌-ℤ◌, ◌*ℤ◌}
use fast_llm.Prelude.IntSums.{
  total_ℤ, total-sub, mul-total, total_cong, total_pairs, total_cut, total_from, sub-mul, mul_assoc,
}
use fast_llm.Prelude.Loops.{loop-cong, loop-mul}
use fast_llm.Quants.Blocks.{Bytes, int8, q5_0_low, q5_0_high, q6_k_weight}
use fast_llm.Quants.Reference.{ref_int_q5_0, ref_int_q6_k, ref_scale_q6_k}
use fast_llm.Quants.Reference.Integers.{low_int, high_int}
use fast_llm.Quants.Ascending.Steps.{ap₃}
use fast_llm.Quants.IntDots.{sum_q5_0, dot_q6_k, weight_q6_k, scale_q6_k, step_q6_k, iacc_q6_k}
use fast_llm.Quants.Activations.{BlkQ8k}
use fast_llm.Quants.Activations.Sums.{HoldsSums}

-- A sum with the offset taken off at the end, or at each weight.
offset :
    (n : ℕ) (k : ℤ) (w x : ℕ → ℤ)
    → total_ℤ n (λ i. w i *ℤ x i) -ℤ k *ℤ total_ℤ n x ≡ total_ℤ n (λ i. (w i -ℤ k) *ℤ x i)
offset n k w x =
    ap (λ (t : ℤ). total_ℤ n (λ i. w i *ℤ x i) -ℤ t) (mul-total n k x)
    ∙ total-sub n (λ i. w i *ℤ x i) (λ i. k *ℤ x i)
    ∙ total_cong n _ _ (λ i p. sym (sub-mul (w i) k (x i)))

-- The unsigned weight of element `i`
abbrev weight_q5_0 : Bytes → ℕ → ℤ
weight_q5_0 B i = if ltb i 16 then pos (q5_0_low B (i % 16)) else pos (q5_0_high B (i % 16))

low_weight : (B : Bytes) (j : ℕ) → j < 16 → pos (q5_0_low B j) ≡ weight_q5_0 B j
low_weight B j h = ground arith

high_weight : (B : Bytes) (j : ℕ) → j < 16 → pos (q5_0_high B j) ≡ weight_q5_0 B (16 + j)
high_weight B j h = ground arith

centred : (B : Bytes) (i : ℕ) → i < 32 → weight_q5_0 B i -ℤ pos 16 ≡ ref_int_q5_0 B i
centred B i h = elim (dec_lt i 16) [
  | yes p ↦ ap (λ t. t -ℤ pos 16) (sym (low_weight B i p)) ∙ sym (low_int B i p)
  | no p ↦
      let r : i - 16 < 16 = omega (arith, h, p) in
      ap (λ (t : ℕ). weight_q5_0 B t -ℤ pos 16) {y = 16 + (i - 16)} (omega (arith, p))
      ∙ ap (λ t. t -ℤ pos 16) (sym (high_weight B (i - 16) r))
      ∙ sym (high_int B (i - 16) r)
      ∙ ap (ref_int_q5_0 B) (omega (arith, p))
]

pub sum_q5_0_lem :
    (B : Bytes) (x : ℕ → ℤ) → sum_q5_0 B x ≡ total_ℤ 32 (λ i. ref_int_q5_0 B i *ℤ x i)
unfolding sum_q5_0
sum_q5_0_lem B x =
    ap (λ (t : ℤ). t -ℤ pos 16 *ℤ total_ℤ 32 x)
      (total_cong 16 _ (λ j. weight_q5_0 B j *ℤ x j +ℤ weight_q5_0 B (16 + j) *ℤ x (16 + j))
          (λ j h.
            ap₂ (λ (a b : ℤ). a *ℤ x j +ℤ b *ℤ x (16 + j)) (low_weight B j h) (high_weight B j h))
        ∙ total_pairs 16 (λ j. weight_q5_0 B j *ℤ x j) (λ j. weight_q5_0 B (16 + j) *ℤ x (16 + j))
        ∙ sym (total_cut 16 16 (λ i. weight_q5_0 B i *ℤ x i)))
    ∙ offset 32 (pos 16) (weight_q5_0 B) x
    ∙ total_cong 32 _ _ (λ i p. ap (λ (t : ℤ). t *ℤ x i) (centred B i p))

-- The scaled integer weight of element `e` of a q6_K superblock, from the reference
unfoldable pub int_q6_k : Bytes → ℕ → ℤ
int_q6_k B e =
    let h = e / 128 in
    let grp = e % 128 / 32 in
    let l = e % 128 % 32 in ref_scale_q6_k B h grp l *ℤ (pos (ref_int_q6_k B h grp l) -ℤ pos 32)

weight_q6_k-eq : (B : Bytes) (h s l : ℕ) → s < 4 → ref_int_q6_k B h s l ≡ weight_q6_k B h s l
unfolding weight_q6_k q6_k_weight
weight_q6_k-eq B h zero l p = ground arith
weight_q6_k-eq B h (suc zero) l p = ground arith
weight_q6_k-eq B h (suc (suc zero)) l p = ground arith
weight_q6_k-eq B h (suc (suc (suc zero))) l p = ground arith
weight_q6_k-eq B h (suc (suc (suc (suc s)))) l p = absurd (omega arith)

-- A weight of the reference and its scale are those that the kernel multiplies.
pub scaled_q6_k :
    (B : Bytes) (h s k i : ℕ)
    → s < 4
    → i < 16
    → ref_scale_q6_k B h s (k * 16 + i) *ℤ (pos (ref_int_q6_k B h s (k * 16 + i)) -ℤ pos 32)
      ≡ scale_q6_k B h s k *ℤ (pos (weight_q6_k B h s (k * 16 + i)) -ℤ pos 32)
scaled_q6_k B h s k i p r =
    ap₂ (λ (a w : ℕ). int8 (B a) *ℤ (pos w -ℤ pos 32)) (omega (arith, r))
      (weight_q6_k-eq B h s (k * 16 + i) p)

int_q6_k_at :
    (B : Bytes) (h s k i : ℕ)
    → s < 4
    → k < 2
    → i < 16
    → int_q6_k B (h * 128 + (s * 32 + (k * 16 + i)))
      ≡ scale_q6_k B h s k *ℤ (pos (weight_q6_k B h s (k * 16 + i)) -ℤ pos 32)
unfolding int_q6_k
int_q6_k_at B h s k i p q r =
    ap₃ (λ h s l. ref_scale_q6_k B h s l *ℤ (pos (ref_int_q6_k B h s l) -ℤ pos 32)) (omega arith)
      (omega arith) (omega arith)
    ∙ scaled_q6_k B h s k i p r

-- One group of 16, with its true sum.
pub group_q6_k :
    (B : Bytes) (h s k : ℕ) (x : ℕ → ℤ)
    → scale_q6_k B h s k *ℤ (dot_q6_k B h s k x -ℤ pos 32 *ℤ total_ℤ 16 (λ i. x (k * 16 + i)))
      ≡ total_ℤ 16 (λ i.
        scale_q6_k B h s k *ℤ (pos (weight_q6_k B h s (k * 16 + i)) -ℤ pos 32) *ℤ x (k * 16 + i))
unfolding dot_q6_k
group_q6_k B h s k x =
    ap (λ (t : ℤ). scale_q6_k B h s k *ℤ t)
      (offset 16 (pos 32) (λ i. pos (weight_q6_k B h s (k * 16 + i))) (λ i. x (k * 16 + i)))
    ∙ mul-total 16 _ _
    ∙ total_cong 16 _ _ (λ i p. sym (mul_assoc _ _ _))

pub iacc_q6_k_lem :
    {F : Type 0} (B : Bytes) (xk : BlkQ8k F)
    → HoldsSums xk
    → iacc_q6_k B xk ≡ total_ℤ 256 (λ e. int_q6_k B e *ℤ xk.qs e)
unfolding iacc_q6_k step_q6_k
iacc_q6_k_lem B xk sums = sym (
    loop-mul 2 128 _ _
    ∙ loop-cong 2 _ _ _ (λ h acc p.
      loop-mul 4 32 _ acc
      ∙ loop-cong 4 _ _ acc (λ s acc q.
        loop-mul 2 16 _ acc
        ∙ loop-cong 2 _ _ acc (λ k acc r.
          total_from 16 (λ i. elem (h * 128 + (s * 32 + (k * 16 + i)))) acc
          ∙ ap (λ (t : ℤ). acc +ℤ t) (one_group h s k p q r)))))
  where
    elem : ℕ → ℤ
    elem e = int_q6_k B e *ℤ xk.qs e

    one_group :
        (h s k : ℕ)
        → h < 2
        → s < 4
        → k < 2
        → total_ℤ 16 (λ i. elem (h * 128 + (s * 32 + (k * 16 + i))))
          ≡ scale_q6_k B h s k
            *ℤ (dot_q6_k B h s k (λ e. xk.qs ((h * 4 + s) * 32 + e))
                -ℤ pos 32 *ℤ xk.bsums (2 * (h * 4 + s) + k))
    one_group h s k p q r =
        total_cong 16 _ _ (λ i t.
          ap₂ ◌*ℤ◌ (int_q6_k_at B h s k i q r t)
            (ap xk.qs {y = (h * 4 + s) * 32 + (k * 16 + i)} (omega arith)))
        ∙ sym (group_q6_k B h s k (λ e. xk.qs ((h * 4 + s) * 32 + e)))
        ∙ ap
            (λ (t : ℤ).
              scale_q6_k B h s k
              *ℤ (dot_q6_k B h s k (λ e. xk.qs ((h * 4 + s) * 32 + e)) -ℤ pos 32 *ℤ t))
            (total_cong 16 _ _ (λ i t. ap xk.qs (omega arith))
              ∙ sym (sums (2 * (h * 4 + s) + k) (omega arith)))
