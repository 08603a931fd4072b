-- ===== src/Quants/IntDots/Minima.antt =====
-- The two integer sums of a q4_K superblock: over the scaled weights, and over the scaled minima.
use fast_llm.Prelude.{ℕ, ◌+◌, ◌*◌, ◌/◌, ◌%◌, ◌<◌, ◌≡◌, ◌∙◌, sym, ap, ap₂, arith}
use fast_llm.Prelude.Int.{ℤ, pos, ◌+ℤ◌, ◌*ℤ◌}
use fast_llm.Prelude.IntSums.{
  total_ℤ, mul-total, total_cong, total_cut, total_nest, total_both, mul_assoc,
}
use fast_llm.Quants.Blocks.{Bytes, at, q4k_scale_min}
use fast_llm.Quants.IntDots.{step_q4_k, iacc_q4_k, weight_q4_k, dot_q4_k}
use fast_llm.Quants.Activations.{BlkQ8k}
use fast_llm.Quants.Activations.Sums.{HoldsSums}

-- The integer weight of element `e` of a q4_K superblock times the scale of its group, and the minimum
unfoldable pub int_q4_k : Bytes → ℕ → ℤ
int_q4_k B e = pos (q4k_scale_min (e / 32) (at B 4)).0 *ℤ pos (weight_q4_k B (e / 32) (e % 32))

unfoldable pub min_q4_k : Bytes → ℕ → ℤ
min_q4_k B e = pos (q4k_scale_min (e / 32) (at B 4)).1

group_q4_k :
    (B : Bytes) (g : ℕ) (x : ℕ → ℤ)
    → pos (q4k_scale_min g (at B 4)).0 *ℤ dot_q4_k B g (λ i. x (g * 32 + i))
      ≡ total_ℤ 32 (λ j. int_q4_k B (g * 32 + j) *ℤ x (g * 32 + j))
unfolding dot_q4_k int_q4_k
group_q4_k B g x =
    mul-total 32 _ _
    ∙ total_cong 32 _ _ (λ i p.
      sym (mul_assoc (pos (q4k_scale_min g (at B 4)).0) (pos (weight_q4_k B g i)) (x (g * 32 + i)))
      ∙ ap₂
          (λ (g' j : ℕ).
            pos (q4k_scale_min g' (at B 4)).0 *ℤ pos (weight_q4_k B g' j) *ℤ x (g * 32 + i))
          (omega arith) (omega arith))

minimum_q4_k :
    {F : Type 0} (B : Bytes) (g : ℕ) (xk : BlkQ8k F)
    → HoldsSums xk
    → g < 8
    → pos (q4k_scale_min g (at B 4)).1 *ℤ (xk.bsums (2 * g) +ℤ xk.bsums (2 * g + 1))
      ≡ total_ℤ 32 (λ j. min_q4_k B (g * 32 + j) *ℤ xk.qs (g * 32 + j))
unfolding min_q4_k
minimum_q4_k B g xk sums h =
    ap (λ (t : ℤ). pos (q4k_scale_min g (at B 4)).1 *ℤ t)
      (ap₂ ◌+ℤ◌ (sums (2 * g) (omega arith) ∙ total_cong 16 _ _ (λ i p. ap xk.qs (omega arith)))
          (sums (2 * g + 1) (omega arith) ∙ total_cong 16 _ _ (λ i p. ap xk.qs (omega arith)))
        ∙ sym (total_cut 16 16 (λ j. xk.qs (g * 32 + j))))
    ∙ mul-total 32 _ _
    ∙ total_cong 32 _ _ (λ i p.
      ap (λ (g' : ℕ). pos (q4k_scale_min g' (at B 4)).1 *ℤ xk.qs (g * 32 + i)) (omega arith))

pub iacc_q4_k_lem :
    {F : Type 0} (B : Bytes) (xk : BlkQ8k F)
    → HoldsSums xk
    → iacc_q4_k B xk
      ≡ (total_ℤ 256 (λ e. int_q4_k B e *ℤ xk.qs e), total_ℤ 256 (λ e. min_q4_k B e *ℤ xk.qs e))
unfolding iacc_q4_k step_q4_k
iacc_q4_k_lem B xk sums =
    total_both 8 _ _
    ∙ ap₂ (λ (a b : ℤ). (a, b))
        (total_cong 8 _ _ (λ g p. group_q4_k B g xk.qs) ∙ sym (total_nest 8 32 _))
        (total_cong 8 _ _ (λ g p. minimum_q4_k B g xk sums p) ∙ sym (total_nest 8 32 _))
