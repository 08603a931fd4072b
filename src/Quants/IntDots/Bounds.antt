-- ===== src/Quants/IntDots/Bounds.antt =====
-- The audit of overflow in the sums over a superblock.
use fast_llm.Prelude.{ℕ, zero, suc, refl, ◌+◌, ◌-◌, ◌*◌, ◌/◌, ◌%◌, ◌^◌, ◌≤◌, ◌<◌, ◌≡◌, arith}
use fast_llm.Prelude.Bits.{bit_and_low}
use fast_llm.Prelude.Int.{ℤ, pos, ◌*ℤ◌}
use fast_llm.Prelude.IntBounds.{
  Within, Within-add, Within-sub, Within-mul, Within-total, Within-mono,
}
use fast_llm.Prelude.Loops.{loop}
use fast_llm.Quants.Blocks.{Bytes, at, q4k_scale_min}
use fast_llm.Quants.Blocks.Ranges.{AreBytes, int8-Within, q4k_scale_min-lt, q6_k_weight-lt}
use fast_llm.Quants.Activations.{BlkQ8k}
use fast_llm.Quants.IntDots.{
  weight_q4_k, dot_q4_k, weight_q6_k, dot_q6_k, step_q4_k, step_q6_k, iacc_q6_k,
}

-- What a quantized block holds: bytes from -127 to 127, sums of sixteen of them.
abbrev pub Quantized : {F : Type 0} → BlkQ8k F → Type 0
Quantized xk =
    ((i : ℕ) → i < 256 → Within 127 (xk.qs i)) × ((g : ℕ) → g < 16 → Within 2032 (xk.bsums g))

pub weight_q4_k-lt : (B : Bytes) (g i : ℕ) → AreBytes B → weight_q4_k B g i < 16
unfolding weight_q4_k
weight_q4_k-lt B g i b =
    ground (arith, b (16 + g / 2 * 32 + i), bit_and_low (B (16 + g / 2 * 32 + i)) 4)

dot_q4_k-Within :
    (B : Bytes) (g : ℕ) (x : ℕ → ℤ)
    → AreBytes B
    → ((i : ℕ) → i < 32 → Within 127 (x i))
    → Within (32 * (15 * 127)) (dot_q4_k B g x)
unfolding dot_q4_k
dot_q4_k-Within B g x b h =
    Within-total 32 (15 * 127) (λ i. pos (weight_q4_k B g i) *ℤ x i)
      (λ i p. Within-mul 15 127 _ _ (omega (arith, weight_q4_k-lt B g i b)) (h i p))

dot_q6_k-Within :
    (B : Bytes) (h s k : ℕ) (x : ℕ → ℤ)
    → AreBytes B
    → ((i : ℕ) → i < 16 → Within 127 (x (k * 16 + i)))
    → Within (16 * (63 * 127)) (dot_q6_k B h s k x)
unfolding dot_q6_k weight_q6_k
dot_q6_k-Within B h s k x b p =
    Within-total 16 (63 * 127) (λ i. pos (weight_q6_k B h s (k * 16 + i)) *ℤ x (k * 16 + i))
      (λ i q.
        Within-mul 63 127 _ _
          (omega (
            arith,
            q6_k_weight-lt s (B (h * 64 + (s % 2 * 32 + (k * 16 + i))))
                (B (128 + h * 32 + (k * 16 + i))) (b _),
          ))
          (p i q))

-- The sixteen steps of a q6_K superblock, one after the other.
abbrev pub flat_step : {F : Type 0} → Bytes → BlkQ8k F → ℕ → ℤ → ℤ
flat_step B xk t = step_q6_k B xk (t / 8) (t % 8 / 2) (t % 2)

flat : {F : Type 0} (B : Bytes) (xk : BlkQ8k F) → iacc_q6_k B xk ≡ loop 16 (flat_step B xk) (pos 0)
unfolding iacc_q6_k loop
flat B xk = refl

partial_q4_k :
    {F : Type 0} (B : Bytes) (xk : BlkQ8k F) (n : ℕ)
    → AreBytes B
    → Quantized xk
    → n ≤ 8
    → Within (n * (63 * (32 * (15 * 127)))) (loop n (step_q4_k B xk) (pos 0, pos 0)).0
      × Within (n * (63 * (2032 + 2032))) (loop n (step_q4_k B xk) (pos 0, pos 0)).1
unfolding loop step_q4_k
partial_q4_k B xk zero b q h = omega arith
partial_q4_k B xk (suc n) b q h =
    let ih = partial_q4_k B xk n b q (omega arith) in
    let sc = q4k_scale_min-lt n (at B 4) (λ i. b (4 + i)) (omega arith) in
    let one =
      Within-mul 63 (32 * (15 * 127)) (pos (q4k_scale_min n (at B 4)).0) _ (omega arith)
        (dot_q4_k-Within B n (λ i. xk.qs (n * 32 + i)) b (λ i p. q.0 (n * 32 + i) (omega arith))) in
    let two =
      Within-mul 63 (2032 + 2032) (pos (q4k_scale_min n (at B 4)).1) _ (omega arith)
        (Within-add 2032 2032 _ _ (q.1 (2 * n) (omega arith)) (q.1 (2 * n + 1) (omega arith))) in
    let first = Within-add (n * (63 * (32 * (15 * 127)))) _ _ _ ih.0 one in
    let second = Within-add (n * (63 * (2032 + 2032))) _ _ _ ih.1 two in
    (omega (arith, first.0, first.1), omega (arith, second.0, second.1))

partial_q6_k :
    {F : Type 0} (B : Bytes) (xk : BlkQ8k F) (n : ℕ)
    → AreBytes B
    → Quantized xk
    → n ≤ 16
    → Within (n * (128 * (16 * (63 * 127) + 32 * 2032))) (loop n (flat_step B xk) (pos 0))
unfolding loop step_q6_k
partial_q6_k B xk zero b q h = omega arith
partial_q6_k B xk (suc n) b q h =
    let g = n / 8 in
    let s = n % 8 / 2 in
    let k = n % 2 in
    let dot =
      dot_q6_k-Within B g s k (λ e. xk.qs ((g * 4 + s) * 32 + e)) b
        (λ i p. q.0 ((g * 4 + s) * 32 + (k * 16 + i)) (omega arith)) in
    let off =
      Within-mul 32 2032 (pos 32) _ (omega arith) (q.1 (2 * (g * 4 + s) + k) (omega arith)) in
    let one =
      Within-mul 128 _ _ _ (int8-Within _ (b (192 + g * 8 + (2 * s + k))))
        (Within-sub (16 * (63 * 127)) (32 * 2032) _ _ dot off) in
    let sum =
      Within-add (n * (128 * (16 * (63 * 127) + 32 * 2032))) _ _ _
        (partial_q6_k B xk n b q (omega arith)) one in
    omega (arith, sum.0, sum.1)

-- On weights that are bytes, and activations as the quantizer leaves them, no partial sum of the
-- products of a superblock leaves the range of a 32-bit integer: neither the two sums of q4_K, after
-- any number of its eight groups, nor the one of q6_K, after any number of its sixteen steps, which is
-- the whole sum after the last.
pub sums_fit :
    {F : Type 0} (B : Bytes) (xk : BlkQ8k F)
    → AreBytes B
    → Quantized xk
    → ((n : ℕ)
        → n ≤ 8
        → Within (2 ^ 31 - 1) (loop n (step_q4_k B xk) (pos 0, pos 0)).0
          × Within (2 ^ 31 - 1) (loop n (step_q4_k B xk) (pos 0, pos 0)).1)
      × ((n : ℕ) → n ≤ 16 → Within (2 ^ 31 - 1) (loop n (flat_step B xk) (pos 0)))
      × (iacc_q6_k B xk ≡ loop 16 (flat_step B xk) (pos 0))
sums_fit B xk b q = (
  λ n h.
      let p = partial_q4_k B xk n b q h in
      (Within-mono _ _ _ (omega arith) p.0, Within-mono _ _ _ (omega arith) p.1),
  λ n h. Within-mono _ _ _ (omega arith) (partial_q6_k B xk n b q h),
  flat B xk,
)
