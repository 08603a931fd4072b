-- ===== src/Quants/IntDots.antt =====
-- src/runtime/quants.h: the dot products of packed rows with quantized activations. The integer sums are
-- exact, and the floats fold into four accumulators.
pub mod Exact
pub mod Minima
pub mod Bounds
pub mod Weights
pub mod Quantized
use fast_llm.Prelude.{ℕ, ◌+◌, ◌*◌, ◌/◌, ◌%◌, ◌^◌, bit_and, ◌==◌, if◌then◌else◌, update}
use fast_llm.Prelude.Int.{ℤ, pos, ◌+ℤ◌, ◌-ℤ◌, ◌*ℤ◌}
use fast_llm.Prelude.Loops.{loop}
use fast_llm.Task.{Fmt, f32, q8_0, q5_0, q4_k, q6_k, iq2_xxs, iq3_xxs}
use fast_llm.Floats.{Float}
use fast_llm.Quants.Blocks.{
  Bytes, at, u16_at, int8, q4k_scale_min, q5_0_low, q5_0_high, q6_k_weight,
}
use fast_llm.Quants.Half.{half2float}
use fast_llm.Quants.Rows.{f_zero}
use fast_llm.Quants.Activations.{BlkQ81, BlkQ8k}

unfoldable pub idot32 : (ℕ → ℤ) → (ℕ → ℤ) → ℤ
idot32 a b = loop 32 (λ i s. s +ℤ a i *ℤ b i) (pos 0)

-- The integer of one q5_0 block: `idot - 16 * isum`
unfoldable pub sum_q5_0 : Bytes → (ℕ → ℤ) → ℤ
sum_q5_0 B x =
    let idot =
      loop 16 (λ j s. s +ℤ (pos (q5_0_low B j) *ℤ x j +ℤ pos (q5_0_high B j) *ℤ x (16 + j)))
        (pos 0) in
    let isum = loop 32 (λ i s. s +ℤ x i) (pos 0) in idot -ℤ pos 16 *ℤ isum

-- The weight `i` of group `g` of a q4_K block
unfoldable pub weight_q4_k : Bytes → ℕ → ℕ → ℕ
weight_q4_k B g i =
    let q = at B (16 + g / 2 * 32) in if bit_and g 1 == 1 then q i / 2 ^ 4 else bit_and (q i) 0x0F

unfoldable pub dot_q4_k : Bytes → ℕ → (ℕ → ℤ) → ℤ
dot_q4_k B g x = loop 32 (λ i s. s +ℤ pos (weight_q4_k B g i) *ℤ x i) (pos 0)

-- The weight at place `e` of span `s` in half `h` of a q6_K block, and the scale of its 16
unfoldable pub weight_q6_k : Bytes → ℕ → ℕ → ℕ → ℕ
weight_q6_k B h s e =
    let ql = at B (h * 64) in
    let qh = at B (128 + h * 32) in q6_k_weight s (ql (s % 2 * 32 + e)) (qh e)

abbrev pub scale_q6_k : Bytes → ℕ → ℕ → ℕ → ℤ
scale_q6_k B h s k16 = int8 (B (192 + h * 8 + (2 * s + k16)))

-- `idot - 32 * isum` over 16 elements, where `isum` is given
unfoldable pub dot_q6_k : Bytes → ℕ → ℕ → ℕ → (ℕ → ℤ) → ℤ
dot_q6_k B h s k16 x =
    loop 16 (λ i s'. s' +ℤ pos (weight_q6_k B h s (k16 * 16 + i)) *ℤ x (k16 * 16 + i)) (pos 0)

-- Group `g` of a q4_K superblock against a q8_K block, with its minimum
unfoldable pub step_q4_k : {F : Type 0} → Bytes → BlkQ8k F → ℕ → ℤ × ℤ → ℤ × ℤ
step_q4_k B xk g acc =
    let (sc, mn) = q4k_scale_min g (at B 4) in
    (
      acc.0 +ℤ pos sc *ℤ dot_q4_k B g (λ i. xk.qs (g * 32 + i)),
      acc.1 +ℤ pos mn *ℤ (xk.bsums (2 * g) +ℤ xk.bsums (2 * g + 1)),
    )

unfoldable pub iacc_q4_k : {F : Type 0} → Bytes → BlkQ8k F → ℤ × ℤ
iacc_q4_k B xk = loop 8 (step_q4_k B xk) (pos 0, pos 0)

-- Sixteen elements of a q6_K superblock against a q8_K block
unfoldable pub step_q6_k : {F : Type 0} → Bytes → BlkQ8k F → ℕ → ℕ → ℕ → ℤ → ℤ
step_q6_k B xk h s k16 iacc =
    let idot = dot_q6_k B h s k16 (λ e. xk.qs ((h * 4 + s) * 32 + e)) in
    let bs = xk.bsums (2 * (h * 4 + s) + k16) in
    iacc +ℤ scale_q6_k B h s k16 *ℤ (idot -ℤ pos 32 *ℤ bs)

unfoldable pub iacc_q6_k : {F : Type 0} → Bytes → BlkQ8k F → ℤ
iacc_q6_k B xk = loop 2 (λ h. loop 4 (λ s. loop 2 (step_q6_k B xk h s))) (pos 0)

module _ (float : Float) where
  open float use {F, of_int, add, mul, neg, fma}

  unfoldable pub fold4 : (ℕ → F) → F
  fold4 a = add (add (a 0) (a 1)) (add (a 2) (a 3))

  -- `a4[t & 3] = fmaf(w, (float)n, a4[t & 3])`
  abbrev pub fold_term : ℕ → F → ℤ → (ℕ → F) → ℕ → F
  fold_term t w n a4 = let slot = bit_and t 3 in update a4 slot (fma w (of_int n) (a4 slot))

  abbrev pub four_zeros : ℕ → F
  four_zeros _ = f_zero float

  unfoldable pub dot_i8_q8_0 : Bytes → (ℕ → BlkQ81) → ℕ → F
  dot_i8_q8_0 row xq cols = fold4 (
      loop (cols / 32)
        (λ b.
          let W = at row (b * 34) in
          fold_term b (mul (half2float float (u16_at W 0)) (half2float float (xq b).d))
            (idot32 (λ i. int8 (W (2 + i))) (xq b).qs))
        four_zeros)

  unfoldable pub dot_i8_q5_0 : Bytes → (ℕ → BlkQ81) → ℕ → F
  dot_i8_q5_0 row xq cols = fold4 (
      loop (cols / 32)
        (λ b.
          let W = at row (b * 22) in
          fold_term b (mul (half2float float (u16_at W 0)) (half2float float (xq b).d))
            (sum_q5_0 W (xq b).qs))
        four_zeros)

  unfoldable pub dot_i8_q4_k : Bytes → (ℕ → BlkQ81) → ℕ → F
  dot_i8_q4_k row xq cols = fold4 (
      loop (cols / 256)
        (λ sb.
          let W = at row (sb * 144) in
          let d = half2float float (u16_at W 0) in
          let dmin = half2float float (u16_at W 2) in
          loop 8 (λ g a4.
            let (sc, mn) = q4k_scale_min g (at W 4) in
            let xg = (xq (sb * 8 + g)).qs in
            let isum = loop 32 (λ i s. s +ℤ xg i) (pos 0) in
            let dx = half2float float (xq (sb * 8 + g)).d in
            fold_term g (mul (neg (mul dmin (of_int (pos mn)))) dx) isum
              (fold_term g (mul (mul d (of_int (pos sc))) dx) (dot_q4_k W g xg) a4)))
        four_zeros)

  unfoldable pub dot_i8_q6_k : Bytes → (ℕ → BlkQ81) → ℕ → F
  dot_i8_q6_k row xq cols = fold4 (
      loop (cols / 256)
        (λ sb.
          let W = at row (sb * 210) in
          let d = half2float float (u16_at W 208) in
          loop 2 (λ h. loop 4 (λ s.
            let xg = (xq (sb * 8 + h * 4 + s)).qs in
            let dx = half2float float (xq (sb * 8 + h * 4 + s)).d in
            loop 2 (λ k16.
              let isum = loop 16 (λ i t. t +ℤ xg (k16 * 16 + i)) (pos 0) in
              let idot = dot_q6_k W h s k16 xg in
              fold_term (h * 8 + s * 2 + k16) (mul d dx)
                (scale_q6_k W h s k16 *ℤ (idot -ℤ pos 32 *ℤ isum))))))
        four_zeros)

  unfoldable pub dot_i8k_q4_k : Bytes → (ℕ → BlkQ8k F) → ℕ → F
  dot_i8k_q4_k row xk cols = fold4 (
      loop (cols / 256)
        (λ sb a4.
          let W = at row (sb * 144) in
          let d = half2float float (u16_at W 0) in
          let dmin = half2float float (u16_at W 2) in
          let dk = (xk sb).d in
          let (iacc, imins) = iacc_q4_k W (xk sb) in
          fold_term sb (neg (mul dmin dk)) imins (fold_term sb (mul d dk) iacc a4))
        four_zeros)

  unfoldable pub dot_i8k_q6_k : Bytes → (ℕ → BlkQ8k F) → ℕ → F
  dot_i8k_q6_k row xk cols = fold4 (
      loop (cols / 256)
        (λ sb.
          let W = at row (sb * 210) in
          let d = half2float float (u16_at W 208) in
          fold_term sb (mul d (xk sb).d) (iacc_q6_k W (xk sb)))
        four_zeros)

  unfoldable pub dot_i8k_any : Fmt → Bytes → (ℕ → BlkQ8k F) → ℕ → F
  dot_i8k_any q4_k = dot_i8k_q4_k
  dot_i8k_any q6_k = dot_i8k_q6_k
  dot_i8k_any _ = λ row xk cols. f_zero float

  unfoldable pub dot_i8_any : Fmt → Bytes → (ℕ → BlkQ81) → ℕ → F
  dot_i8_any q8_0 = dot_i8_q8_0
  dot_i8_any q5_0 = dot_i8_q5_0
  dot_i8_any q4_k = dot_i8_q4_k
  dot_i8_any q6_k = dot_i8_q6_k
  dot_i8_any iq2_xxs = λ row xq cols. f_zero float
  dot_i8_any iq3_xxs = λ row xq cols. f_zero float
  dot_i8_any f32 = λ row xq cols. f_zero float
