-- ===== src/Shadow/Unpack/Equal.antt =====
-- The dot products over unpacked rows against those over packed rows.
use fast_llm.Prelude.{
  ℕ, ◌+◌, ◌-◌, ◌*◌, ◌/◌, ◌%◌, ◌^◌, ◌<◌, ◌≡◌, ◌∙◌, sym, false, if_of_false, ap, ap₂, arith, ltb,
}
use mathlib.Core.Path.{fun_ext}
use fast_llm.Prelude.Bits.{bit_and_low, bit_and-le}
use fast_llm.Prelude.Fields.{bit_or-lt}
use fast_llm.Prelude.Int.{ℤ, pos, ◌+ℤ◌, ◌-ℤ◌, ◌*ℤ◌}
use fast_llm.Prelude.IntSums.{total_ℤ, total_cong, total_cut, total_pairs}
use fast_llm.Prelude.Loops.{loop, loop-cong}
use fast_llm.Floats.{Float}
use fast_llm.Quants.Blocks.{Bytes, at, u16_at, u32_at, int8, q4k_scale_min, q5_0_low, q5_0_high}
use fast_llm.Quants.Blocks.Ranges.{AreBytes}
use fast_llm.Quants.Half.{half2float}
use fast_llm.Quants.Activations.{BlkQ81, BlkQ8k}
use fast_llm.Quants.IntDots.{
  dot_i8k_q4_k, dot_i8_q5_0, step_q4_k, iacc_q4_k, weight_q4_k, dot_q4_k, sum_q5_0, fold4,
  fold_term, four_zeros,
}
use fast_llm.Quants.IntDots.Bounds.{weight_q4_k-lt}
use fast_llm.Shadow.Unpack.{
  float_bytes, float_at, build_rows_q4k, build_rows_q50, step_shadow, dot_i8k_q4_k_shadow,
  dot_i8_q5_0_shadow,
}
use fast_llm.Shadow.Unpack.Contents.{chunk_bytes, block_q4k, block_q50, row_byte_q4k, row_byte_q50}

-- A float survives in four bytes of memory.
pub record Stores (float : Float) : Type 0 where
  pub to_bits-lt : (f : float.F) → float.to_bits f < 2 ^ 32
  pub of_bits-to_bits : (f : float.F) → float.of_bits (float.to_bits f) ≡ f

int8_small : (b : ℕ) → b < 128 → int8 b ≡ pos b
unfolding int8
int8_small b h = ground arith

at-at : (row : Bytes) (a b : ℕ) → at (at row a) b ≡ at row (a + b)
at-at row a b = fun_ext (λ i. ap row (omega arith))

far : (k x : ℕ) → x ≡ 24 + k → ltb x 24 ≡ false
far k x h = ground arith

ap₃ {ℓ} :
    {A : Type ℓ} (f : ℕ → ℕ → ℤ → A) {a a' b b' : ℕ} {c c' : ℤ}
    → a ≡ a'
    → b ≡ b'
    → c ≡ c'
    → f a b c ≡ f a' b' c'
ap₃ f p q r = rw (p, q, r)

module _ (float : Float) (s : Stores float) where
  open float use {F, of_bits, to_bits, mul, neg}

  read_back :
      (mem : Bytes) (o : ℕ) (f : F)
      → ((k : ℕ) → k < 4 → mem (o + k) ≡ float_bytes float f k)
      → float_at float mem o ≡ f
  read_back mem o f h =
      ap of_bits (
        omega (
          arith,
          ap mem {x = o} {y = o + 0} (omega arith),
          h 0 (omega arith),
          h 1 (omega arith),
          h 2 (omega arith),
          h 3 (omega arith),
          s.to_bits-lt f,
        ))
      ∙ s.of_bits-to_bits f

  -- A superblock of q4_K at `W` and its 280 bytes at `o`.
  module _ (W o : Bytes) (bytes : AreBytes W)
      (h : (k : ℕ) → k < 280 → o k ≡ block_q4k float W k) where
    stored_weight :
        (g i : ℕ) → g < 8 → i < 32 → o (24 + (g / 2 * 64 + g % 2 * 32) + i) ≡ weight_q4_k W g i
    unfolding weight_q4_k
    stored_weight g i p q =
        h (24 + (g / 2 * 64 + g % 2 * 32) + i) (omega arith)
        ∙ if_of_false _ _
            (far (g / 2 * 64 + g % 2 * 32 + i) (24 + (g / 2 * 64 + g % 2 * 32) + i) (omega arith))
        ∙ ap₂ (chunk_bytes float W) {x = (24 + (g / 2 * 64 + g % 2 * 32) + i - 24) / 64} {y = g / 2}
            {v = g % 2 * 32 + i} (omega arith) (omega arith)
        ∙ ground (arith, bit_and_low g 1)

    weight_at :
        (g i : ℕ)
        → g < 8
        → i < 32
        → int8 (o (24 + (g / 2 * 64 + g % 2 * 32) + i)) ≡ pos (weight_q4_k W g i)
    weight_at g i p q =
        ap int8 (stored_weight g i p q)
        ∙ int8_small (weight_q4_k W g i) (omega (arith, weight_q4_k-lt W g i bytes))

    step_same :
        (xk : BlkQ8k F) (g : ℕ) (acc : ℤ × ℤ)
        → g < 8
        → step_shadow float o xk g acc ≡ step_q4_k W xk g acc
    unfolding step_shadow step_q4_k dot_q4_k
    step_same xk g acc p =
        ap₃
          (λ (sc mn : ℕ) (dot : ℤ).
            (acc.0 +ℤ pos sc *ℤ dot, acc.1 +ℤ pos mn *ℤ (xk.bsums (2 * g) +ℤ xk.bsums (2 * g + 1))))
          (h (8 + g) (omega arith)
            ∙ ground (
              arith,
              ap (λ (t : ℕ). (q4k_scale_min t (at W 4)).0) {x = 8 + g - 8} {y = g} (omega arith),
            ))
          (h (16 + g) (omega arith)
            ∙ ground (
              arith,
              ap (λ (t : ℕ). (q4k_scale_min t (at W 4)).1) {x = 16 + g - 8 - 8} {y = g}
                  (omega arith),
            ))
          (total_cong 32 _ _ (λ i q. ap (λ (t : ℤ). t *ℤ xk.qs (g * 32 + i)) (weight_at g i p q)))

    floats_same :
        (float_at float o 0 ≡ half2float float (u16_at W 0))
        × (float_at float o 4 ≡ half2float float (u16_at W 2))
    floats_same = (
      read_back o 0 _ (λ k p. ap o (omega arith) ∙ h k (omega arith) ∙ ground arith),
      read_back o 4 _ (λ k p.
          h (4 + k) (omega arith)
          ∙ ground (
            arith,
            ap (float_bytes float (half2float float (u16_at W 2))) {x = 4 + k - 4} {y = k}
                (omega arith),
          )),
    )

  -- A block of q5_0 at `W` and its 40 bytes at `o`.
  module _ (W o : Bytes) (bytes : AreBytes W)
      (h : (k : ℕ) → k < 40 → o k ≡ block_q50 float W k) where
    low_small : (j : ℕ) → q5_0_low W j < 32
    unfolding q5_0_low
    low_small j =
        bit_or-lt 5 _ _ (omega (arith, bit_and-le (W (6 + j)) 0x0F))
          (omega (arith, bit_and-le (u32_at W 2 / 2 ^ j * 2 ^ 4) 0x10))

    high_small : (j : ℕ) → q5_0_high W j < 32
    unfolding q5_0_high
    high_small j =
        bit_or-lt 5 _ _ (omega (arith, bytes (6 + j)))
          (omega (arith, bit_and-le (u32_at W 2 / 2 ^ (j + 12)) 0x10))

    low_at : (j : ℕ) → j < 16 → int8 (o (4 + j)) ≡ pos (q5_0_low W j)
    low_at j p =
        ap int8 (
          h (4 + j) (omega arith)
          ∙ ground (arith, low_small j, ap (q5_0_low W) {x = 4 + j - 4} {y = j} (omega arith)))
        ∙ int8_small (q5_0_low W j) (omega (arith, low_small j))

    high_at : (j : ℕ) → j < 16 → int8 (o (4 + (16 + j))) ≡ pos (q5_0_high W j)
    high_at j p =
        ap int8 (
          h (4 + (16 + j)) (omega arith)
          ∙ ground (
            arith,
            high_small j,
            ap (q5_0_high W) {x = 4 + (16 + j) - 4 - 16} {y = j} (omega arith),
          ))
        ∙ int8_small (q5_0_high W j) (omega (arith, high_small j))

    scale_same : float_at float o 0 ≡ half2float float (u16_at W 0)
    scale_same = read_back o 0 _ (λ k p. ap o (omega arith) ∙ h k (omega arith) ∙ ground arith)

    sum_same :
        (x : ℕ → ℤ)
        → total_ℤ 32 (λ i. int8 (o (4 + i)) *ℤ x i) -ℤ pos 16 *ℤ total_ℤ 32 x ≡ sum_q5_0 W x
    unfolding sum_q5_0
    sum_same x =
        ap (λ (t : ℤ). t -ℤ pos 16 *ℤ total_ℤ 32 x)
          (total_cut 16 16 (λ i. int8 (o (4 + i)) *ℤ x i)
            ∙ sym (total_pairs 16 _ _)
            ∙ total_cong 16 _ _
                (λ j p. ap₂ (λ (a b : ℤ). a *ℤ x j +ℤ b *ℤ x (16 + j)) (low_at j p) (high_at j p)))

  abbrev terms_q4_k : ℕ → BlkQ8k F → F → F → ℤ × ℤ → (ℕ → F) → ℕ → F
  terms_q4_k sb xk d dmin sums a4 =
      fold_term float sb (neg (mul dmin xk.d)) sums.1 (fold_term float sb (mul d xk.d) sums.0 a4)

  abbrev packed_q4_k : Bytes → ℕ → BlkQ8k F → (ℕ → F) → ℕ → F
  packed_q4_k W sb xk =
      terms_q4_k sb xk (half2float float (u16_at W 0)) (half2float float (u16_at W 2))
        (loop 8 (step_q4_k W xk) (pos 0, pos 0))

  -- Rows of bytes, unpacked into any memory: on every row, the scalar dot product over the unpacked row is
  -- the one over the packed row, the same float, for q4_K with q8_K activations and for q5_0 with
  -- q8_1 activations.
  pub unpacked_same :
      (packed : Bytes) (rows cols : ℕ) (mem : Bytes) (r : ℕ)
      → AreBytes packed
      → r < rows
      → ((xk : ℕ → BlkQ8k F)
          → dot_i8k_q4_k_shadow float
              (at (build_rows_q4k float packed rows cols mem) (r * (cols / 256 * 280)))
              xk
              cols
            ≡ dot_i8k_q4_k float (at packed (r * (cols / 256 * 144))) xk cols)
        × ((xq : ℕ → BlkQ81)
            → dot_i8_q5_0_shadow float
                (at (build_rows_q50 float packed rows cols mem) (r * (cols / 32 * 40)))
                xq
                cols
              ≡ dot_i8_q5_0 float (at packed (r * (cols / 32 * 22))) xq cols)
  unfolding dot_i8k_q4_k_shadow dot_i8k_q4_k dot_i8_q5_0_shadow dot_i8_q5_0 iacc_q4_k
  unpacked_same packed rows cols mem r bytes p = (
    λ xk. ap (fold4 float) (
        loop-cong (cols / 256) _ _ (four_zeros float) (λ sb a4 q.
          let W = at packed (r * (cols / 256 * 144) + sb * 144) in
          let o =
            at (at (build_rows_q4k float packed rows cols mem) (r * (cols / 256 * 280)))
              (sb * 280) in
          let h = λ (k : ℕ) (t : k < 280). row_byte_q4k float packed rows cols mem r sb k p q t in
          let d = floats_same W o (λ i. bytes _) h in
          ap₂
            (λ (a b : F).
              terms_q4_k sb (xk sb) a b (loop 8 (step_shadow float o (xk sb)) (pos 0, pos 0)) a4)
            d.0 d.1
          ∙ ap
              (λ (t : ℤ × ℤ).
                terms_q4_k sb (xk sb) (half2float float (u16_at W 0))
                  (half2float float (u16_at W 2)) t a4)
              (loop-cong 8 _ _ (pos 0, pos 0)
                (λ g acc u. step_same W o (λ i. bytes _) h (xk sb) g acc u))
          ∙ ap (λ (V : Bytes). packed_q4_k V sb (xk sb) a4)
              (sym (at-at packed (r * (cols / 256 * 144)) (sb * 144))))),
    λ xq. ap (fold4 float) (
        loop-cong (cols / 32) _ _ (four_zeros float) (λ b a4 q.
          let W = at packed (r * (cols / 32 * 22) + b * 22) in
          let o =
            at (at (build_rows_q50 float packed rows cols mem) (r * (cols / 32 * 40))) (b * 40) in
          let h = λ (k : ℕ) (t : k < 40). row_byte_q50 float packed rows cols mem r b k p q t in
          ap₂ (λ (d : F) (t : ℤ). fold_term float b (mul d (half2float float (xq b).d)) t a4)
            (scale_same W o (λ i. bytes _) h) (sum_same W o (λ i. bytes _) h (xq b).qs)
          ∙ ap
              (λ (V : Bytes).
                fold_term float b (mul (half2float float (u16_at V 0)) (half2float float (xq b).d))
                  (sum_q5_0 V (xq b).qs) a4)
              (sym (at-at packed (r * (cols / 32 * 22)) (b * 22))))),
  )
