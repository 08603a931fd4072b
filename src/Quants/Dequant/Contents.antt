-- ===== src/Quants/Dequant/Contents.antt =====
-- dequant_chunk() of src/runtime/kernels.h on a block of q8_0, q5_0 or q4_K.
use fast_llm.Prelude.{
  ℕ, ◌+◌, ◌-◌, ◌*◌, ◌/◌, ◌%◌, ◌<◌, ◌≡◌, ◌∙◌, refl, sym, arith, bit_and, ◌^◌, dec_lt, update,
}
use fast_llm.Prelude.Int.{pos, ◌-ℤ◌}
use fast_llm.Prelude.Loops.{loop}
use fast_llm.Prelude.Stores.{
  Keeps, Sets, update-Keeps, update-Sets, loop-Keeps, loop-Sets, update_next, Sets-next,
}
use fast_llm.Task.{Fmt, q8_0, q5_0, q4_k}
use fast_llm.Floats.{Float}
use fast_llm.Quants.{blk_elems}
use fast_llm.Quants.Blocks.{Bytes, at, u16_at, q5_0_low, q5_0_high, q4k_scale_min}
use fast_llm.Quants.Half.{half2float}
use fast_llm.Quants.Reference.{ref_elem, ref_elem_q8_0, ref_elem_q4_k}
use fast_llm.Quants.Ascending.Formats.{q5_0_low_elem, q5_0_high_elem, q4_k_elem}
use fast_llm.Quants.Dequant.{chunk_q8_0, chunk_q5_0, chunk_q4_k}

module _ (float : Float) where
  open float use {F, of_bits, of_int, sub, mul}

  -- A block's code writes the block's elements from `o` on, all of them, and nothing else.
  abbrev pub WritesBlock : Fmt → (Bytes → ℕ → (ℕ → F) → ℕ → F) → Type 0
  WritesBlock f chunk =
      (B : Bytes) (o : ℕ) (w : ℕ → F)
      → ((k : ℕ) → k < blk_elems f → ref_elem float f B k ≡ w (o + k))
      → ((i : ℕ) → Keeps w i (chunk B o)) × ((k : ℕ) → k < blk_elems f → Sets w (o + k) (chunk B o))

  pub q8_0-WritesBlock : WritesBlock q8_0 (chunk_q8_0 float)
  unfolding chunk_q8_0 ref_elem ref_elem_q8_0 blk_elems
  q8_0-WritesBlock B o w h = (
    λ i. loop-Keeps w i 32 _ (λ j p. update-Keeps w i (o + j) _ (h j p)),
    λ k q.
        loop-Sets w (o + k) 32 _ k q (λ j p. update-Keeps w (o + k) (o + j) _ (h j p))
          (update-Sets w (o + k) (o + k) _ (h k q) refl),
  )

  -- One block of q5_0, whose halves are written in turns
  module _ (B : Bytes) (o : ℕ) (w : ℕ → F)
      (h : (k : ℕ) → k < 32 → ref_elem float q5_0 B k ≡ w (o + k)) where
    abbrev low : ℕ → F
    low j = mul (half2float float (u16_at B 0)) (of_int (pos (q5_0_low B j) -ℤ pos 16))

    abbrev high : ℕ → F
    high j = mul (half2float float (u16_at B 0)) (of_int (pos (q5_0_high B j) -ℤ pos 16))

    low-elem : (j : ℕ) → j < 16 → low j ≡ w (o + j)
    unfolding ref_elem
    low-elem j p = sym (q5_0_low_elem float B j p) ∙ h j (omega (arith, p))

    high-elem : (j : ℕ) → j < 16 → high j ≡ w (o + (16 + j))
    unfolding ref_elem
    high-elem j p = sym (q5_0_high_elem float B j p) ∙ h (16 + j) (omega (arith, p))

    abbrev both : ℕ → (ℕ → F) → ℕ → F
    both j m = update (update m (o + j) (low j)) (o + (16 + j)) (high j)

    both-Keeps : (i j : ℕ) → j < 16 → Keeps w i (both j)
    both-Keeps i j p =
        update_next w i (λ m. update m (o + j) (low j)) (o + (16 + j)) (high j) (high-elem j p)
          (update-Keeps w i (o + j) (low j) (low-elem j p))

    both-Sets : (k : ℕ) → k < 32 → Sets w (o + k) (loop 16 both)
    both-Sets k q = elim (dec_lt k 16) [
      | yes p ↦ loop-Sets w (o + k) 16 both k p (both-Keeps (o + k)) (
          Sets-next w (o + k) (λ m. update m (o + k) (low k)) (o + (16 + k)) (high k)
            (high-elem k p) (update-Sets w (o + k) (o + k) (low k) (low-elem k p) refl))
      | no p ↦
          let r : k - 16 < 16 = omega (arith, p, q) in
          loop-Sets w (o + k) 16 both (k - 16) r (both-Keeps (o + k)) (λ m.
            update-Sets w (o + k) (o + (16 + (k - 16))) (high (k - 16)) (high-elem (k - 16) r)
              (omega (arith, p)) (update m (o + (k - 16)) (low (k - 16))))
    ]

  pub q5_0-WritesBlock : WritesBlock q5_0 (chunk_q5_0 float)
  unfolding chunk_q5_0 blk_elems
  q5_0-WritesBlock B o w h =
      (λ i. loop-Keeps w i 16 (both B o w h) (both-Keeps B o w h i), both-Sets B o w h)

  -- One block of q4_K: the low and then the high halves of each chunk
  module _ (B : Bytes) (o : ℕ) (w : ℕ → F)
      (h : (k : ℕ) → k < 256 → ref_elem float q4_k B k ≡ w (o + k)) where
    abbrev minimum : ℕ → F
    minimum i = mul (half2float float (u16_at B 2)) (of_int (pos (q4k_scale_min i (at B 4)).1))

    abbrev scale : ℕ → F
    scale i = mul (half2float float (u16_at B 0)) (of_int (pos (q4k_scale_min i (at B 4)).0))

    abbrev low_half : ℕ → ℕ → F
    low_half c l =
        sub (mul (scale (2 * c + 0)) (of_int (pos (bit_and (B (16 + c * 32 + l)) 0xF))))
          (minimum (2 * c + 0))

    abbrev high_half : ℕ → ℕ → F
    high_half c l =
        sub (mul (scale (2 * c + 1)) (of_int (pos (B (16 + c * 32 + l) / 2 ^ 4))))
          (minimum (2 * c + 1))

    low_half-elem : (c l : ℕ) → c < 4 → l < 32 → low_half c l ≡ w (o + (c * 64 + l))
    unfolding ref_elem
    low_half-elem c l p q =
        let e : ref_elem_q4_k float B (c * 64 + l) ≡ low_half c l =
          q4_k_elem float B c l (omega (arith, q)) ∙ ground arith in
        sym e ∙ h (c * 64 + l) (omega (arith, p, q))

    high_half-elem : (c l : ℕ) → c < 4 → l < 32 → high_half c l ≡ w (o + (c * 64 + (32 + l)))
    unfolding ref_elem
    high_half-elem c l p q =
        let e : ref_elem_q4_k float B (c * 64 + (32 + l)) ≡ high_half c l =
          q4_k_elem float B c (32 + l) (omega (arith, q)) ∙ ground arith in
        sym e ∙ h (c * 64 + (32 + l)) (omega (arith, p, q))

    abbrev lows : ℕ → ℕ → (ℕ → F) → ℕ → F
    lows c l m = update m (o + (c * 64 + l)) (low_half c l)

    abbrev highs : ℕ → ℕ → (ℕ → F) → ℕ → F
    highs c l m = update m (o + (c * 64 + (32 + l))) (high_half c l)

    lows-Keeps : (i c l : ℕ) → c < 4 → l < 32 → Keeps w i (lows c l)
    lows-Keeps i c l p q = update-Keeps w i _ _ (low_half-elem c l p q)

    highs-Keeps : (i c l : ℕ) → c < 4 → l < 32 → Keeps w i (highs c l)
    highs-Keeps i c l p q = update-Keeps w i _ _ (high_half-elem c l p q)

    abbrev halves : ℕ → (ℕ → F) → ℕ → F
    halves c m = loop 32 (highs c) (loop 32 (lows c) m)

    halves-Keeps : (i c : ℕ) → c < 4 → Keeps w i (halves c)
    halves-Keeps i c p m t =
        loop-Keeps w i 32 (highs c) (λ l q. highs-Keeps i c l p q) _
          (loop-Keeps w i 32 (lows c) (λ l q. lows-Keeps i c l p q) m t)

    halves-Sets : (k : ℕ) → k < 256 → Sets w (o + k) (halves (k / 64))
    halves-Sets k q m =
        let p : k / 64 < 4 = omega (arith, q) in
        elim (dec_lt (k % 64) 32) [
          | yes r ↦
              loop-Keeps w (o + k) 32 (highs (k / 64)) (λ l. highs-Keeps (o + k) (k / 64) l p) _
                (loop-Sets w (o + k) 32 (lows (k / 64)) (k % 64) r
                  (λ l. lows-Keeps (o + k) (k / 64) l p)
                  (update-Sets w (o + k) _ _ (low_half-elem (k / 64) (k % 64) p r) (omega arith)) m)
          | no r ↦
              let t : k % 64 - 32 < 32 = omega (arith, r) in
              loop-Sets w (o + k) 32 (highs (k / 64)) (k % 64 - 32) t
                (λ l. highs-Keeps (o + k) (k / 64) l p)
                (update-Sets w (o + k) _ _ (high_half-elem (k / 64) (k % 64 - 32) p t)
                  (omega (arith, r)))
                _
        ]

  pub q4_k-WritesBlock : WritesBlock q4_k (chunk_q4_k float)
  unfolding chunk_q4_k blk_elems
  q4_k-WritesBlock B o w h = (
    λ i. loop-Keeps w i 4 (halves B o w h) (halves-Keeps B o w h i),
    λ k q.
        loop-Sets w (o + k) 4 (halves B o w h) (k / 64) (omega (arith, q))
          (halves-Keeps B o w h (o + k)) (halves-Sets B o w h k q),
  )
