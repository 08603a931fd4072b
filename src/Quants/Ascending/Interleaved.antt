-- ===== src/Quants/Ascending/Interleaved.antt =====
-- The product of an iq3_xxs row, which takes the two halves of a group of eight in turns.
use fast_llm.Prelude.{
  ℕ, ◌+◌, ◌*◌, ◌/◌, ◌-◌, ◌<◌, ltb, lt→ltb, if_of_true, if_of_false, false, ◌≡◌, ◌∙◌, refl, sym, ap,
  arith,
}
use fast_llm.Prelude.Loops.{loop-cong, loop-mul, loop_two}
use fast_llm.Floats.{Float}
use fast_llm.Quants.{blk_elems, blk_bytes}
use fast_llm.Task.{iq3_xxs}
use fast_llm.Quants.Blocks.{Bytes, at}
use fast_llm.Quants.Rows.{accumulate, dot_row_iq3_xxs}
use fast_llm.Quants.Reference.{
  dot_ascending, dequantize, part_iq3_xxs, scale_iq3_xxs, byte_iq3_xxs, ref_elem_iq3_xxs,
  visit_order, ref_elem,
}
use fast_llm.Quants.Ascending.Steps.{ap₃, step_eq, dequantize-at}

later_test : (j : ℕ) → ltb (j + 4) 4 ≡ false
later_test j = ground arith

add-sub-four : (j : ℕ) → j + 4 - 4 ≡ j
add-sub-four j = omega arith

module _ (float : Float) where
  open float use {F, of_bits, mul, of_int}

  iq3_xxs_elem :
      (B : Bytes) (ib l j : ℕ)
      → l < 4
      → j < 8
      → ref_elem_iq3_xxs float B (ib * 32 + (l * 8 + j)) ≡ part_iq3_xxs float B ib l j
  unfolding ref_elem_iq3_xxs
  iq3_xxs_elem B ib l j p q = ap₃ (part_iq3_xxs float B) (omega arith) (omega arith) (omega arith)

  -- One element of an iq3_xxs row, found through the order of the visits.
  iq3_xxs_step :
      (row : Bytes) (x : ℕ → F) (sb ib l j p o : ℕ) (w : F) (acc : F)
      → ib < 8
      → l < 4
      → j < 8
      → part_iq3_xxs float (at row (sb * 98)) ib l j ≡ w
      → visit_order iq3_xxs p ≡ sb * 256 + (ib * 32 + (l * 8 + j))
      → o ≡ sb * 256 + (ib * 32 + (l * 8 + j))
      → accumulate float
          (dequantize float iq3_xxs row (visit_order iq3_xxs p))
          (x (visit_order iq3_xxs p))
          acc
        ≡ accumulate float w (x o) acc
  unfolding ref_elem blk_elems blk_bytes
  iq3_xxs_step row x sb ib l j p o w acc hi hl hj d e e' =
      step_eq float x acc
        (ap (dequantize float iq3_xxs row) e
          ∙ dequantize-at float iq3_xxs row sb (ib * 32 + (l * 8 + j)) (omega arith)
          ∙ iq3_xxs_elem (at row (sb * 98)) ib l j hl hj
          ∙ d)
        (e ∙ sym e')

  visit_first :
      (sb ib l j p : ℕ)
      → j < 4
      → p ≡ sb * 256 + (ib * 32 + (l * 8 + (j * 2 + 0)))
      → visit_order iq3_xxs p ≡ sb * 256 + (ib * 32 + (l * 8 + j))
  unfolding visit_order
  visit_first sb ib l j p h e = omega arith

  visit_later :
      (sb ib l j p : ℕ)
      → j < 4
      → p ≡ sb * 256 + (ib * 32 + (l * 8 + (j * 2 + 1)))
      → visit_order iq3_xxs p ≡ sb * 256 + (ib * 32 + (l * 8 + (j + 4)))
  unfolding visit_order
  visit_later sb ib l j p h e = omega arith

  pub order_iq3_xxs :
      (row : Bytes) (x : ℕ → F) (cols : ℕ)
      → dot_row_iq3_xxs float row x cols
        ≡ dot_ascending float
            (cols / 256 * 256)
            (λ p. dequantize float iq3_xxs row (visit_order iq3_xxs p))
            (λ p. x (visit_order iq3_xxs p))
  unfolding dot_row_iq3_xxs dot_ascending
  order_iq3_xxs row x cols = sym (
      loop-mul (cols / 256) 256 _ _
      ∙ loop-cong (cols / 256) _ _ _ (λ sb acc p.
        loop-mul 8 32 _ acc
        ∙ loop-cong 8 _ _ acc (λ ib acc q.
          loop-mul 4 8 _ acc
          ∙ loop-cong 4 _ _ acc (λ l acc r.
            let B = at row (sb * 98) in
            loop-mul 4 2 _ acc
            ∙ loop-cong 4 _ _ acc (λ j acc t.
              loop_two _ acc
              ∙ iq3_xxs_step row x sb ib l (j + 4) _ (sb * 256 + (ib * 32 + l * 8 + j + 4))
                  (mul (scale_iq3_xxs float B ib) (byte_iq3_xxs float B ib l 1 (j + 4) j)) _ q r
                  (omega arith)
                  (ap (mul (scale_iq3_xxs float B ib)) (
                    if_of_false _ _ (later_test j)
                    ∙ ap (byte_iq3_xxs float B ib l 1 (j + 4)) (add-sub-four j)))
                  (visit_later sb ib l j _ t refl) (omega arith)
              ∙ ap (accumulate float _ _) (
                  iq3_xxs_step row x sb ib l j _ (sb * 256 + (ib * 32 + l * 8 + j))
                    (mul (scale_iq3_xxs float B ib) (byte_iq3_xxs float B ib l 0 j j)) acc q r
                    (omega arith)
                    (ap (mul (scale_iq3_xxs float B ib)) (if_of_true _ _ (lt→ltb j 4 t)))
                    (visit_first sb ib l j _ t refl) (omega arith)))))))
