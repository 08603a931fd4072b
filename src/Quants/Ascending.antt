-- ===== src/Quants/Ascending.antt =====
-- The canonical dot products of src/runtime/quants.h against the reference, with the very order of the
-- floating-point operations.
pub mod Steps
pub mod Formats
mod Interleaved
use Formats.{
  ascending_q8_0, ascending_q5_0, ascending_q4_k, ascending_q6_k, ascending_iq2_xxs, ascending_f32,
}
use Interleaved.{order_iq3_xxs}
use fast_llm.Prelude.{
  ℕ, ◌+◌, ◌*◌, ◌/◌, ◌%◌, ◌-◌, ◌<◌, ltb, lt→ltb, if_of_true, if_of_false, false, ◌≡◌, ◌≢◌, ◌∙◌, refl,
  sym, ap, ap₂, arith,
}
use fast_llm.Prelude.Loops.{loop, loop-cong, loop-mul, loop_cut, loop_nest, loop_quarters}
use fast_llm.Floats.{Float}
use fast_llm.Quants.{blk_elems, blk_bytes}
use fast_llm.Task.{Fmt, f32, q8_0, q5_0, q4_k, q6_k, iq2_xxs, iq3_xxs}
use fast_llm.Quants.Blocks.{Bytes, at, u16_at, u32_at, q5_0_low, q5_0_high}
use fast_llm.Quants.Half.{half2float}
use fast_llm.Prelude.Int.{pos, ◌-ℤ◌}
use fast_llm.Quants.Rows.{
  accumulate, f_zero, dot_row_iq3_xxs, dot_row_any, dot_row_f32, dot_row_q8_0, dot_row_q5_0,
  dot_row_q4_k, dot_row_q6_k, dot_row_iq2_xxs,
}
use fast_llm.Quants.Reference.{
  dot_ascending, dequantize, part_iq2_xxs, part_iq3_xxs, scale_iq3_xxs, byte_iq3_xxs,
  ref_elem_iq3_xxs, visit_order, ref_elem, ref_elem_iq2_xxs, ref_elem_q8_0, ref_elem_q5_0,
  ref_elem_q4_k, ref_elem_q6_k, part_q4_k, part_q6_k,
}

module _ (float : Float) where
  open float use {F, of_bits, mul, of_int}

  -- The canonical product of a row of any format takes the elements of its whole blocks one after the
  -- other, in the order of their places but for iq3_xxs, and adds each dequantized weight times its
  -- element of the vector: the same operations in the same order as the reference, whatever they are.
  pub ascending :
      (f : Fmt) (row : Bytes) (x : ℕ → F) (cols : ℕ)
      → dot_row_any float f row x cols
        ≡ dot_ascending float
            (cols / blk_elems f * blk_elems f)
            (λ p. dequantize float f row (visit_order f p))
            (λ p. x (visit_order f p))
  unfolding dot_row_any blk_elems visit_order
  ascending f32 row x cols = ascending_f32 float row x cols
  ascending q8_0 row x cols = ascending_q8_0 float row x cols
  ascending q5_0 row x cols = ascending_q5_0 float row x cols
  ascending q4_k row x cols = ascending_q4_k float row x cols
  ascending q6_k row x cols = ascending_q6_k float row x cols
  ascending iq2_xxs row x cols = ascending_iq2_xxs float row x cols
  ascending iq3_xxs row x cols = order_iq3_xxs float row x cols
