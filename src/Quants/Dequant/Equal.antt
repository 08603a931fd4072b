-- ===== src/Quants/Dequant/Equal.antt =====
-- What dequant_chunk() of src/runtime/kernels.h writes, against the reference.
use fast_llm.Prelude.{
  ℕ, zero, suc, ◌+◌, ◌*◌, ◌/◌, ◌%◌, ◌<◌, ◌≡◌, ◌∙◌, sym, ap, subst, arith, update, ltb, lt→ltb,
  if◌then◌else◌, if_of_true, if_of_false, Bool-cases, inl, inr, ltb→lt,
}
use fast_llm.Prelude.Loops.{loop}
use fast_llm.Prelude.Stores.{Keeps, Sets, loop-Keeps, loop-Sets}
use fast_llm.Task.{Fmt, f32, q8_0, q5_0, q4_k, q6_k, iq2_xxs, iq3_xxs}
use fast_llm.Floats.{Float}
use fast_llm.Quants.{blk_elems, blk_bytes, fmt_is_codebook}
use fast_llm.Quants.Blocks.{Bytes, at, u32_at}
use fast_llm.Quants.Rows.{f_zero}
use fast_llm.Quants.Reference.{dequantize, ref_elem}
use fast_llm.Quants.Ascending.Steps.{dequantize-at}
use fast_llm.Quants.Dequant.{dequant_chunk, chunk_q8_0, chunk_q5_0, chunk_q4_k, chunk_q6_k}
use fast_llm.Quants.Dequant.Contents.{
  WritesBlock, q8_0-WritesBlock, q5_0-WritesBlock, q4_k-WritesBlock,
}
use fast_llm.Quants.Dequant.Spans.{q6_k-WritesBlock}

inside : (n size b k : ℕ) → b < n → k < size → b * size + k < n * size
inside n size b k p q = grind arith

which : (n size i : ℕ) → i < n * size → i / size < n
which n size i h = grind arith

rem_lt : (size i : ℕ) → 0 < size → i % size < size
rem_lt size i h = grind arith

rejoin : (size i : ℕ) → 0 < size → i / size * size + i % size ≡ i
rejoin size i h = grind arith

module _ (float : Float) where
  open float use {F, of_bits}

  module _ (f : Fmt) (some : 0 < blk_elems f) (chunk : Bytes → ℕ → (ℕ → F) → ℕ → F)
      (writes : WritesBlock float f chunk) (row : Bytes) (e q : ℕ) (out : ℕ → F) where
    abbrev wanted : ℕ → F
    wanted i =
        if ltb i (q * blk_elems f) then dequantize float f row (e * blk_elems f + i) else out i

    abbrev block : ℕ → (ℕ → F) → ℕ → F
    block b = chunk (at row (e * blk_bytes f + b * blk_bytes f)) (b * blk_elems f)

    wanted-elem :
        (b : ℕ)
        → b < q
        → (k : ℕ) → k < blk_elems f
        → ref_elem float f (at row (e * blk_bytes f + b * blk_bytes f)) k
          ≡ wanted (b * blk_elems f + k)
    wanted-elem b p k r = sym (
        if_of_true _ _ (lt→ltb _ _ (inside q (blk_elems f) b k p r))
        ∙ ap (dequantize float f row) {x = e * blk_elems f + (b * blk_elems f + k)}
            {y = (e + b) * blk_elems f + k} (omega arith)
        ∙ dequantize-at float f row (e + b) k r
        ∙ ap (λ (a : ℕ). ref_elem float f (at row a) k) {x = (e + b) * blk_bytes f}
            {y = e * blk_bytes f + b * blk_bytes f} (omega arith))

    block-Keeps : (i b : ℕ) → b < q → Keeps wanted i (block b)
    block-Keeps i b p = (writes _ (b * blk_elems f) wanted (wanted-elem b p)).0 i

    blocks_lem : (i : ℕ) → loop q block out i ≡ wanted i
    blocks_lem i = elim (Bool-cases (ltb i (q * blk_elems f))) [
      | inr r ↦ loop-Keeps wanted i q block (block-Keeps i) out (sym (if_of_false _ _ r))
      | inl r ↦
          let b = i / blk_elems f in
          let p : b < q = which q (blk_elems f) i (ltb→lt _ _ r) in
          loop-Sets wanted i q block b p (block-Keeps i)
            (subst (λ j. Sets wanted j (block b)) (rejoin (blk_elems f) i some)
              ((writes _ (b * blk_elems f) wanted (wanted-elem b p)).1 (i % blk_elems f)
                (rem_lt (blk_elems f) i some)))
            out
    ]

  -- A loop that writes one float after the other
  fill_lem :
      (n : ℕ) (v : ℕ → F) (out : ℕ → F) (i : ℕ)
      → loop n (λ j m. update m j (v j)) out i ≡ (if ltb i n then v i else out i)
  unfolding loop
  fill_lem zero v out i = ground arith
  fill_lem (suc n) v out i = ground (arith, fill_lem n v out i, ap v {x = n} {y = i})

  -- What is written for one element: the reference's value, and zero in the codebook formats.
  abbrev pub written : Fmt → Bytes → ℕ → F
  written f row p = if fmt_is_codebook f then f_zero float else dequantize float f row p

  abbrev f32_at : Bytes → ℕ → ℕ → F
  f32_at row e i = of_bits (u32_at (at row ((e * 1 + i) * 4)) 0)

  f32_elem : (row : Bytes) (e i : ℕ) → f32_at row e i ≡ dequantize float f32 row (e * 1 + i)
  unfolding dequantize ref_elem blk_elems blk_bytes
  f32_elem row e i =
      ap (λ (t : ℕ). of_bits (u32_at (at row t) 0)) {y = (e * 1 + i) / 1 * 4} (omega arith)

  of_elems : (size e : ℕ) → 0 < size → e * size / size ≡ e
  of_elems size e h = grind arith

  -- dequant_chunk() of whole blocks, from a whole block on, writes the reference's value of each weight of
  -- these blocks, and leaves everything behind them as it was; of the codebook formats it writes
  -- zeros instead. The floating-point operations are the reference's, whatever they are.
  pub dequant_chunk_lem :
      (f : Fmt) (row : Bytes) (e q : ℕ) (out : ℕ → F) (i : ℕ)
      → dequant_chunk float f row (e * blk_elems f) (q * blk_elems f) out i
        ≡ (if ltb i (q * blk_elems f) then written f row (e * blk_elems f + i) else out i)
  unfolding dequant_chunk blk_elems blk_bytes fmt_is_codebook
  dequant_chunk_lem f32 row e q out i =
      fill_lem (q * 1) (f32_at row e) out i
      ∙ ap (λ v. if ltb i (q * 1) then v else out i) (f32_elem row e i)
  dequant_chunk_lem q8_0 row e q out i =
      rw (of_elems 32 e (omega arith), of_elems 32 q (omega arith))
        (blocks_lem q8_0 (omega arith) (chunk_q8_0 float) (q8_0-WritesBlock float) row e q out i)
  dequant_chunk_lem q5_0 row e q out i =
      rw (of_elems 32 e (omega arith), of_elems 32 q (omega arith))
        (blocks_lem q5_0 (omega arith) (chunk_q5_0 float) (q5_0-WritesBlock float) row e q out i)
  dequant_chunk_lem q4_k row e q out i =
      rw (of_elems 256 e (omega arith), of_elems 256 q (omega arith))
        (blocks_lem q4_k (omega arith) (chunk_q4_k float) (q4_k-WritesBlock float) row e q out i)
  dequant_chunk_lem q6_k row e q out i =
      rw (of_elems 256 e (omega arith), of_elems 256 q (omega arith))
        (blocks_lem q6_k (omega arith) (chunk_q6_k float) (q6_k-WritesBlock float) row e q out i)
  dequant_chunk_lem iq2_xxs row e q out i = fill_lem (q * 256) (λ j. f_zero float) out i
  dequant_chunk_lem iq3_xxs row e q out i = fill_lem (q * 256) (λ j. f_zero float) out i
