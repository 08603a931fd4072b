-- ===== src/Shadow/Tests.antt =====
-- Two tensors and their shadows, and eleven rows among three threads.
use fast_llm.Prelude.{◌+◌, ◌*◌, ◌≡◌, refl, true, false, some, List, [], ◌∷◌, arith}
use fast_llm.Task.{q4_k, q5_0}
use fast_llm.Quants.{row_bytes, blk_elems, blk_bytes}
use fast_llm.Shadow.{
  Span, TensorDesc, spans_of, shadow_row_bytes_of, find, shadow_row, build_parallel, chunks_from,
  chunk_size, choose_layout,
}
use fast_llm.Shadow.Registry.{shadow_row_lem}
use fast_llm.Shadow.Chunks.{holders, AllEven, build_parallel_covers, choose_layout-AllEven}

abbrev spans : List Span
spans =
    record {
      base = 1000;
      end = 1000 + 4 * 144;
      shadow = 9000;
      packed_row_bytes = 144;
      shadow_row_bytes = 280;
      fmt = q4_k;
      smmla = false;
    }
    ∷ record {
      base = 2000;
      end = 2000 + 2 * 22;
      shadow = 9000 + 4 * 280;
      packed_row_bytes = 22;
      shadow_row_bytes = 40;
      fmt = q5_0;
      smmla = false;
    }
    ∷ []

abbrev second : Span
second = record {
  base = 2000;
  end = 2000 + 2 * 22;
  shadow = 9000 + 4 * 280;
  packed_row_bytes = 22;
  shadow_row_bytes = 40;
  fmt = q5_0;
  smmla = false;
}

spans_of-spans :
    spans_of 9000 false 0 (
      record { p = 1000; fmt = q4_k; cols = 256; rows_total = 4 }
      ∷ record { p = 2000; fmt = q5_0; cols = 32; rows_total = 2 }
      ∷ [])
    ≡ spans
unfolding spans_of shadow_row_bytes_of row_bytes blk_elems blk_bytes
spans_of-spans = refl

shadow_row_lem_example :
    (find spans (2000 + 1 * 22 + 8) ≡ some second)
    × (shadow_row second (2000 + 1 * 22 + 8) ≡ 9000 + 4 * 280 + 1 * 40)
shadow_row_lem_example =
    shadow_row_lem spans 1 second 1 8 (omega arith, (omega arith, tt), (omega arith, tt, tt)) refl
      (omega arith) (omega arith)

build_parallel-eleven : build_parallel 11 4 ≡ (0, 4) ∷ (4, 4) ∷ (8, 3) ∷ []
unfolding build_parallel chunks_from chunk_size
build_parallel-eleven = refl

build_parallel_covers_example : holders 9 (build_parallel 11 4) ≡ 1
build_parallel_covers_example =
    build_parallel_covers 11 4 9 (omega arith) (omega arith) (omega arith)

abbrev descs : List TensorDesc
descs =
    record { p = 1000; fmt = q4_k; cols = 256; rows_total = 12 }
    ∷ record { p = 9000; fmt = q5_0; cols = 32; rows_total = 11 }
    ∷ []

choose_layout-descs : choose_layout true descs ≡ true
unfolding choose_layout
choose_layout-descs = refl

choose_layout-AllEven_example : AllEven (build_parallel 12 4)
choose_layout-AllEven_example =
    choose_layout-AllEven descs true 4 0
      (record { p = 1000; fmt = q4_k; cols = 256; rows_total = 12 }) choose_layout-descs refl refl
      (omega arith) (omega arith)
