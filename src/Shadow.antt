-- ===== src/Shadow.antt =====
-- The int8 copies of packed weights: the registry of src/runtime/shadow.cpp and src/runtime/shadow.h, and
-- how src/runtime/shadow.cpp divides the rows of a tensor among threads.
pub mod Registry
pub mod Chunks
pub mod Unpack
mod Tests
use fast_llm.Prelude.{
  ℕ, zero, suc, ◌+◌, ◌-◌, ◌*◌, ◌/◌, bit_and, min, max, Bool, true, false, ◌&&◌, ltb, leb, ◌==◌,
  if◌then◌else◌, Option, none, some, List, [], ◌∷◌,
}
use fast_llm.Prelude.Words.{u64}
use fast_llm.Task.{Fmt, q4_k, q5_0}
use fast_llm.Quants.{row_bytes}

pub record Span : Type 0 where
  pub base : ℕ
  pub end : ℕ
  pub shadow : ℕ
  pub packed_row_bytes : ℕ
  pub shadow_row_bytes : ℕ
  pub fmt : Fmt
  pub smmla : Bool

unfoldable pub shadow_row_bytes_of : Fmt → ℕ → ℕ
shadow_row_bytes_of q4_k cols = cols / 256 * 280
shadow_row_bytes_of q5_0 cols = cols / 32 * 40
shadow_row_bytes_of _ cols = 0

-- The last lines of `fl_shadow_find`, at the span before the bound.
abbrev pub check : Option Span → ℕ → Option Span
check none p = none
check (some s) p = if leb s.base p && ltb p s.end then some s else none

-- `upper_bound` stops at the first span whose base is above `p`.
unfoldable pub find_from : Option Span → List Span → ℕ → Option Span
find_from before [] p = check before p
find_from before (s ∷ spans) p = if ltb p s.base then check before p else find_from (some s) spans p

unfoldable pub find : List Span → ℕ → Option Span
find spans p = find_from none spans p

unfoldable pub row_index : Span → ℕ → ℕ
row_index s packed_row = (packed_row - s.base) / s.packed_row_bytes

unfoldable pub shadow_row : Span → ℕ → ℕ
shadow_row s packed_row = s.shadow + row_index s packed_row * s.shadow_row_bytes

pub record TensorDesc : Type 0 where
  pub p : ℕ
  pub fmt : Fmt
  pub cols : ℕ
  pub rows_total : ℕ

abbrev pub is_q4_k : Fmt → Bool
is_q4_k q4_k = true
is_q4_k _ = false

-- `fl_shadow_init` falls back to the plain layout when a tensor has an odd number of rows.
unfoldable pub choose_layout : Bool → List TensorDesc → Bool
choose_layout smmla [] = smmla
choose_layout smmla (t ∷ ts) =
    choose_layout (if smmla && is_q4_k t.fmt && bit_and t.rows_total 1 == 1 then false else smmla)
      ts

-- The spans that `fl_shadow_init` registers, from the offset `off` of the payload on.
unfoldable pub spans_of : ℕ → Bool → ℕ → List TensorDesc → List Span
spans_of payload smmla off [] = []
spans_of payload smmla off (t ∷ ts) =
    let s : Span = record {
      base = t.p;
      end = t.p + t.rows_total * row_bytes t.fmt t.cols;
      shadow = payload + off;
      packed_row_bytes = row_bytes t.fmt t.cols;
      shadow_row_bytes = shadow_row_bytes_of t.fmt t.cols;
      fmt = t.fmt;
      smmla = smmla && is_q4_k t.fmt;
    } in
    s ∷ spans_of payload smmla (off + t.rows_total * s.shadow_row_bytes) ts

-- The number of threads of `build_parallel`, from `hardware_concurrency`.
abbrev pub threads : ℕ → ℕ
threads concurrency = max 2 concurrency - 1

-- `chunk`, rounded up to an even number
unfoldable pub chunk_size : ℕ → ℕ → ℕ
chunk_size rows nt = let chunk = u64 (rows + nt - 1) / nt in u64 (chunk + bit_and chunk 1)

-- The first row and the number of rows of each thread, from thread `i` on, `k` of them.
unfoldable pub chunks_from : ℕ → ℕ → ℕ → ℕ → List (ℕ × ℕ)
chunks_from rows chunk zero i = []
chunks_from rows chunk (suc k) i =
    let r0 = u64 (i * chunk) in
    let rest = chunks_from rows chunk k (i + 1) in
    if leb rows r0 then [] else (r0, min chunk (rows - r0)) ∷ rest

unfoldable pub build_parallel : ℕ → ℕ → List (ℕ × ℕ)
build_parallel rows concurrency =
    let nt = threads concurrency in chunks_from rows (chunk_size rows nt) nt 0
