-- ===== src/Quants.antt =====
-- src/runtime/quants.h: the block geometry of each weight format.
pub mod Codebooks
pub mod Blocks
pub mod Half
pub mod Dequant
pub mod Rows
pub mod Reference
pub mod Ascending
pub mod Activations
pub mod IntDots
mod Tests
use fast_llm.Prelude.{ℕ, ◌*◌, ◌/◌, Bool, true, false}
use fast_llm.Prelude.Words.{u64}
use fast_llm.Task.{Fmt, f32, q8_0, q5_0, q4_k, q6_k, iq2_xxs, iq3_xxs}

unfoldable pub fmt_is_codebook : Fmt → Bool
fmt_is_codebook iq2_xxs = true
fmt_is_codebook iq3_xxs = true
fmt_is_codebook _ = false

unfoldable pub blk_elems : Fmt → ℕ
blk_elems f32 = 1
blk_elems q8_0 = 32
blk_elems q5_0 = 32
blk_elems _ = 256

unfoldable pub blk_bytes : Fmt → ℕ
blk_bytes f32 = 4
blk_bytes q8_0 = 34
blk_bytes q5_0 = 22
blk_bytes q4_k = 144
blk_bytes q6_k = 210
blk_bytes iq2_xxs = 66
blk_bytes iq3_xxs = 98

unfoldable pub row_bytes : Fmt → ℕ → ℕ
row_bytes f cols = u64 (cols / blk_elems f * blk_bytes f)
