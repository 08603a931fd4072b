-- ===== src/Quants/Blocks/Ranges.antt =====
-- The ranges of the packed integers, and the scales unpacked all at once.
use fast_llm.Prelude.{ℕ, zero, suc, refl, ◌+◌, ◌-◌, ◌*◌, ◌/◌, ◌%◌, ◌^◌, ◌<◌, ◌≡◌, arith}
use fast_llm.Prelude.Bits.{bit_and_low}
use fast_llm.Prelude.Fields.{shifted_or}
use fast_llm.Prelude.IntBounds.{Within}
use fast_llm.Prelude.Loops.{loop}
use fast_llm.Quants.Blocks.{Bytes, int8, q4k_scale_min, q4k_scales_all, q6_k_weight}

abbrev pub AreBytes : Bytes → Type 0
AreBytes row = (i : ℕ) → row i < 256

pub int8-Within : (b : ℕ) → b < 256 → Within 128 (int8 b)
unfolding int8
int8-Within b h = ground arith

pub q4k_scale_min-lt :
    (j : ℕ) (s : Bytes)
    → AreBytes s
    → j < 8
    → ((q4k_scale_min j s).0 < 64) × ((q4k_scale_min j s).1 < 64)
unfolding q4k_scale_min
q4k_scale_min-lt j s b h = ground (
  arith,
  b j,
  b (j + 4),
  b (j - 4),
  b (j - 0),
  bit_and_low (s j) 6,
  bit_and_low (s (j + 4)) 6,
  bit_and_low (s (j + 4)) 4,
  shifted_or 4 (s (j - 4) / 2 ^ 6) (s (j + 4) % 2 ^ 4) (omega arith),
  shifted_or 4 (s (j - 0) / 2 ^ 6) (s (j + 4) / 2 ^ 4) (omega (arith, b (j + 4))),
)

pub q6_k_weight-lt : (s lb hb : ℕ) → lb < 256 → q6_k_weight s lb hb < 64
unfolding q6_k_weight
q6_k_weight-lt s lb hb h = ground (
  arith,
  bit_and_low lb 4,
  bit_and_low (hb / 2 ^ (2 * s)) 2,
  shifted_or 4 (hb / 2 ^ (2 * s) % 4) (lb % 16) (omega arith),
  shifted_or 4 (hb / 2 ^ (2 * s) % 4) (lb / 16) (omega arith),
)

-- All pairs at once are the pairs one by one.
pub q4k_scales_all_lem :
    (s : Bytes) (out : Bytes × Bytes) (j : ℕ)
    → j < 8
    → ((q4k_scales_all s out).0 j ≡ (q4k_scale_min j s).0)
      × ((q4k_scales_all s out).1 j ≡ (q4k_scale_min j s).1)
unfolding q4k_scales_all q4k_scale_min loop
q4k_scales_all_lem s out zero h = (refl, refl)
q4k_scales_all_lem s out (suc zero) h = (refl, refl)
q4k_scales_all_lem s out (suc (suc zero)) h = (refl, refl)
q4k_scales_all_lem s out (suc (suc (suc zero))) h = (refl, refl)
q4k_scales_all_lem s out (suc (suc (suc (suc zero)))) h = (refl, refl)
q4k_scales_all_lem s out (suc (suc (suc (suc (suc zero))))) h = (refl, refl)
q4k_scales_all_lem s out (suc (suc (suc (suc (suc (suc zero)))))) h = (refl, refl)
q4k_scales_all_lem s out (suc (suc (suc (suc (suc (suc (suc zero))))))) h = (refl, refl)
q4k_scales_all_lem s out (suc (suc (suc (suc (suc (suc (suc (suc j)))))))) h = absurd (omega arith)
