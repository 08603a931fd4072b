-- ===== src/Quants/Activations/Layout.antt =====
-- Where the two appendices lie behind the floats of an activation vector.
use fast_llm.Prelude.{ℕ, ◌+◌, ◌*◌, ◌/◌, ◌%◌, ◌^◌, ◌≤◌, ◌<◌, ◌≡◌, arith}
use fast_llm.Prelude.Bits.{bit_and_high}
use fast_llm.Quants.Activations.{align_16, xq_of, xq_bytes, xqk_of, x_alloc_bytes}

align_16_lem : (n : ℕ) → n + 15 < 2 ^ 64 → align_16 n ≡ (n + 15) / 16 * 16
unfolding align_16
align_16_lem n h = ground (arith, bit_and_high 60 4 (n + 15) h)

-- An activation vector of `cols` floats at a 16-byte boundary `x`, with room for its allocation below
-- the end of the address space: the floats end before the q8_1 blocks begin, those end before the
-- q8_K blocks begin, and those end with the allocation; both kinds of blocks begin at 16-byte
-- boundaries.
pub layout :
    (x cols : ℕ)
    → cols < 2 ^ 32
    → x % 16 ≡ 0
    → x + x_alloc_bytes cols < 2 ^ 64
    → (x + cols * 4 ≤ xq_of x cols)
      × (xq_of x cols + cols / 32 * 36 ≤ xqk_of x cols)
      × (xqk_of x cols + cols / 256 * 292 ≡ x + x_alloc_bytes cols)
      × (xq_of x cols % 16 ≡ 0)
      × (xqk_of x cols % 16 ≡ 0)
unfolding xq_of xq_bytes xqk_of x_alloc_bytes
layout x cols h a r =
    ground
      (arith, align_16_lem (cols * 4) (omega arith), align_16_lem (cols / 32 * 36) (omega arith))
