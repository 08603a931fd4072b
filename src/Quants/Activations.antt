-- ===== src/Quants/Activations.antt =====
-- src/runtime/quants.h: the blocks of quantized activations, the quantizers that fill them, and where they
-- lie behind the floats of an activation vector.
pub mod Sums
pub mod Layout
use fast_llm.Prelude.{ℕ, ◌+◌, ◌-◌, ◌*◌, ◌/◌, ◌%◌, ◌^◌, bit_and, ltb, if◌then◌else◌}
use fast_llm.Prelude.Int.{ℤ, pos, negsuc, pos_part, neg_part, ◌+ℤ◌}
use fast_llm.Prelude.Words.{u32, u64}
use fast_llm.Prelude.Loops.{loop}
use fast_llm.Floats.{Float}
use fast_llm.Quants.Half.{float2half}
use fast_llm.Quants.Rows.{f_zero}

-- 32 activations: scale and scaled sum are halves, and `qs` holds bytes with a sign.
pub record BlkQ81 : Type 0 where
  pub d : ℕ
  pub s : ℕ
  pub qs : ℕ → ℤ

-- 256 activations, with the sums of the groups of 16 as signed 16-bit numbers.
pub record BlkQ8k (F : Type 0) : Type 0 where
  pub d : F
  pub bsums : ℕ → ℤ
  pub qs : ℕ → ℤ

-- `(int16_t)n`
unfoldable pub int16 : ℤ → ℤ
int16 n =
    let u = (pos_part n + (2 ^ 16 - neg_part n % 2 ^ 16)) % 2 ^ 16 in
    if ltb u (2 ^ 15) then pos u else negsuc (2 ^ 16 - 1 - u)

-- `(n + 15) & ~15` on `size_t`
unfoldable pub align_16 : ℕ → ℕ
align_16 n = bit_and (u64 (n + 15)) (2 ^ 64 - 2 ^ 4)

unfoldable pub xq_of : ℕ → ℕ → ℕ
xq_of x cols = u64 (x + align_16 (u64 (cols * 4)))

unfoldable pub xq_bytes : ℕ → ℕ
xq_bytes cols = u64 (cols / 32 * 36)

unfoldable pub xqk_of : ℕ → ℕ → ℕ
xqk_of x cols =
    let f32_bytes = align_16 (u64 (cols * 4)) in
    let q81_bytes = align_16 (xq_bytes cols) in u64 (x + f32_bytes + q81_bytes)

unfoldable pub x_alloc_bytes : ℕ → ℕ
x_alloc_bytes cols =
    let f32_bytes = align_16 (u64 (cols * 4)) in
    let q81_bytes = align_16 (xq_bytes cols) in u64 (f32_bytes + q81_bytes + cols / 256 * 292)

module _ (float : Float) where
  open float use {F, of_int, to_int, mul, div, fabs, round, lt}

  -- The largest magnitude among the first `n`
  unfoldable pub abs_max : ℕ → (ℕ → F) → F
  abs_max n x =
      loop n (λ i amax. let a = fabs (x i) in if lt amax a then a else amax) (f_zero float)

  abbrev pub scale_of : F → F
  scale_of amax = div amax (of_int (pos 127))

  abbrev pub inverse_of : F → F
  inverse_of amax = if lt (f_zero float) amax then div (of_int (pos 127)) amax else f_zero float

  -- Rounded, and cut off at 127 and -127
  unfoldable pub quantize_one : F → F → F
  quantize_one inv x =
      let q = round (mul x inv) in
      let q' = if lt (of_int (pos 127)) q then of_int (pos 127) else q in
      if lt q' (of_int (negsuc 126)) then of_int (negsuc 126) else q'

  unfoldable pub quantize_q8_1_block : (ℕ → F) → BlkQ81
  quantize_q8_1_block x =
      let amax = abs_max 32 x in
      let scale = scale_of amax in
      let q = λ (i : ℕ). to_int (quantize_one (inverse_of amax) (x i)) in
      let sum = loop 32 (λ i s. s +ℤ q i) (pos 0) in
      record { d = float2half float scale; s = float2half float (mul scale (of_int sum)); qs = q }

  unfoldable pub quantize_q8_k_block : (ℕ → F) → BlkQ8k F
  quantize_q8_k_block x =
      let amax = abs_max 256 x in
      let q = λ (i : ℕ). to_int (quantize_one (inverse_of amax) (x i)) in
      record {
        d = scale_of amax;
        bsums = λ g. int16 (loop 16 (λ i bs. bs +ℤ q (g * 16 + i)) (pos 0));
        qs = q;
      }

  -- The task that fills both appendices: the arrays afterwards
  unfoldable pub exec_act_q8 :
      (ℕ → F) → ℕ → (ℕ → BlkQ81) × (ℕ → BlkQ8k F) → (ℕ → BlkQ81) × (ℕ → BlkQ8k F)
  exec_act_q8 x cols out = (
    λ b. if ltb b (cols / 32) then quantize_q8_1_block (λ i. x (b * 32 + i)) else out.0 b,
    λ sb. if ltb sb (cols / 256) then quantize_q8_k_block (λ i. x (sb * 256 + i)) else out.1 sb,
  )
