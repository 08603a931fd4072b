-- ===== src/Quants/Half.antt =====
-- src/runtime/quants.h: the conversions between half and single precision, on bit patterns.
pub mod RoundTrip
use fast_llm.Prelude.{
  ℕ, zero, suc, ◌+◌, ◌-◌, ◌*◌, ◌/◌, ◌%◌, ◌^◌, bit_and, bit_or, ltb, leb, ◌==◌, if◌then◌else◌, ◌&&◌,
  ◌||◌,
}
use fast_llm.Prelude.Words.{u32}
use fast_llm.Floats.{Float}

-- `do { m <<= 1; ++e; } while (!(m & 0x400));` where `e` is the value that this round sets. Ten rounds
-- are enough, since a subnormal is not zero.
unfoldable pub renormalize : ℕ → ℕ → ℕ → ℕ × ℕ
renormalize zero m e = (m, e)
renormalize (suc fuel) m e =
    let m' = u32 (m * 2) in
    let more = renormalize fuel m' (e + 1) in if bit_and m' 0x400 == 0 then more else (m', e)

-- The single-precision pattern of a half
unfoldable pub half_bits : ℕ → ℕ
half_bits h =
    let sign = u32 (bit_and h 0x8000 * 2 ^ 16) in
    let em = bit_and h 0x7FFF in
    if leb 0x7C00 em
    then bit_or (bit_or sign 0x7F800000) (u32 (bit_and em 0x03FF * 2 ^ 13))
    else if leb 0x0400 em
    then bit_or sign (u32 (u32 (em + 0x1C000) * 2 ^ 13))
    else if em == 0
    then sign
    else let (m, e) = renormalize 10 em 0 in
      bit_or (bit_or sign (u32 ((112 - e) * 2 ^ 23))) (u32 (bit_and m 0x03FF * 2 ^ 13))

unfoldable pub half2float : (float : Float) → ℕ → float.F
half2float float h = float.of_bits (half_bits h)

-- Up by one if the rest is more than half of the last place, or just that and `h` is odd
unfoldable pub round_even : ℕ → ℕ → ℕ → ℕ
round_even h rem half = if ltb half rem || (rem == half && bit_and h 1 == 1) then h + 1 else h

abbrev u16 : ℕ → ℕ
u16 n = n % 2 ^ 16

-- A result below the normal halves: the mantissa with its hidden bit, shifted and rounded
unfoldable pub subnormal_half : ℕ → ℕ
subnormal_half em =
    let shift = 126 - em / 2 ^ 23 in
    let m = bit_or (bit_and em 0x7FFFFF) 0x800000 in
    if ltb 24 shift
    then 0
    else round_even (m / 2 ^ shift) (bit_and m (2 ^ shift - 1)) (2 ^ (shift - 1))

-- The half nearest to a single-precision pattern
unfoldable pub float2half_bits : ℕ → ℕ
float2half_bits u =
    let sign = bit_and (u / 2 ^ 16) 0x8000 in
    let em = bit_and u 0x7FFFFFFF in
    let h = bit_or ((em / 2 ^ 23 - 112) * 2 ^ 10) (bit_and (em / 2 ^ 13) 0x3FF) in
    if leb 0x47800000 em
    then u16 (bit_or sign (if ltb 0x7F800000 em then 0x7E00 else 0x7C00))
    else if ltb em 0x38800000
    then u16 (bit_or sign (subnormal_half em))
    else u16 (bit_or sign (round_even h (bit_and em 0x1FFF) 0x1000))

unfoldable pub float2half : (float : Float) → float.F → ℕ
float2half float x = float2half_bits (float.to_bits x)
