-- ===== src/Quants/Half/RoundTrip.antt =====
-- A half that becomes a single-precision number and comes back.
use fast_llm.Prelude.{
  ℕ, ◌+◌, ◌-◌, ◌*◌, ◌/◌, ◌%◌, ◌^◌, ◌≤◌, ◌<◌, ◌≡◌, ◌∙◌, refl, ap, subst, dec_lt, bit_and, arith,
}
use fast_llm.Prelude.Bits.{bit_and_low, bit_and_high}
use fast_llm.Prelude.Fields.{or_shifted, same_values, same_values-eq}
use fast_llm.Quants.Half.{half_bits, float2half_bits, renormalize, round_even, subnormal_half}

-- The pattern without its sign, by the three cases.
sign_of_half : (h : ℕ) → h < 2 ^ 16 → bit_and h 0x8000 ≡ h - h % 2 ^ 15
sign_of_half h p = bit_and_high 1 15 h p

normal_bits :
    (s em : ℕ)
    → s ≤ 1
    → 0x400 ≤ em
    → em < 0x7C00
    → half_bits (s * 2 ^ 15 + em) ≡ s * 2 ^ 31 + (em + 0x1C000) * 2 ^ 13
unfolding half_bits
normal_bits s em p q r = ground (
  arith,
  bit_and_high 1 15 (s * 2 ^ 15 + em) (omega arith),
  bit_and_low (s * 2 ^ 15 + em) 15,
  or_shifted 31 s ((em + 0x1C000) * 2 ^ 13) (omega arith),
)

infinite_bits : (s : ℕ) → s ≤ 1 → half_bits (s * 2 ^ 15 + 0x7C00) ≡ s * 2 ^ 31 + 0x7F800000
unfolding half_bits
infinite_bits s p = ground (
  arith,
  bit_and_high 1 15 (s * 2 ^ 15 + 0x7C00) (omega arith),
  bit_and_low (s * 2 ^ 15 + 0x7C00) 15,
  bit_and_low 0x7C00 10,
  or_shifted 31 s 0x7F800000 (omega arith),
  or_shifted 23 (s * 2 ^ 8 + 0xFF) 0 (omega arith),
)

zero_bits : (s : ℕ) → s ≤ 1 → half_bits (s * 2 ^ 15) ≡ s * 2 ^ 31
unfolding half_bits
zero_bits s p =
    ground (arith, bit_and_high 1 15 (s * 2 ^ 15) (omega arith), bit_and_low (s * 2 ^ 15) 15)

-- The magnitude of a subnormal half
abbrev subnormal_bits : ℕ → ℕ
subnormal_bits em =
    (112 - (renormalize 10 em 0).1) * 2 ^ 23 + (renormalize 10 em 0).0 % 2 ^ 10 * 2 ^ 13

-- What the bits of a single-precision number give: its sign beside the half of its magnitude.
halve :
    (s f : ℕ)
    → s ≤ 1
    → f < 0x38800000
    → subnormal_half f < 2 ^ 15
    → float2half_bits (s * 2 ^ 31 + f) ≡ s * 2 ^ 15 + subnormal_half f
unfolding float2half_bits
halve s f p q r = ground (
  arith,
  bit_and_high 1 15 ((s * 2 ^ 31 + f) / 2 ^ 16) (omega arith),
  bit_and_low (s * 2 ^ 31 + f) 31,
  or_shifted 15 s (subnormal_half f) r,
)

-- The subnormal halves, all of them.
shifts_below : (em : ℕ) → em < 1024 → (renormalize 10 em 0).1 - 10 ≡ 0
unfolding renormalize same_values
shifts_below em h = same_values-eq (λ t. (renormalize 10 t 0).1 - 10) (λ t. 0) 1024 em h refl

subnormal_back_suc : (t : ℕ) → t < 1023 → subnormal_half (subnormal_bits (t + 1)) ≡ t + 1
unfolding renormalize same_values subnormal_half round_even
subnormal_back_suc t h =
    same_values-eq (λ t. subnormal_half (subnormal_bits (t + 1))) (λ t. t + 1) 1023 t h refl

subnormal_back : (em : ℕ) → em < 1024 → 0 < em → subnormal_half (subnormal_bits em) ≡ em
subnormal_back em h p =
    subst (λ (t : ℕ). subnormal_half (subnormal_bits t) ≡ t) {x = em - 1 + 1} (omega arith)
      (subnormal_back_suc (em - 1) (omega arith))

split_subnormal :
    (s em : ℕ)
    → s ≤ 1
    → 0 < em
    → em < 1024
    → half_bits (s * 2 ^ 15 + em) ≡ s * 2 ^ 31 + subnormal_bits em
unfolding half_bits
split_subnormal s em p q r = ground (
  arith,
  bit_and_high 1 15 (s * 2 ^ 15 + em) (omega arith),
  bit_and_low (s * 2 ^ 15 + em) 15,
  bit_and_low (renormalize 10 em 0).0 10,
  shifts_below em r,
  or_shifted 31 s ((112 - (renormalize 10 em 0).1) * 2 ^ 23) (omega arith),
  or_shifted 23 (s * 2 ^ 8 + (112 - (renormalize 10 em 0).1))
      ((renormalize 10 em 0).0 % 2 ^ 10 * 2 ^ 13) (omega arith),
)

normal_back :
    (s em : ℕ)
    → s ≤ 1
    → 0x400 ≤ em
    → em < 0x7C00
    → float2half_bits (s * 2 ^ 31 + (em + 0x1C000) * 2 ^ 13) ≡ s * 2 ^ 15 + em
unfolding float2half_bits round_even
normal_back s em p q r = ground (
  arith,
  bit_and_high 1 15 ((s * 2 ^ 31 + (em + 0x1C000) * 2 ^ 13) / 2 ^ 16) (omega arith),
  bit_and_low (s * 2 ^ 31 + (em + 0x1C000) * 2 ^ 13) 31,
  bit_and_low ((em + 0x1C000) * 2 ^ 13) 13,
  bit_and_low (em + 0x1C000) 10,
  or_shifted 10 (em / 2 ^ 10) (em % 2 ^ 10) (omega arith),
  or_shifted 15 s em (omega arith),
)

infinite_back : (s : ℕ) → s ≤ 1 → float2half_bits (s * 2 ^ 31 + 0x7F800000) ≡ s * 2 ^ 15 + 0x7C00
unfolding float2half_bits
infinite_back s p = ground (
  arith,
  bit_and_high 1 15 ((s * 2 ^ 31 + 0x7F800000) / 2 ^ 16) (omega arith),
  bit_and_low (s * 2 ^ 31 + 0x7F800000) 31,
  or_shifted 15 s 0x7C00 (omega arith),
)

zero_back : (s : ℕ) → s ≤ 1 → float2half_bits (s * 2 ^ 31) ≡ s * 2 ^ 15
unfolding subnormal_half
zero_back s p =
    ap float2half_bits {y = s * 2 ^ 31 + 0} (omega arith)
    ∙ halve s 0 p (omega arith) (omega arith)
    ∙ omega arith

-- By the magnitude of the half: zero, subnormal, normal or infinite.
round_trip :
    (s em : ℕ)
    → s ≤ 1
    → em ≤ 0x7C00
    → float2half_bits (half_bits (s * 2 ^ 15 + em)) ≡ s * 2 ^ 15 + em
round_trip s em p q = elim (dec_lt em 1) [
  | yes z ↦
      ap (λ (t : ℕ). float2half_bits (half_bits t)) {y = s * 2 ^ 15} (omega arith)
      ∙ ap float2half_bits (zero_bits s p)
      ∙ zero_back s p
      ∙ omega arith
  | no z ↦ elim (dec_lt em 1024) [
    | yes a ↦
        ap float2half_bits (split_subnormal s em p (omega arith) a)
        ∙ halve s (subnormal_bits em) p (omega arith)
            (omega (arith, subnormal_back em a (omega arith)))
        ∙ ap (λ (t : ℕ). s * 2 ^ 15 + t) (subnormal_back em a (omega arith))
    | no a ↦ elim (dec_lt em 0x7C00) [
      | yes b ↦
          ap float2half_bits (normal_bits s em p (omega arith) b)
          ∙ normal_back s em p (omega arith) b
      | no b ↦
          let e : em ≡ 0x7C00 = omega arith in
          rw e (ap float2half_bits (infinite_bits s p) ∙ infinite_back s p)
    ]
  ]
]

-- A half that is no NaN comes back as it was, through its single-precision number.
pub float2half-half_bits :
    (h : ℕ) → h < 2 ^ 16 → h % 2 ^ 15 ≤ 0x7C00 → float2half_bits (half_bits h) ≡ h
float2half-half_bits h p q =
    ap (λ (t : ℕ). float2half_bits (half_bits t)) {y = h / 2 ^ 15 * 2 ^ 15 + h % 2 ^ 15}
      (omega arith)
    ∙ round_trip (h / 2 ^ 15) (h % 2 ^ 15) (omega arith) q
    ∙ omega arith
