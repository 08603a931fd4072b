-- ===== src/Spec/Suffix/Match.antt =====
-- The inner loop of `draft` (src/spec/suffix_index.h): the length of a match.
use fast_llm.Prelude.{
  ℕ, zero, suc, ◌+◌, ◌-◌, ◌≤◌, ◌<◌, ◌≡◌, refl, ap, ◌∙◌, sym, Bool, true, false, ◌&&◌, ltb, ◌==◌,
  arith, dec_lt, Bool-cases, inl, inr,
}
use fast_llm.Spec.Suffix.{gram, gram_eq, extend}

module _ (toks : ℕ → ℕ) (n e : ℕ) where
  -- The last `len` tokens up to `e` are the last `len` tokens of the stream.
  abbrev pub Agrees : ℕ → Type 0
  Agrees len = (i : ℕ) → i < len → toks (e - i) ≡ toks (n - 1 - i)

  abbrev longer : ℕ → Bool
  longer len = ltb len (e + 1) && (ltb len (n - 1) && toks (e - len) == toks (n - 1 - len))

  extend-stop : (fuel len : ℕ) → longer len ≡ false → extend toks n e fuel len ≡ len
  unfolding extend
  extend-stop zero len h = refl
  extend-stop (suc fuel) len h = rw h refl

  extend-go :
      (fuel len : ℕ)
      → longer len ≡ true
      → extend toks n e (suc fuel) len ≡ extend toks n e fuel (len + 1)
  unfolding extend
  extend-go fuel len h = rw h refl

  -- More fuel changes nothing once there is enough.
  extend-fuel :
      (fuel len : ℕ)
      → e + 1 ≤ fuel + len
      → extend toks n e (suc fuel) len ≡ extend toks n e fuel len
  extend-fuel zero len h = extend-stop 1 len (ground arith) ∙ sym (extend-stop 0 len (ground arith))
  extend-fuel (suc fuel) len h = elim (Bool-cases (longer len)) [
    | inl q ↦
        extend-go (suc fuel) len q
        ∙ extend-fuel fuel (len + 1) (omega arith)
        ∙ sym (extend-go fuel len q)
    | inr q ↦ extend-stop (suc (suc fuel)) len q ∙ sym (extend-stop (suc fuel) len q)
  ]

  -- The loop keeps a match, and stops where it cannot be longer.
  pub extend-Agrees :
      (fuel len : ℕ)
      → Agrees len
      → len ≤ e + 1
      → let l = extend toks n e fuel len in Agrees l × (len ≤ l) × (l ≤ e + 1)
  unfolding extend
  extend-Agrees zero len a le = (a, omega arith, le)
  extend-Agrees (suc fuel) len a le = elim (Bool-cases (longer len)) [
    | inl q ↦
        let (a', ge, le') =
          extend-Agrees fuel (len + 1)
            (λ i lt. elim (dec_lt i len) [
              | yes p ↦ a i p
              | no p ↦ let last : len ≡ i = omega arith in rw⁻¹ last (ground arith)
            ])
            (ground arith) in
        rw q (a', omega (arith, ge), le')
    | inr q ↦ rw q (a, omega arith, le)
  ]

  pub extend-ge : (fuel len : ℕ) → len ≤ extend toks n e fuel len
  unfolding extend
  extend-ge zero len = omega arith
  extend-ge (suc fuel) len = elim (Bool-cases (longer len)) [
    | inl q ↦ omega (arith, extend-go fuel len q, extend-ge fuel (len + 1))
    | inr q ↦ omega (arith, extend-stop (suc fuel) len q)
  ]

  pub extend-max : (fuel len : ℕ) → e + 1 ≤ fuel + len → longer (extend toks n e fuel len) ≡ false
  extend-max zero len h = rw (extend-stop 0 len (ground arith)) (ground arith)
  extend-max (suc fuel) len h = elim (Bool-cases (longer len)) [
    | inl q ↦ rw (extend-go fuel len q) (extend-max fuel (len + 1) (omega arith))
    | inr q ↦ rw (extend-stop (suc fuel) len q) q
  ]

  -- The test of a gram, token by token from its end.
  gram_eq-last :
      2 ≤ e
      → e < n - 1
      → gram_eq toks (e + 1 - gram) (n - gram) ≡ (
          toks (e - 2) == toks (n - 1 - 2)
          && (toks (e - 1) == toks (n - 1 - 1) && toks (e - 0) == toks (n - 1 - 0)))
  unfolding gram_eq
  gram_eq-last two lt = rw a0 (rw a1 (rw a2 (rw b0 (rw b1 (rw b2 refl)))))
    where
      a0 : e + 1 - gram ≡ e - 2
      a0 = omega arith

      a1 : e - 2 + 1 ≡ e - 1
      a1 = omega arith

      a2 : e - 2 + 2 ≡ e - 0
      a2 = omega arith

      b0 : n - gram ≡ n - 1 - 2
      b0 = omega arith

      b1 : n - 1 - 2 + 1 ≡ n - 1 - 1
      b1 = omega arith

      b2 : n - 1 - 2 + 2 ≡ n - 1 - 0
      b2 = omega arith

  -- Beyond the gram, the match is as long as a match that is counted from its start.
  pub extend-from_gram :
      2 ≤ e
      → e < n - 1
      → gram_eq toks (e + 1 - gram) (n - gram) ≡ true
      → extend toks n e (e + 1) gram ≡ extend toks n e (e + 1) 0
  unfolding gram_eq
  extend-from_gram two lt h =
      ap (λ f. extend toks n e f 3) three
      ∙ extend-fuel (suc (suc (e - 2))) 3 (omega arith)
      ∙ extend-fuel (suc (e - 2)) 3 (omega arith)
      ∙ extend-fuel (e - 2) 3 (omega arith)
      ∙ sym (
          ap (λ f. extend toks n e f 0) three
          ∙ extend-go (suc (suc (e - 2))) 0 (at 0 (omega arith))
          ∙ extend-go (suc (e - 2)) 1 (at 1 (omega arith))
          ∙ extend-go (e - 2) 2 (at 2 (omega arith)))
    where
      three : e + 1 ≡ suc (suc (suc (e - 2)))
      three = omega arith

      tests :
          (toks (e - 2) == toks (n - 1 - 2)
            && (toks (e - 1) == toks (n - 1 - 1) && toks (e - 0) == toks (n - 1 - 0)))
          ≡ true
      tests = sym (gram_eq-last two lt) ∙ h

      at : (i : ℕ) → i ≤ 2 → longer i ≡ true
      at zero le = ground (arith, tests)
      at (suc zero) le = ground (arith, tests)
      at (suc (suc zero)) le = ground (arith, tests)
      at (suc (suc (suc i))) le = absurd (omega arith)

  pub extend-short :
      e < n - 1
      → (2 ≤ e → gram_eq toks (e + 1 - gram) (n - gram) ≡ false)
      → extend toks n e (e + 1) 0 < gram
  unfolding gram_eq
  extend-short lt h = elim (dec_lt (extend toks n e (e + 1) 0) gram) [
    | yes p ↦ p
    | no p ↦ absurd (long (extend-Agrees (e + 1) 0 (λ i q. absurd (omega arith)) (omega arith)) p)
  ]
    where
      long : {l : ℕ} → Agrees l × (0 ≤ l) × (l ≤ e + 1) → ¬ ¬ l < gram
      long {l} (a, _, le) p =
          let two : 2 ≤ e = omega arith in
          ground (
            arith,
            gram_eq-last two lt,
            h two,
            a 0 (omega arith),
            a 1 (omega arith),
            a 2 (omega arith),
          )

  -- The gram itself is a match.
  pub gram-Agrees : 2 ≤ e → e < n - 1 → gram_eq toks (e + 1 - gram) (n - gram) ≡ true → Agrees gram
  gram-Agrees two lt h zero le = ground (arith, gram_eq-last two lt, h)
  gram-Agrees two lt h (suc zero) le = ground (arith, gram_eq-last two lt, h)
  gram-Agrees two lt h (suc (suc zero)) le = ground (arith, gram_eq-last two lt, h)
  gram-Agrees two lt h (suc (suc (suc i))) le = absurd (omega arith)
