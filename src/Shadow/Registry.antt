-- ===== src/Shadow/Registry.antt =====
-- Lookups in the registry of src/runtime/shadow.cpp, and the row addresses of src/runtime/shadow.h.
use native.Mathlib.Nat.{add-mul-div_right, div-eq_of_lt}
use fast_llm.Prelude.{
  ℕ, zero, suc, ◌+◌, ◌-◌, ◌*◌, ◌/◌, ◌≤◌, ◌<◌, ◌≡◌, ◌↔◌, ◌⊎◌, refl, ap, ◌∙◌, subst, true, false,
  ◌&&◌, ltb, leb, Option, none, some, List, [], ◌∷◌, get_elem?, arith, Bool-cases, inl, inr,
  some-injective,
}
use fast_llm.Shadow.{Span, check, find, find_from, row_index, shadow_row}

abbrev pub AllAbove : ℕ → List Span → Type 0
AllAbove e [] = Unit
AllAbove e (s ∷ spans) = (e ≤ s.base) × AllAbove e spans

-- In the order of their bases, and without overlap: what sorting gives of tensors that lie apart.
abbrev pub IsApart : List Span → Type 0
IsApart [] = Unit
IsApart (s ∷ spans) = (s.base ≤ s.end) × AllAbove s.end spans × IsApart spans

abbrev pub Contains : Span → ℕ → Type 0
Contains s p = (s.base ≤ p) × (p < s.end)

none-ne : {s : Span} → ¬ (◌≡◌ {A = Option Span} none (some s))
none-ne e = cc

check-yes : (s : Span) (p : ℕ) → Contains s p → check (some s) p ≡ some s
check-yes s p (le, lt) = let q : (leb s.base p && ltb p s.end) ≡ true = ground arith in rw q refl

check-Contains : (s0 s : Span) (p : ℕ) → check (some s0) p ≡ some s → (s0 ≡ s) × Contains s0 p
check-Contains s0 s p e = elim (Bool-cases (leb s0.base p && ltb p s0.end)) [
  | inl q ↦ (some-injective (rw q at e), (ground arith, ground arith))
  | inr q ↦ absurd (none-ne (rw q at e))
]

AllAbove-get_elem :
    (e : ℕ) (spans : List Span) (i : ℕ) (s : Span)
    → AllAbove e spans
    → get_elem? spans i ≡ some s
    → e ≤ s.base
AllAbove-get_elem e [] i s a h = absurd (none-ne h)
AllAbove-get_elem e (s0 ∷ spans) zero s a h = rw⁻¹ (some-injective h) a.0
AllAbove-get_elem e (s0 ∷ spans) (suc i) s a h = AllAbove-get_elem e spans i s a.1 h

find_from-above :
    (before : Option Span) (spans : List Span) (p e : ℕ)
    → AllAbove e spans
    → p < e
    → find_from before spans p ≡ check before p
unfolding find_from
find_from-above before [] p e a lt = refl
find_from-above before (s ∷ spans) p e a lt =
    let q : ltb p s.base ≡ true = ground arith in rw q refl

find_from_complete :
    (before : Option Span) (spans : List Span) (p i : ℕ) (s : Span)
    → IsApart spans
    → get_elem? spans i ≡ some s
    → Contains s p
    → find_from before spans p ≡ some s
unfolding find_from
find_from_complete before [] p i s apart h c = absurd (none-ne h)
find_from_complete before (s0 ∷ spans) p zero s apart h c =
    let same : s0 ≡ s = some-injective h in
    let q : ltb p s0.base ≡ false = ground (arith, ap (λ (x : Span). x.base) same) in
    let above : AllAbove s.end spans = subst (λ (x : Span). AllAbove x.end spans) same apart.1 in
    rw q (
      ap (λ (x : Span). find_from (some x) spans p) same
      ∙ find_from-above (some s) spans p s.end above c.1
      ∙ check-yes s p c)
find_from_complete before (s0 ∷ spans) p (suc i) s apart h c =
    let q : ltb p s0.base ≡ false = ground (arith, AllAbove-get_elem s0.end spans i s apart.1 h) in
    rw q (find_from_complete (some s0) spans p i s apart.2 h c)

find_from_sound :
    (before : Option Span) (spans : List Span) (p : ℕ) (s : Span)
    → find_from before spans p ≡ some s
    → (check before p ≡ some s) ⊎ ((i : ℕ) × (get_elem? spans i ≡ some s) × Contains s p)
unfolding find_from
find_from_sound before [] p s e = inl e
find_from_sound before (s0 ∷ spans) p s e = elim (Bool-cases (ltb p s0.base)) [
  | inl q ↦ inl (rw q at e)
  | inr q ↦ elim (find_from_sound (some s0) spans p s (rw q at e)) [
    | inl found ↦
        let (same, c) = check-Contains s0 s p found in
        inr (0, ap (λ (x : Span). some x) same, rw same at c)
    | inr (i, at, c) ↦ inr (suc i, at, c)
  ]
]

-- A lookup finds the span that holds the address, and finds none only where there is none: the spans
-- are in order and lie apart.
pub find_lem :
    (spans : List Span) (p : ℕ) (s : Span)
    → IsApart spans
    → (find spans p ≡ some s) ↔ ((i : ℕ) × (get_elem? spans i ≡ some s) × Contains s p)
unfolding find
find_lem spans p s apart = (sound, λ (i, at, c). find_from_complete none spans p i s apart at c)
  where
    sound : find_from none spans p ≡ some s → (i : ℕ) × (get_elem? spans i ≡ some s) × Contains s p
    sound e = elim (find_from_sound none spans p s e) [
      | inl other ↦ absurd (none-ne other)
      | inr found ↦ found
    ]

-- From any address inside the packed row `r` of a span, the lookup and the row computation lead to the
-- shadow row `r`: the spans are in order and lie apart, and the row lies inside its span.
pub shadow_row_lem :
    (spans : List Span) (i : ℕ) (s : Span) (r j : ℕ)
    → IsApart spans
    → get_elem? spans i ≡ some s
    → s.base + (r + 1) * s.packed_row_bytes ≤ s.end
    → j < s.packed_row_bytes
    → let p = s.base + r * s.packed_row_bytes + j in
      (find spans p ≡ some s) × (shadow_row s p ≡ s.shadow + r * s.shadow_row_bytes)
unfolding find shadow_row row_index
shadow_row_lem spans i s r j apart at inside lt = (
  find_from_complete none spans (s.base + r * s.packed_row_bytes + j) i s apart at
      (omega arith, omega (arith, next)),
  ap (λ n. s.shadow + n * s.shadow_row_bytes) row,
)
  where
    next : (r + 1) * s.packed_row_bytes ≡ r * s.packed_row_bytes + s.packed_row_bytes
    next = omega arith

    row : (s.base + r * s.packed_row_bytes + j - s.base) / s.packed_row_bytes ≡ r
    row =
        ap (λ n. n / s.packed_row_bytes) {y = j + r * s.packed_row_bytes} (omega arith)
        ∙ add-mul-div_right j r {z = s.packed_row_bytes} (omega arith)
        ∙ omega (arith, div-eq_of_lt lt)
