-- ===== src/Spec/Suffix/Reference.antt =====
-- The brute-force search that tests/test_spec.cpp holds the suffix index against, and the proof that
-- `draft` (src/spec/suffix_index.h) agrees with it.
use fast_llm.Prelude.{
  ℕ, zero, suc, ◌+◌, ◌-◌, ◌≤◌, ◌<◌, ◌≡◌, refl, true, false, ◌||◌, ltb, leb, ◌==◌, if◌then◌else◌,
  Option, none, some, List, [], arith, Bool-cases, inl, inr, ◌⊎◌,
}
use fast_llm.Spec.Suffix.{gram, gram_eq, extend, Best, visit, copy_from}
use fast_llm.Spec.Suffix.Match.{extend-from_gram, extend-short, extend-ge}

pub record RefBest : Type 0 where
  pub len : ℕ
  pub end : Option ℕ

unfoldable pub ref_visit : (ℕ → ℕ) → ℕ → ℕ → RefBest → RefBest
ref_visit toks n e b =
    let len = extend toks n e (e + 1) 0 in
    if ltb b.len len then record { len = len; end = some e } else b

-- The candidates below `k`, from the latest one on.
unfoldable pub ref_search : (ℕ → ℕ) → ℕ → ℕ → RefBest → RefBest
ref_search toks n zero b = b
ref_search toks n (suc k) b = ref_search toks n k (ref_visit toks n k b)

unfoldable pub ref_draft : (ℕ → ℕ) → ℕ → ℕ → ℕ → List ℕ
ref_draft toks n min_match n_max =
    if ltb n 3 || leb n_max 0
    then []
    else let b = ref_search toks n (n - 1) (record { len = 0; end = none }) in
      elim b.end [
        | none ↦ []
        | some e ↦ if ltb b.len min_match then [] else copy_from toks n (e + 1) n_max
      ]

-- The searches agree on matches that are at least as long as a gram; the index finds no others.
unfoldable pub Alike : RefBest → Best → Type 0
Alike r b =
    ((r.len < gram) × (b.best_end ≡ none) × (b.best_len ≡ 0))
    ⊎ ((gram ≤ r.len) × (b.best_end ≡ r.end) × (b.best_len ≡ r.len))

better-Alike :
    (l e : ℕ) (r : RefBest) (b : Best)
    → gram ≤ l
    → Alike r b
    → Alike (if ltb r.len l then record { len = l; end = some e } else r) (
        if ltb b.best_len l
        then record b { best_end = some e; best_len = l; cands = b.cands + 1 }
        else record b { cands = b.cands + 1 })
unfolding Alike
better-Alike l e r b ge (inl (short, ends, lens)) =
    let first : ltb r.len l ≡ true = ground arith in
    let second : ltb b.best_len l ≡ true = ground arith in
    rw first (rw second (inr (ge, refl, refl)))
better-Alike l e r b ge (inr (long, ends, lens)) = elim (Bool-cases (ltb r.len l)) [
  | inl q ↦
      let second : ltb b.best_len l ≡ true = ground arith in rw q (rw second (inr (ge, refl, refl)))
  | inr q ↦
      let second : ltb b.best_len l ≡ false = ground arith in
      rw q (rw second (inr (long, ends, lens)))
]

module _ (toks : ℕ → ℕ) (n e : ℕ) where
  pub visit-no :
      (b : Best)
      → (e ≡ n - 1) ⊎ (gram_eq toks (e + 1 - gram) (n - gram) ≡ false)
      → visit toks n e b ≡ b
  unfolding visit
  visit-no b (inl same) = let q : (e == n - 1) ≡ true = ground arith in rw q refl
  visit-no b (inr other) =
      rw other (elim (Bool-cases (e == n - 1)) [ inl q ↦ rw q refl | inr q ↦ rw q refl ])

  module _ (lt : e < n - 1) where
    pub visit-Alike :
        (r : RefBest) (b : Best)
        → 2 ≤ e
        → gram_eq toks (e + 1 - gram) (n - gram) ≡ true
        → Alike r b
        → Alike (ref_visit toks n e r) (visit toks n e b)
    unfolding ref_visit visit
    visit-Alike r b two q alike =
        let other : (e == n - 1) ≡ false = ground arith in
        rw other (
          rw q (
            rw (extend-from_gram toks n e two lt q) (
              better-Alike (extend toks n e (e + 1) 0) e r b
                (omega (arith, extend-from_gram toks n e two lt q, extend-ge toks n e (e + 1) gram))
                alike)))

    pub skip-Alike :
        (r : RefBest) (b : Best)
        → (2 ≤ e → gram_eq toks (e + 1 - gram) (n - gram) ≡ false)
        → Alike r b
        → Alike (ref_visit toks n e r) b
    unfolding Alike ref_visit
    skip-Alike r b h alike = go alike
      where
        short : extend toks n e (e + 1) 0 < gram
        short = extend-short toks n e lt h

        go :
            Alike r b
            → Alike
                (if ltb r.len (extend toks n e (e + 1) 0)
                  then record { len = extend toks n e (e + 1) 0; end = some e }
                  else r)
                b
        go (inl (small, ends, lens)) = inl (ground (arith, short), ends, lens)
        go (inr (long, ends, lens)) =
            let no : ltb r.len (extend toks n e (e + 1) 0) ≡ false = ground (arith, short) in
            rw no (inr (long, ends, lens))
