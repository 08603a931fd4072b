-- ===== src/Spec/Suffix/Sound.antt =====
-- Every proposal of `draft` (src/spec/suffix_index.h) continues an earlier match, whatever the cap.
use fast_llm.Prelude.{
  ℕ, zero, suc, ◌+◌, ◌-◌, ◌≤◌, ◌<◌, ◌≡◌, refl, sym, not, ◌||◌, ltb, leb, ◌==◌, if◌then◌else◌,
  Option, none, some, List, [], length, arith, Bool-cases, Option-cases, inl, inr, ◌⊎◌,
}
use fast_llm.Spec.Suffix.{
  Index, create, gram, gram_hash, gram_eq, extend, Best, visit, walk, copy_from, no_diag, no_best,
  propose, draft, Diag,
}
use fast_llm.Spec.Suffix.Chain.{
  latest, latest-some, IsChained, create-IsChained, push_all, push_all-IsChained,
}
use fast_llm.Spec.Suffix.Match.{Agrees, gram-Agrees, extend-Agrees}

-- An earlier end `e` of the stream's last `len` tokens.
abbrev pub IsMatch : (ℕ → ℕ) → ℕ → ℕ → ℕ → Type 0
IsMatch toks n e len = (e < n - 1) × (gram ≤ len) × (len ≤ e + 1) × Agrees toks n e len

abbrev IsGood : (ℕ → ℕ) → ℕ → Best → Type 0
IsGood toks n b =
    (b.best_end ≡ none) ⊎ ((e : ℕ) × (b.best_end ≡ some e) × IsMatch toks n e b.best_len)

better-IsGood :
    (toks : ℕ → ℕ) (n e l : ℕ) (b : Best)
    → IsMatch toks n e l
    → IsGood toks n b
    → IsGood toks n (
        if ltb b.best_len l
        then record b { best_end = some e; best_len = l; cands = b.cands + 1 }
        else record b { cands = b.cands + 1 })
better-IsGood toks n e l b m good = elim (Bool-cases (ltb b.best_len l)) [
  | inl q ↦ rw q (inr (e, refl, m))
  | inr q ↦ rw q good
]

visit-IsGood :
    (toks : ℕ → ℕ) (n e : ℕ) (b : Best)
    → 2 ≤ e
    → e < n
    → IsGood toks n b
    → IsGood toks n (visit toks n e b)
unfolding visit
visit-IsGood toks n e b two lt good =
    elim (Bool-cases (e == n - 1 || not (gram_eq toks (e + 1 - gram) (n - gram)))) [
      | inl q ↦ rw q good
      | inr q ↦
          let before : e < n - 1 = ground arith in
          let (a, ge, le) =
            extend-Agrees toks n e (e + 1) gram (gram-Agrees toks n e two before (ground arith))
              (omega arith) in
          rw q (better-IsGood toks n e (extend toks n e (e + 1) gram) b (before, ge, le, a) good)
    ]

module _ (ix : Index) (v : IsChained ix) where
  abbrev n : ℕ
  n = ix.size

  walk-IsGood :
      (cap k h : ℕ) (o : Option ℕ) (b : Best)
      → k ≤ n
      → o ≡ latest ix.toks k h
      → IsGood ix.toks n b
      → IsGood ix.toks n (walk ix cap o b)
  unfolding walk
  walk-IsGood zero k h o b le e good = good
  walk-IsGood (suc cap) k h none b le e good = good
  walk-IsGood (suc cap) k h (some p) b le e good =
      let (two, lt, same) = latest-some ix.toks k h p (sym e) in
      walk-IsGood cap p (gram_hash ix.toks (p - 2)) (ix.prev p)
        (record (visit ix.toks n p b) { walked = (visit ix.toks n p b).walked + 1 }) (omega arith)
        (v.prevs p two (omega arith)) (visit-IsGood ix.toks n p b two (omega arith) good)

-- What `copy_from` gives: the tokens from `p` on.
length-copy_from : (toks : ℕ → ℕ) (n p cnt : ℕ) → length (copy_from toks n p cnt) ≤ cnt
unfolding copy_from
length-copy_from toks n p zero = omega arith
length-copy_from toks n p (suc cnt) = elim (Bool-cases (ltb p n)) [
  | inl q ↦ rw q (omega (arith, length-copy_from toks n (p + 1) cnt))
  | inr q ↦ rw q (omega arith)
]

length-propose : (ix : Index) (n_max : ℕ) (b : Best) → length (propose ix n_max b).0 ≤ n_max
unfolding propose
length-propose ix n_max b = elim (Option-cases b.best_end) [
  | inl e ↦ rw e (omega arith)
  | inr (p, e) ↦ elim (Bool-cases (ltb b.best_len ix.min_match)) [
    | inl q ↦ rw e (rw q (omega arith))
    | inr q ↦ rw e (rw q (length-copy_from ix.toks ix.size (p + 1) n_max))
  ]
]

pub length-draft : (ix : Index) (n_max : ℕ) → length (draft ix n_max).0 ≤ n_max
unfolding draft
length-draft ix n_max = elim (Bool-cases (ltb ix.size gram || leb n_max 0)) [
  | inl q ↦ rw q (omega arith)
  | inr q ↦ elim (Option-cases (ix.head (gram_hash ix.toks (ix.size - gram)))) [
    | inl e ↦ rw (q, e) (omega arith)
    | inr (p, e) ↦ rw (q, e) (length-propose ix n_max _)
  ]
]

abbrev pub IsProposal : Index → ℕ → List ℕ → Type 0
IsProposal ix n_max out =
    (out ≡ [])
    ⊎ ((e : ℕ) × (len : ℕ) × IsMatch ix.toks ix.size e len
        × (ix.min_match ≤ len)
        × (out ≡ copy_from ix.toks ix.size (e + 1) n_max))

propose-IsProposal :
    (ix : Index) (n_max : ℕ) (b : Best)
    → IsGood ix.toks ix.size b
    → IsProposal ix n_max (propose ix n_max b).0
unfolding propose
propose-IsProposal ix n_max b (inl e) = inl (rw e refl)
propose-IsProposal ix n_max b (inr (e, ends, m)) = elim (Bool-cases (ltb b.best_len ix.min_match)) [
  | inl q ↦ inl (rw ends (rw q refl))
  | inr q ↦ inr (e, b.best_len, m, ground arith, rw ends (rw q refl))
]

draft-go :
    (ix : Index) (v : IsChained ix) (n_max : ℕ) (o : Option ℕ)
    → o ≡ latest ix.toks ix.size (gram_hash ix.toks (ix.size - gram))
    → let result : List ℕ × Diag = elim o [
      | none ↦ ([], no_diag)
      | some e ↦ propose ix n_max (walk ix ix.chain_cap (some e) no_best)
    ] in
      IsProposal ix n_max result.0
draft-go ix v n_max none e = inl refl
draft-go ix v n_max (some p) e =
    propose-IsProposal ix n_max (walk ix ix.chain_cap (some p) no_best) (
      walk-IsGood ix v ix.chain_cap ix.size (gram_hash ix.toks (ix.size - gram)) (some p) no_best
        (omega arith) e (inl refl))

-- Whatever the cap on the chains is, `draft` proposes nothing, or the tokens that follow an earlier
-- occurrence of the stream's last `len` tokens, where `len` is at least three and at least the least
-- match; it never proposes more than it is asked for.
pub draft-IsProposal :
    (chain_cap min_match : ℕ) (ts : List ℕ) (n_max : ℕ)
    → let ix = push_all (create chain_cap min_match) ts in
      let out = (draft ix n_max).0 in IsProposal ix n_max out × (length out ≤ n_max)
unfolding draft
draft-IsProposal chain_cap min_match ts n_max = (found, length-draft ix n_max)
  where
    ix : Index
    ix = push_all (create chain_cap min_match) ts

    v : IsChained ix
    v = push_all-IsChained (create chain_cap min_match) ts (create-IsChained chain_cap min_match)

    found : IsProposal ix n_max (draft ix n_max).0
    found = elim (Bool-cases (ltb ix.size gram || leb n_max 0)) [
      | inl q ↦ rw q (inl refl)
      | inr q ↦
          let h = gram_hash ix.toks (ix.size - gram) in
          rw q (draft-go ix v n_max (ix.head h) (v.heads h))
    ]
