-- ===== src/Spec/Suffix/Draft.antt =====
-- What `draft` of src/spec/suffix_index.h proposes.
use fast_llm.Prelude.{
  ℕ, zero, suc, ◌+◌, ◌-◌, ◌≤◌, ◌<◌, ◌≡◌, ◌≢◌, refl, ap, ◌∙◌, true, false, ◌&&◌, ◌||◌, ltb, leb,
  ◌==◌, if◌then◌else◌, Option, none, some, List, [], length, get_or, arith, Bool-cases, inl, inr,
}
use fast_llm.Spec.Suffix.{
  Index, create, gram, gram_hash, gram_eq, Best, visit, walk, copy_from, no_best, propose, draft,
}
use fast_llm.Spec.Suffix.Chain.{
  latest, IsChained, create-IsChained, push_all, push_all-IsChained, push_all-size, push_all-toks,
}
use fast_llm.Spec.Suffix.Reference.{
  RefBest, ref_visit, ref_search, ref_draft, Alike, visit-no, visit-Alike, skip-Alike,
}

module _ (ix : Index) (v : IsChained ix) where
  abbrev n : ℕ
  n = ix.size

  abbrev tail_hash : ℕ
  tail_hash = gram_hash ix.toks (n - gram)

  -- Equal grams have equal hashes.
  gram_eq-hash : (a b : ℕ) → gram_hash ix.toks a ≢ gram_hash ix.toks b → gram_eq ix.toks a b ≡ false
  unfolding gram_eq gram_hash
  gram_eq-hash a b ne = elim (Bool-cases (gram_eq ix.toks a b)) [
    | inr q ↦ q
    | inl q ↦ absurd (ne (same (ground (arith, q)) (ground (arith, q)) (ground (arith, q))))
  ]
    where
      same :
          ix.toks a ≡ ix.toks b
          → ix.toks (a + 1) ≡ ix.toks (b + 1)
          → ix.toks (a + 2) ≡ ix.toks (b + 2)
          → gram_hash ix.toks a ≡ gram_hash ix.toks b
      same p q r = rw p (rw q (rw r refl))

  walk-none : (cap : ℕ) (b : Best) → walk ix cap none b ≡ b
  unfolding walk
  walk-none zero b = refl
  walk-none (suc cap) b = refl

  abbrev step_on : ℕ → Best → Best
  step_on e b = record (visit ix.toks n e b) { walked = (visit ix.toks n e b).walked + 1 }

  walk-some :
      (cap e : ℕ) (b : Best)
      → 0 < cap
      → walk ix cap (some e) b ≡ walk ix (cap - 1) (ix.prev e) (step_on e b)
  unfolding walk
  walk-some zero e b pos = absurd (omega arith)
  walk-some (suc cap) e b pos = let one : suc cap - 1 ≡ cap = omega arith in rw one refl

  -- The chain goes on with the candidates below `k`.
  prev-latest :
      (k : ℕ)
      → (2 ≤ k) × (gram_hash ix.toks (k - 2) ≡ tail_hash)
      → k < n
      → ix.prev k ≡ latest ix.toks k tail_hash
  prev-latest k (two, same) lt = v.prevs k two lt ∙ ap (latest ix.toks k) same

  step-Alike :
      (k : ℕ) (r : RefBest) (b : Best)
      → 2 ≤ k
      → k < n - 1
      → Alike r b
      → Alike (ref_visit ix.toks n k r) (step_on k b)
  unfolding Alike
  step-Alike k r b two lt alike = elim (Bool-cases (gram_eq ix.toks (k + 1 - gram) (n - gram))) [
    | inl q ↦ visit-Alike ix.toks n k lt r b two q alike
    | inr q ↦ rw (visit-no ix.toks n k b (inr q)) (skip-Alike ix.toks n k lt r b (λ _. q) alike)
  ]

  -- Both searches, over the candidates below `k`.
  walk-Alike :
      (k cap : ℕ) (r : RefBest) (b : Best)
      → k ≤ n - 1
      → k ≤ cap
      → Alike r b
      → Alike (ref_search ix.toks n k r) (walk ix cap (latest ix.toks k tail_hash) b)
  unfolding ref_search latest
  walk-Alike zero cap r b le enough alike = rw (walk-none cap b) alike
  walk-Alike (suc k) cap r b le enough alike =
      elim (Bool-cases (leb 2 k && gram_hash ix.toks (k - 2) == tail_hash)) [
        | inr q ↦ rw q (
            walk-Alike k cap (ref_visit ix.toks n k r) b (omega arith) (omega arith)
              (skip-Alike ix.toks n k (omega arith) r b (λ two. other q two) alike))
        | inl q ↦ rw q (
            rw (walk-some cap k b (omega arith)) (
              rw (prev-latest k (ground arith) (omega arith)) (
                walk-Alike k (cap - 1) (ref_visit ix.toks n k r) (step_on k b) (omega arith)
                  (omega arith) (step-Alike k r b (ground arith) (omega arith) alike))))
      ]
    where
      index : k + 1 - gram ≡ k - 2
      index = omega arith

      other :
          (leb 2 k && gram_hash ix.toks (k - 2) == tail_hash) ≡ false
          → 2 ≤ k
          → gram_eq ix.toks (k + 1 - gram) (n - gram) ≡ false
      other q two = rw index (gram_eq-hash (k - 2) (n - gram) (λ e. ground arith))

  -- The walk over the whole chain, which starts at the tail itself.
  search-Alike :
      3 ≤ n
      → n ≤ ix.chain_cap
      → Alike
          (ref_search ix.toks n (n - 1) (record { len = 0; end = none }))
          (walk ix ix.chain_cap (some (n - 1)) no_best)
  unfolding Alike
  search-Alike long enough = rw (walk-some ix.chain_cap (n - 1) no_best (omega arith)) (
      rw (visit-no ix.toks n (n - 1) no_best (inl refl)) (
        rw (prev-latest (n - 1) (omega arith, ap (gram_hash ix.toks) (omega arith)) (omega arith)) (
          walk-Alike (n - 1) (ix.chain_cap - 1) (record { len = 0; end = none })
            (record no_best { walked = 1 }) (omega arith) (omega arith) start)))
    where
      start : Alike (record { len = 0; end = none }) (record no_best { walked = 1 })
      start = inl (omega arith, refl, refl)

  -- The chain of the tail's hash starts at the tail.
  head-tail : 3 ≤ n → ix.head tail_hash ≡ some (n - 1)
  unfolding latest
  head-tail long = v.heads tail_hash ∙ ap (λ k. latest ix.toks k tail_hash) next ∙ rw found refl
    where
      next : n ≡ suc (n - 1)
      next = omega arith

      same : gram_hash ix.toks (n - 1 - 2) ≡ tail_hash
      same = ap (gram_hash ix.toks) (omega arith)

      found : (leb 2 (n - 1) && gram_hash ix.toks (n - 1 - 2) == tail_hash) ≡ true
      found = ground (arith, same)

  propose-Alike :
      (r : RefBest) (b : Best) (n_max : ℕ)
      → gram ≤ ix.min_match
      → Alike r b
      → (propose ix n_max b).0 ≡ (elim r.end [
        | none ↦ []
        | some e ↦ if ltb r.len ix.min_match then [] else copy_from ix.toks n (e + 1) n_max
      ])
  unfolding propose Alike
  propose-Alike r b n_max ge (inr (long, ends, lens)) = rw ends (go r.end)
    where
      go :
          (o : Option ℕ)
          → (elim o [
            | none ↦ []
            | some e ↦ if ltb b.best_len ix.min_match then [] else copy_from ix.toks n (e + 1) n_max
          ])
            ≡ (elim o [
              | none ↦ []
              | some e ↦ if ltb r.len ix.min_match then [] else copy_from ix.toks n (e + 1) n_max
            ])
      go none = refl
      go (some e) = rw lens refl
  propose-Alike r b n_max ge (inl (short, ends, lens)) = rw ends (go r.end)
    where
      rejected : ltb r.len ix.min_match ≡ true
      rejected = ground arith

      go :
          (o : Option ℕ)
          → ◌≡◌ {A = List ℕ} [] (elim o [
            | none ↦ []
            | some e ↦ if ltb r.len ix.min_match then [] else copy_from ix.toks n (e + 1) n_max
          ])
      go none = refl
      go (some e) = rw rejected refl

  pub draft-ref_draft :
      (n_max : ℕ)
      → n ≤ ix.chain_cap
      → gram ≤ ix.min_match
      → (draft ix n_max).0 ≡ ref_draft ix.toks n ix.min_match n_max
  unfolding draft ref_draft
  draft-ref_draft n_max enough ge = elim (Bool-cases (ltb n gram || leb n_max 0)) [
    | inl q ↦ rw q refl
    | inr q ↦ rw q (
        rw (head-tail (ground arith)) (
          propose-Alike (ref_search ix.toks n (n - 1) (record { len = 0; end = none }))
            (walk ix ix.chain_cap (some (n - 1)) no_best) n_max ge
            (search-Alike (ground arith) enough)))
  ]

-- The suffix index proposes what the brute-force search does, the continuation after the longest
-- earlier match of the stream's end (the latest of several): for any stream that is appended token by
-- token and is no longer than the cap on the chains, and with a least match of three tokens or more.
pub draft-push_all :
    (chain_cap min_match : ℕ) (ts : List ℕ) (n_max : ℕ)
    → length ts ≤ chain_cap
    → gram ≤ min_match
    → let ix = push_all (create chain_cap min_match) ts in
      (draft ix n_max).0 ≡ ref_draft ix.toks (length ts) min_match n_max
unfolding create
draft-push_all chain_cap min_match ts n_max enough ge =
    draft-ref_draft ix
      (push_all-IsChained (create chain_cap min_match) ts (create-IsChained chain_cap min_match))
      n_max (omega (arith, fields)) (omega (arith, fields))
    ∙ rw (fields.0) (rw (fields.2) refl)
  where
    ix : Index
    ix = push_all (create chain_cap min_match) ts

    fields : (ix.size ≡ length ts) × (ix.chain_cap ≡ chain_cap) × (ix.min_match ≡ min_match)
    fields = omega (arith, push_all-size (create chain_cap min_match) ts)

-- Appending keeps the stream: after `ts` has been appended to an empty index, there are as many tokens
-- as in `ts`, and they are the tokens of `ts`.
pub push_all-stream :
    (chain_cap min_match : ℕ) (ts : List ℕ)
    → let ix = push_all (create chain_cap min_match) ts in
      (ix.size ≡ length ts) × ((i : ℕ) → i < length ts → ix.toks i ≡ get_or ts i 0)
unfolding create
push_all-stream chain_cap min_match ts = (
  omega (arith, push_all-size (create chain_cap min_match) ts),
  λ i lt.
      ap (push_all (create chain_cap min_match) ts).toks (omega arith)
      ∙ push_all-toks (create chain_cap min_match) ts i lt,
)
