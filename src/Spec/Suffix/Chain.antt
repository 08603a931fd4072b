-- ===== src/Spec/Suffix/Chain.antt =====
-- The hash chains of src/spec/suffix_index.h: `push` keeps them complete and in order.
use fast_llm.Prelude.{
  ℕ, zero, suc, ◌+◌, ◌-◌, ◌≤◌, ◌<◌, ◌≡◌, refl, ap, ◌∙◌, sym, true, false, ◌&&◌, ltb, leb, ◌==◌,
  if◌then◌else◌, Option, none, some, List, [], ◌∷◌, length, get_or, update, arith, dec_lt,
  Bool-cases, inl, inr, some-injective,
}
use fast_llm.Spec.Suffix.{Index, create, push, gram_hash, gram}

-- The latest position before `k` at which a gram with the hash `h` ends.
unfoldable pub latest : (ℕ → ℕ) → ℕ → ℕ → Option ℕ
latest toks zero h = none
latest toks (suc k) h =
    let rest = latest toks k h in if leb 2 k && gram_hash toks (k - 2) == h then some k else rest

pub gram_hash-cong :
    (toks toks' : ℕ → ℕ) (i : ℕ)
    → ((j : ℕ) → j < i + gram → toks j ≡ toks' j)
    → gram_hash toks i ≡ gram_hash toks' i
unfolding gram_hash
gram_hash-cong toks toks' i h =
    rw (h i (omega arith)) (rw (h (i + 1) (omega arith)) (rw (h (i + 2) (omega arith)) refl))

latest-cong :
    (toks toks' : ℕ → ℕ) (k h : ℕ)
    → ((j : ℕ) → j < k → toks j ≡ toks' j)
    → latest toks k h ≡ latest toks' k h
unfolding latest
latest-cong toks toks' zero h same = refl
latest-cong toks toks' (suc k) h same = elim (dec_lt k 2) [
  | yes p ↦
      let e : leb 2 k ≡ false = ground arith in
      rw e (latest-cong toks toks' k h (λ j q. same j (omega arith)))
  | no p ↦
      rw (gram_hash-cong toks toks' (k - 2) (λ j q. same j (omega arith)))
        (rw (latest-cong toks toks' k h (λ j q. same j (omega arith))) refl)
]

latest-short : (toks : ℕ → ℕ) (k h : ℕ) → k ≤ 2 → latest toks k h ≡ none
unfolding latest
latest-short toks zero h le = refl
latest-short toks (suc k) h le =
    let e : leb 2 k ≡ false = ground arith in rw e (latest-short toks k h (omega arith))

pub record IsChained (ix : Index) : Type 0 where
  pub heads : (h : ℕ) → ix.head h ≡ latest ix.toks ix.size h
  pub prevs :
      (e : ℕ) → 2 ≤ e → e < ix.size → ix.prev e ≡ latest ix.toks e (gram_hash ix.toks (e - 2))

pub create-IsChained : (chain_cap min_match : ℕ) → IsChained (create chain_cap min_match)
unfolding create latest
create-IsChained chain_cap min_match = record {
  heads = λ h. refl;
  prevs = λ e p q. absurd (omega arith);
}

module _ (ix : Index) (t : ℕ) (v : IsChained ix) where
  abbrev toks' : ℕ → ℕ
  toks' = update ix.toks ix.size t

  below : (j : ℕ) → j < ix.size → ix.toks j ≡ toks' j
  below j lt = ground arith

  old_prev : (e : ℕ) → 2 ≤ e → e < ix.size → ix.prev e ≡ latest toks' e (gram_hash toks' (e - 2))
  old_prev e two lt =
      v.prevs e two lt
      ∙ latest-cong ix.toks toks' e (gram_hash ix.toks (e - 2)) (λ j q. below j (omega arith))
      ∙ ap (latest toks' e) (gram_hash-cong ix.toks toks' (e - 2) (λ j q. below j (omega arith)))

  old_head : (h : ℕ) → ix.head h ≡ latest toks' ix.size h
  old_head h = v.heads h ∙ latest-cong ix.toks toks' ix.size h below

  push_short : ix.size < 2 → IsChained (push ix t)
  unfolding push
  push_short lt = rw short (record {
    heads = λ h.
        v.heads h
        ∙ latest-short ix.toks ix.size h (omega arith)
        ∙ sym (latest-short toks' (ix.size + 1) h (omega arith));
    prevs = λ e two q. absurd (omega arith);
  })
    where
      short : ltb (ix.size + 1) gram ≡ true
      short = ground arith

  latest-push :
      (h : ℕ)
      → ¬ ix.size < 2
      → latest toks' (ix.size + 1) h
        ≡ (if gram_hash toks' (ix.size - 2) == h then some ix.size else latest toks' ix.size h)
  unfolding latest
  latest-push h ge =
      let next : ix.size + 1 ≡ suc ix.size = omega arith in
      let long : leb 2 ix.size ≡ true = ground arith in
      ap (λ k. latest toks' k h) next ∙ rw long refl

  push_long : ¬ ix.size < 2 → IsChained (push ix t)
  unfolding push
  push_long ge = rw long (record {
    heads = λ h. rw gram_start (rw last (heads h ∙ sym (latest-push h ge)));
    prevs = λ e two lt. rw gram_start (rw last (prevs e two lt));
  })
    where
      gram_start : ix.size + 1 - gram ≡ ix.size - 2
      gram_start = omega arith

      last : ix.size + 1 - 1 ≡ ix.size
      last = omega arith

      heads :
          (h : ℕ)
          → update ix.head (gram_hash toks' (ix.size - 2)) (some ix.size) h
            ≡ (if gram_hash toks' (ix.size - 2) == h then some ix.size else latest toks' ix.size h)
      heads h = elim (Bool-cases (gram_hash toks' (ix.size - 2) == h)) [
        | inl q ↦ rw q refl
        | inr q ↦ rw q (old_head h)
      ]

      prevs :
          (e : ℕ)
          → 2 ≤ e
          → e < ix.size + 1
          → update (update ix.prev ix.size none) ix.size (ix.head (gram_hash toks' (ix.size - 2))) e
            ≡ latest toks' e (gram_hash toks' (e - 2))
      prevs e two lt = elim (Bool-cases (ix.size == e)) [
        | inl q ↦
            let same : ix.size ≡ e = ground arith in
            rw q (
              old_head (gram_hash toks' (ix.size - 2))
              ∙ ap (λ k. latest toks' k (gram_hash toks' (k - 2))) same)
        | inr q ↦ rw q (old_prev e two (ground arith))
      ]

      long : ltb (ix.size + 1) gram ≡ false
      long = ground arith

  -- Appending a token keeps the chains: the head of each hash is the latest gram with that hash, and
  -- each gram is followed by the latest one before it with the same hash.
  pub push-IsChained : IsChained (push ix t)
  push-IsChained = elim (dec_lt ix.size 2) [ yes p ↦ push_short p | no p ↦ push_long p ]

-- A stream of tokens, appended one by one.
unfoldable pub push_all : Index → List ℕ → Index
push_all ix [] = ix
push_all ix (t ∷ ts) = push_all (push ix t) ts

pub push_all-IsChained : (ix : Index) (ts : List ℕ) → IsChained ix → IsChained (push_all ix ts)
unfolding push_all
push_all-IsChained ix [] v = v
push_all-IsChained ix (t ∷ ts) v = push_all-IsChained (push ix t) ts (push-IsChained ix t v)

pub latest-some :
    (toks : ℕ → ℕ) (k h e : ℕ)
    → latest toks k h ≡ some e
    → (2 ≤ e) × (e < k) × (gram_hash toks (e - 2) ≡ h)
unfolding latest
latest-some toks zero h e eq = absurd (none-ne eq)
  where
    none-ne : ¬ (◌≡◌ {A = Option ℕ} none (some e))
    none-ne q = cc
latest-some toks (suc k) h e eq = elim (Bool-cases (leb 2 k && gram_hash toks (k - 2) == h)) [
  | inl q ↦
      let same : k ≡ e = some-injective (rw q at eq) in
      ground (arith, same, q, ap (λ i. gram_hash toks (i - 2)) same)
  | inr q ↦ let (two, lt, hash) = latest-some toks k h e (rw q at eq) in (two, omega arith, hash)
]

push-size :
    (ix : Index) (t : ℕ)
    → ((push ix t).size ≡ ix.size + 1)
      × ((push ix t).chain_cap ≡ ix.chain_cap)
      × ((push ix t).min_match ≡ ix.min_match)
unfolding push
push-size ix t = elim (Bool-cases (ltb (ix.size + 1) gram)) [
  | inl q ↦ rw q (refl, refl, refl)
  | inr q ↦ rw q (refl, refl, refl)
]

pub push_all-size :
    (ix : Index) (ts : List ℕ)
    → ((push_all ix ts).size ≡ ix.size + length ts)
      × ((push_all ix ts).chain_cap ≡ ix.chain_cap)
      × ((push_all ix ts).min_match ≡ ix.min_match)
unfolding push_all
push_all-size ix [] = omega arith
push_all-size ix (t ∷ ts) = omega (arith, push_all-size (push ix t) ts, push-size ix t)

push-toks : (ix : Index) (t j : ℕ) → (push ix t).toks j ≡ update ix.toks ix.size t j
unfolding push
push-toks ix t j = elim (Bool-cases (ltb (ix.size + 1) gram)) [
  | inl q ↦ rw q refl
  | inr q ↦ rw q refl
]

push_all-old :
    (ix : Index) (ts : List ℕ) (j : ℕ) → j < ix.size → (push_all ix ts).toks j ≡ ix.toks j
unfolding push_all
push_all-old ix [] j lt = refl
push_all-old ix (t ∷ ts) j lt =
    push_all-old (push ix t) ts j (omega (arith, push-size ix t)) ∙ ground (arith, push-toks ix t j)

pub push_all-toks :
    (ix : Index) (ts : List ℕ) (i : ℕ)
    → i < length ts
    → (push_all ix ts).toks (ix.size + i) ≡ get_or ts i 0
unfolding push_all
push_all-toks ix [] i lt = absurd (omega arith)
push_all-toks ix (t ∷ ts) zero lt =
    push_all-old (push ix t) ts (ix.size + 0) (omega (arith, push-size ix t))
    ∙ ground (arith, push-toks ix t (ix.size + 0))
push_all-toks ix (t ∷ ts) (suc i) lt =
    ap (push_all (push ix t) ts).toks (omega (arith, push-size ix t))
    ∙ push_all-toks (push ix t) ts i (omega arith)
