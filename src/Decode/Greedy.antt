-- ===== src/Decode/Greedy.antt =====
-- Greedy generation by a next-token function, and what a decoder owes to it.
use fast_llm.Prelude.{
  ℕ, zero, suc, ◌+◌, ◌-◌, ◌≤◌, ◌≡◌, refl, sym, ap, min, true, false, arith, ◌==◌, ==_iff,
  Bool-cases, inl, inr, if_of_true, if_of_false, subst, List, [], ◌∷◌, ◌++◌, length, get_or, take,
}
use fast_llm.Decode.{Decoder, accepted}

-- What is predicted after each of the tokens, fed one after the other behind the context.
unfoldable pub predictions : (List ℕ → ℕ) → List ℕ → List ℕ → List ℕ
predictions predict ctx [] = []
predictions predict ctx (x ∷ xs) = predict (ctx ++ x ∷ []) ∷ predictions predict (ctx ++ x ∷ []) xs

-- `n` tokens, the first of them `t`
unfoldable pub greedy : (List ℕ → ℕ) → ℕ → List ℕ → ℕ → List ℕ
greedy predict zero ctx t = []
greedy predict (suc n) ctx t = t ∷ greedy predict n (ctx ++ t ∷ []) (predict (ctx ++ t ∷ []))

-- What src/model/decoder.h promises, with a cache of `max_kv` positions: the state stands for the tokens
-- at the positions below `n_past`; a pass that fits in a batch and in the cache appends its tokens and
-- gives the greedy choice after each, and of any other pass nothing is known (the decoder
-- aborts); a rewind drops a tail. No position is approximated.
pub record IsGreedy (D : Decoder) : Type 0 where
  pub fed : D.State → List ℕ
  pub predict : List ℕ → ℕ
  pub max_kv : ℕ
  pub reset-fed : fed D.reset ≡ []
  pub n_past-fed : (s : D.State) → D.n_past s ≡ length (fed s)
  pub step_batch-fed :
      (s : D.State) (xs : List ℕ)
      → 1 ≤ length xs
      → length xs ≤ D.max_batch
      → length (fed s) + length xs ≤ max_kv
      → fed (D.step_batch s xs).0 ≡ fed s ++ xs
  pub step_batch-outs :
      (s : D.State) (xs : List ℕ)
      → 1 ≤ length xs
      → length xs ≤ D.max_batch
      → length (fed s) + length xs ≤ max_kv
      → (D.step_batch s xs).1 ≡ predictions predict (fed s) xs
  pub rewind_to-fed :
      (s : D.State) (n : ℕ) → n ≤ length (fed s) → fed (D.rewind_to s n) ≡ take n (fed s)
  pub batch_pos : 1 ≤ D.max_batch
  pub all_exact : (s : D.State) (p : ℕ) → D.low_margin s p ≡ false

pub append-nil {ℓ} : {A : Type ℓ} (xs : List A) → xs ++ [] ≡ xs
append-nil [] = refl
append-nil (x ∷ xs) = ap (λ t. x ∷ t) (append-nil xs)

pub append_assoc {ℓ} : {A : Type ℓ} (xs ys zs : List A) → (xs ++ ys) ++ zs ≡ xs ++ (ys ++ zs)
append_assoc [] ys zs = refl
append_assoc (x ∷ xs) ys zs = ap (λ t. x ∷ t) (append_assoc xs ys zs)

pub accepted-le : (outs d : List ℕ) → accepted outs d ≤ length d
unfolding accepted
accepted-le [] d = ground arith
accepted-le (o ∷ outs) [] = ground arith
accepted-le (o ∷ outs) (x ∷ d) = ground (arith, accepted-le outs d)

module _ (predict : List ℕ → ℕ) where
  abbrev pub outs_after : List ℕ → List ℕ → List ℕ
  outs_after c d = predict c ∷ predictions predict c d

  -- Of `n` tokens to generate behind `c`, the first `a` of the draft are right, and the token in
  -- place `a` of the outputs goes on.
  abbrev pub Continues : ℕ → List ℕ → List ℕ → ℕ → Type 0
  Continues n c d a =
      greedy predict n c (predict c)
      ≡ take (min a n) d ++ greedy predict (n - a) (c ++ take a d) (get_or (outs_after c d) a 0)

  Continues-none : (n : ℕ) (c d : List ℕ) → Continues n c d 0
  Continues-none n c d =
      let none_taken : min 0 n ≡ 0 = omega arith in
      let all_left : n - 0 ≡ n = omega arith in rw (none_taken, all_left, append-nil c) refl

  Continues-done : (c d : List ℕ) (a : ℕ) → Continues 0 c d a
  unfolding greedy
  Continues-done c d a =
      let none_taken : min a 0 ≡ 0 = omega arith in
      let none_left : 0 - a ≡ 0 = omega arith in rw (none_taken, none_left) refl

  Continues-next :
      (n : ℕ) (c : List ℕ) (x : ℕ) (d : List ℕ) (a : ℕ)
      → predict c ≡ x
      → Continues n (c ++ x ∷ []) d a
      → Continues (suc n) c (x ∷ d) (suc a)
  unfolding greedy predictions
  Continues-next n c x d a e h =
      let taken : min (suc a) (suc n) ≡ suc (min a n) = omega arith in
      let left : suc n - suc a ≡ n - a = omega arith in
      rw (taken, left, e, sym (append_assoc c (x ∷ []) (take a d))) (ap (λ l. x ∷ l) h)

  accepted_same :
      (c : List ℕ) (x : ℕ) (d : List ℕ)
      → (predict c == x) ≡ true
      → accepted (outs_after c (x ∷ d)) (x ∷ d) ≡ suc (accepted (outs_after (c ++ x ∷ []) d) d)
  unfolding accepted predictions
  accepted_same c x d e = if_of_true _ _ e

  accepted_other :
      (c : List ℕ) (x : ℕ) (d : List ℕ)
      → (predict c == x) ≡ false
      → accepted (outs_after c (x ∷ d)) (x ∷ d) ≡ 0
  unfolding accepted predictions
  accepted_other c x d e = if_of_false _ _ e

  accepted_nil : (c : List ℕ) → accepted (outs_after c []) [] ≡ 0
  unfolding accepted
  accepted_nil c = refl

  -- The accepted tokens are those of the greedy generation, and the correction goes on with it.
  pub accepted-greedy : (n : ℕ) (c d : List ℕ) → Continues n c d (accepted (outs_after c d) d)
  accepted-greedy n c [] = subst (Continues n c []) (sym (accepted_nil c)) (Continues-none n c [])
  accepted-greedy zero c (x ∷ d) = Continues-done c (x ∷ d) _
  accepted-greedy (suc n) c (x ∷ d) = elim (Bool-cases (predict c == x)) [
    | inl e ↦
        subst (Continues (suc n) c (x ∷ d)) (sym (accepted_same c x d e)) (
          Continues-next n c x d _ ((==_iff (predict c) x).0 e) (accepted-greedy n (c ++ x ∷ []) d))
    | inr e ↦
        subst (Continues (suc n) c (x ∷ d)) (sym (accepted_other c x d e))
          (Continues-none (suc n) c (x ∷ d))
  ]
