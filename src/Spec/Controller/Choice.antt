-- ===== src/Spec/Controller/Choice.antt =====
-- src/spec/spec_controller.h: what `choose` returns.
use fast_llm.Prelude.{
  ℕ, zero, suc, ◌+◌, ◌≤◌, ◌<◌, ◌≡◌, ◌∙◌, ◌⊎◌, inl, inr, refl, sym, subst, Bool, true, false,
  Bool-cases, ◌==◌, ==_iff, leb, leb→le, if_of_true, if_of_false, arith,
}
use fast_llm.Prelude.Int.{pos}
use fast_llm.Floats.{Double}
use fast_llm.Spec.Controller.{Cfg, SpecController, rate, best_from, best, choose}

-- How IEEE doubles compare, NaN included: `<` is irreflexive and transitive, as it is false of a NaN; and
-- where the double in the middle is a number and no NaN, what is not below goes on to what is not.
pub record IsOrdered (R : Double) : Type 1 where
  pub IsNumber : R.F → Type 0
  pub lt_irrefl : (x : R.F) → R.lt x x ≡ false
  pub lt_trans : (x y z : R.F) → R.lt x y ≡ true → R.lt y z ≡ true → R.lt x z ≡ true
  pub not_lt_trans :
      (x y z : R.F) → IsNumber y → R.lt x y ≡ false → R.lt y z ≡ false → R.lt x z ≡ false

true≢false : {A : Type 0} (b : Bool) → b ≡ true → b ≡ false → A
true≢false true e f = ground (arith, f)
true≢false false e f = ground (arith, e)

-- The four outcomes of `choose`
module _ (R : Double) (c : Cfg R) (k : SpecController R) where
  pub choose-cold : R.lt (k.lat_ms 0) (R.of_int (pos 0)) ≡ true → choose R c k ≡ (c.n_max, k)
  unfolding choose
  choose-cold e = if_of_true _ _ e

  module _ (warm : R.lt (k.lat_ms 0) (R.of_int (pos 0)) ≡ false) where
    pub choose-some :
        (best R c k == 0) ≡ false → choose R c k ≡ (best R c k, record (k) { zero_streak = 0 })
    unfolding choose
    choose-some e = if_of_false _ _ warm ∙ if_of_false _ _ e

    module _ (e : (best R c k == 0) ≡ true) where
      pub choose-probe :
          leb c.probe_iv (k.zero_streak + 1) ≡ true
          → choose R c k ≡ (c.probe_n, record (k) { zero_streak = 0 })
      unfolding choose
      choose-probe due = if_of_false _ _ warm ∙ if_of_true _ _ e ∙ if_of_true _ _ due

      pub choose-none :
          leb c.probe_iv (k.zero_streak + 1) ≡ false
          → choose R c k ≡ (best R c k, record (k) { zero_streak = k.zero_streak + 1 })
      unfolding choose
      choose-none due = if_of_false _ _ warm ∙ if_of_true _ _ e ∙ if_of_false _ _ due

module _ (R : Double) (o : IsOrdered R) where
  open o use {IsNumber, lt_irrefl, lt_trans, not_lt_trans}

  -- Among the lengths below `n`, `b` has the greatest rate, and is the first with it.
  pub record IsBest (r : ℕ → R.F) (n b : ℕ) : Type 0 where
    pub below : b < n
    pub greatest : (m : ℕ) → m < n → R.lt (r b) (r m) ≡ false
    pub first : (m : ℕ) → m < b → R.lt (r m) (r b) ≡ true

  IsBest-one : (r : ℕ → R.F) → IsBest r 1 0
  IsBest-one r = record {
    below = omega arith;
    greatest = λ m h. subst (λ j. R.lt (r 0) (r j) ≡ false) (omega (arith, h)) (lt_irrefl (r 0));
    first = λ m h. absurd (omega (arith, h));
  }

  module _ (r : ℕ → R.F) (n b : ℕ) (v : IsBest r n b) where
    IsBest-better :
        ((m : ℕ) → m < n → IsNumber (r m)) → R.lt (r b) (r n) ≡ true → IsBest r (n + 1) n
    IsBest-better number e = record {
      below = omega arith;
      greatest = λ m h. elim (Bool-cases (m == n)) [
        | inl q ↦ subst (λ j. R.lt (r n) (r j) ≡ false) (sym ((==_iff m n).0 q)) (lt_irrefl (r n))
        | inr q ↦ elim (Bool-cases (R.lt (r n) (r m))) [
          | inr f ↦ f
          | inl f ↦ true≢false _ (lt_trans _ _ _ e f) (v.greatest m (ground (arith, h, q)))
        ]
      ];
      first = λ m h. elim (Bool-cases (R.lt (r m) (r n))) [
        | inl f ↦ f
        | inr f ↦
            true≢false _ e
              (not_lt_trans _ _ _ (number m (omega (arith, h, v.below))) (v.greatest m h) f)
      ];
    }

    IsBest-same : R.lt (r b) (r n) ≡ false → IsBest r (n + 1) b
    IsBest-same e = record {
      below = omega (arith, v.below);
      greatest = λ m h. elim (Bool-cases (m == n)) [
        | inl q ↦ subst (λ j. R.lt (r b) (r j) ≡ false) (sym ((==_iff m n).0 q)) e
        | inr q ↦ v.greatest m (ground (arith, h, q))
      ];
      first = v.first;
    }

  best_from-IsBest :
      (r : ℕ → R.F) (rounds n b : ℕ)
      → ((m : ℕ) → m < n + rounds → IsNumber (r m))
      → IsBest r n b
      → IsBest r (n + rounds) (best_from R r rounds n b (r b))
  unfolding best_from
  best_from-IsBest r zero n b number v = subst (λ j. IsBest r j b) (omega arith) v
  best_from-IsBest r (suc rounds) n b number v = elim (Bool-cases (R.lt (r b) (r n))) [
    | inl e ↦ subst (IsBest r (n + suc rounds)) (sym (if_of_true _ _ e)) (
        subst (λ j. IsBest r j (best_from R r rounds (n + 1) n (r n))) (omega arith)
          (best_from-IsBest r rounds (n + 1) n (λ m h. number m (omega (arith, h)))
            (IsBest-better r n b v (λ m h. number m (omega (arith, h))) e)))
    | inr e ↦ subst (IsBest r (n + suc rounds)) (sym (if_of_false _ _ e)) (
        subst (λ j. IsBest r j (best_from R r rounds (n + 1) b (r b))) (omega arith)
          (best_from-IsBest r rounds (n + 1) b (λ m h. number m (omega (arith, h)))
            (IsBest-same r n b v e)))
  ]

  -- No length's rate is a NaN.
  abbrev pub AreNumbers : Cfg R → SpecController R → Type 0
  AreNumbers c k = (m : ℕ) → m < 1 + c.n_max → IsNumber (rate R c k m)

  best-IsBest :
      (c : Cfg R) (k : SpecController R)
      → AreNumbers c k
      → IsBest (rate R c k) (1 + c.n_max) (best R c k)
  unfolding best
  best-IsBest c k numbers =
      best_from-IsBest (rate R c k) c.n_max 1 0 numbers (IsBest-one (rate R c k))

  -- What may be chosen: the length with the greatest rate, the least one of these; or the length of
  -- a probe, and then drafting nothing is best and the probe is due.
  abbrev pub IsChoice : Cfg R → SpecController R → ℕ → Type 0
  IsChoice c k n =
      IsBest (rate R c k) (1 + c.n_max) n
      ⊎ ((n ≡ c.probe_n) × IsBest (rate R c k) (1 + c.n_max) 0 × (c.probe_iv ≤ k.zero_streak + 1))

  -- Once a pass without a draft has been timed, `choose` returns the length with the greatest rate, the
  -- least one of these; or it returns the length of a probe, and then drafting nothing is best
  -- and the probe is due. No length's rate is a NaN; doubles compare as IEEE ones do.
  pub choose-IsChoice :
      (c : Cfg R) (k : SpecController R)
      → R.lt (k.lat_ms 0) (R.of_int (pos 0)) ≡ false
      → AreNumbers c k
      → IsChoice c k (choose R c k).0
  choose-IsChoice c k warm numbers = elim (Bool-cases (best R c k == 0)) [
    | inr e ↦
        subst (λ r. IsChoice c k r.0) (sym (choose-some R c k warm e))
          (inl (best-IsBest c k numbers))
    | inl e ↦ elim (Bool-cases (leb c.probe_iv (k.zero_streak + 1))) [
      | inr due ↦
          subst (λ r. IsChoice c k r.0) (sym (choose-none R c k warm e due))
            (inl (best-IsBest c k numbers))
      | inl due ↦
          subst (λ r. IsChoice c k r.0) (sym (choose-probe R c k warm e due))
            (inr (
              refl,
              subst (IsBest (rate R c k) (1 + c.n_max)) ((==_iff (best R c k) 0).0 e)
                  (best-IsBest c k numbers),
              leb→le _ _ due,
            ))
    ]
  ]
