-- ===== src/Spec/Controller/Rounds.antt =====
-- src/spec/spec_controller.h: the controller over many rounds of `choose` and `observe`.
use fast_llm.Prelude.{
  ◌&&◌, if◌then◌else◌, ℕ, suc, ◌+◌, ◌≤◌, ◌<◌, ◌≡◌, ◌∙◌, inl, inr, refl, sym, ap, subst, true, false,
  Bool-cases, ◌==◌, leb, if_of_false, arith,
}
use fast_llm.Prelude.Int.{pos, negsuc}
use fast_llm.Floats.{Double}
use fast_llm.Spec.Controller.{Cfg, SpecController, init_controller, best, choose, observe, bucket}
use fast_llm.Spec.Controller.Choice.{choose-cold, choose-some, choose-probe, choose-none}

module _ (R : Double) (c : Cfg R) where
  -- `n` rounds lead from one state to another, and in each `Holds` of what was chosen and what drafted.
  pub data Rounds (Holds : ℕ → ℕ → Type 0) : ℕ → SpecController R → SpecController R → Type 0 where
    stay : (k : SpecController R) → Rounds Holds 0 k k
    round :
        (n : ℕ) (k k' : SpecController R) (n_drafted n_accepted : ℕ) (pass_ms : R.F)
        → Rounds Holds n k k'
        → Holds (choose R c k').0 n_drafted
        → Rounds Holds (suc n) k (observe R c (choose R c k').1 n_drafted n_accepted pass_ms)

  -- A choice of 0 counts, and only while no probe is due.
  choose-streak :
      (k : SpecController R)
      → 1 ≤ c.n_max
      → 1 ≤ c.probe_n
      → (choose R c k).0 ≡ 0
      → ((choose R c k).1.zero_streak ≡ k.zero_streak + 1) × (k.zero_streak + 1 < c.probe_iv)
  choose-streak k some_max some_probe idle =
      elim (Bool-cases (R.lt (k.lat_ms 0) (R.of_int (pos 0)))) [
        | inl cold ↦ absurd (omega (arith, some_max, ap (λ r. r.0) (choose-cold R c k cold), idle))
        | inr warm ↦ elim (Bool-cases (best R c k == 0)) [
          | inr e ↦
              let chosen : best R c k ≡ 0 = sym (ap (λ r. r.0) (choose-some R c k warm e)) ∙ idle in
              absurd (ground (arith, e, chosen))
          | inl e ↦ elim (Bool-cases (leb c.probe_iv (k.zero_streak + 1))) [
            | inl due ↦
                absurd
                  (omega (arith, some_probe, ap (λ r. r.0) (choose-probe R c k warm e due), idle))
            | inr due ↦
                (ap (λ r. r.1.zero_streak) (choose-none R c k warm e due), ground (arith, due))
          ]
        ]
      ]

  observe-streak :
      (k : SpecController R) (d a : ℕ) (t : R.F) → (observe R c k d a t).zero_streak ≡ k.zero_streak
  unfolding observe
  observe-streak k d a t = refl

  -- After choices of 0 alone, the streak has grown by as many.
  idle_streak :
      (n : ℕ) (k k' : SpecController R)
      → 1 ≤ c.n_max
      → 1 ≤ c.probe_n
      → 1 ≤ c.probe_iv
      → Rounds (λ chosen drafted. chosen ≡ 0) n k k'
      → (k'.zero_streak ≡ k.zero_streak + n) × (n < c.probe_iv)
  idle_streak _ _ _ some_max some_probe some_iv (stay k) = (omega arith, some_iv)
  idle_streak _ _ _ some_max some_probe some_iv (round n k k' d a t before idle) =
      let (grown, lt) = idle_streak n k k' some_max some_probe some_iv before in
      let (counted, early) = choose-streak k' some_max some_probe idle in
      let kept = observe-streak (choose R c k').1 d a t in
      (omega (arith, grown, counted, kept), omega (arith, grown, early))

  -- What is chosen by the streak, once the passes without a draft have been timed.
  choose-due :
      (k : SpecController R)
      → R.lt (k.lat_ms 0) (R.of_int (pos 0)) ≡ false
      → k.zero_streak < c.probe_iv
      → (choose R c k).0
        ≡ (if best R c k == 0 && k.zero_streak + 1 == c.probe_iv then c.probe_n else best R c k)
  choose-due k warm early = elim (Bool-cases (best R c k == 0)) [
    | inr e ↦ ap (λ r. r.0) (choose-some R c k warm e) ∙ sym (rw e refl)
    | inl e ↦ elim (Bool-cases (leb c.probe_iv (k.zero_streak + 1))) [
      | inl due ↦
          let now : (k.zero_streak + 1 == c.probe_iv) ≡ true = ground (arith, due, early) in
          ap (λ r. r.0) (choose-probe R c k warm e due) ∙ sym (rw (e, now) refl)
      | inr due ↦
          let later : (k.zero_streak + 1 == c.probe_iv) ≡ false = ground (arith, due) in
          ap (λ r. r.0) (choose-none R c k warm e due) ∙ sym (rw (e, later) refl)
    ]
  ]

  -- After `n` draftless choices in a row, from a streak of 0 on and whatever is observed, `n` is below
  -- `probe_iv`; and the next choice is the best length, unless that is 0 again and it would be the
  -- draftless choice number `probe_iv` in a row: then it is the probe. So `probe_iv - 1` draftless
  -- choices come before a probe. `n_max`, `probe_n` and `probe_iv` are at least 1, and a pass without
  -- a draft has been timed.
  pub probe_due :
      (n : ℕ) (k k' : SpecController R)
      → 1 ≤ c.n_max
      → 1 ≤ c.probe_n
      → 1 ≤ c.probe_iv
      → k.zero_streak ≡ 0
      → Rounds (λ chosen drafted. chosen ≡ 0) n k k'
      → R.lt (k'.lat_ms 0) (R.of_int (pos 0)) ≡ false
      → (n < c.probe_iv)
        × ((choose R c k').0
            ≡ (if best R c k' == 0 && n + 1 == c.probe_iv then c.probe_n else best R c k'))
  probe_due n k k' some_max some_probe some_iv fresh rounds warm =
      let (grown, early) = idle_streak n k k' some_max some_probe some_iv rounds in
      let streak : k'.zero_streak ≡ n = omega (arith, grown, fresh) in
      (
        early,
        choose-due k' warm (omega (arith, streak, early))
            ∙ ap
                (λ (t : ℕ).
                  if best R c k' == 0 && t + 1 == c.probe_iv then c.probe_n else best R c k')
                streak,
      )

  -- Nothing is known of the passes without a draft.
  abbrev IsCold : SpecController R → Type 0
  IsCold k = R.lt (k.lat_ms 0) (R.of_int (pos 0)) ≡ true

  observe-IsCold :
      (k : SpecController R) (d a : ℕ) (t : R.F) → 1 ≤ d → IsCold k → IsCold (observe R c k d a t)
  unfolding observe
  observe-IsCold k d a t h cold =
      let other : (bucket d == 0) ≡ false = ground (arith, h) in
      subst (λ x. R.lt x (R.of_int (pos 0)) ≡ true) (sym (if_of_false _ _ other)) cold

  drafting-IsCold :
      (n : ℕ) (k k' : SpecController R)
      → IsCold k
      → Rounds (λ chosen drafted. 1 ≤ drafted) n k k'
      → IsCold k'
  drafting-IsCold _ _ _ cold (stay k) = cold
  drafting-IsCold _ _ _ cold (round n k k' d a t before h) =
      let still = drafting-IsCold n k k' cold before in
      observe-IsCold (choose R c k').1 d a t h
        (subst (λ r. IsCold r.1) (sym (choose-cold R c k' still)) still)

  -- As long as every round of a fresh controller has drafted something, the cold start does not end: the
  -- controller asks for `n_max` tokens, whatever the passes take and however few of the tokens are
  -- accepted. The mark -1.0 of a length that is not timed is below 0.0.
  pub cold_start :
      (n : ℕ) (k : SpecController R)
      → R.lt (R.of_int (negsuc 0)) (R.of_int (pos 0)) ≡ true
      → Rounds (λ chosen drafted. 1 ≤ drafted) n (init_controller R c) k
      → (choose R c k).0 ≡ c.n_max
  unfolding init_controller
  cold_start n k minus_one rounds =
      ap (λ r. r.0) (choose-cold R c k (drafting-IsCold n (init_controller R c) k minus_one rounds))
