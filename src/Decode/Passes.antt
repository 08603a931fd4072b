-- ===== src/Decode/Passes.antt =====
-- tools/decode_main.cpp, run_once(): what one pass of the speculative loop does with a decoder that keeps to its
-- promises and with the gate off.
use fast_llm.Prelude.{
  ℕ, zero, suc, ◌+◌, ◌-◌, ◌≤◌, ◌<◌, ◌≡◌, ◌∙◌, refl, sym, ap, ap₂, min, Bool, false, Bool-cases, inl,
  inr, if_of_false, arith, ◌==◌, Option, none, List, [], ◌∷◌, ◌++◌, length, length-append, get_or,
  take,
}
use fast_llm.Spec.Suffix
use fast_llm.Spec.Suffix.{draft}
use fast_llm.Spec.Suffix.Sound.{length-draft}
use fast_llm.Decode.{Decoder, Policy, Loop, accepted, first_low, trusted, settle, pass, drafted}
use fast_llm.Decode.Greedy.{
  predictions, greedy, outs_after, Continues, accepted-greedy, accepted-le, IsGreedy, append_assoc,
}
use fast_llm.Decode.Feeding.{length-take}

first_low-none :
    (low : ℕ → Bool) → ((p : ℕ) → low p ≡ false) → (rounds p : ℕ) → first_low low rounds p ≡ none
unfolding first_low
first_low-none low exact zero p = refl
first_low-none low exact (suc rounds) p =
    if_of_false _ _ (exact p) ∙ first_low-none low exact rounds (p + 1)

take-prefix : (c d : List ℕ) (t a : ℕ) → take (length c + a + 1) (c ++ t ∷ d) ≡ c ++ t ∷ take a d
take-prefix [] d t a = let one_more : 0 + a + 1 ≡ suc a = omega arith in rw one_more refl
take-prefix (x ∷ c) d t a =
    let one_more : suc (length c) + a + 1 ≡ suc (length c + a + 1) = omega arith in
    rw one_more (ap (λ l. x ∷ l) (take-prefix c d t a))

module _ (predict : List ℕ → ℕ) (n_gen : ℕ) where
  -- What is left to generate once `t` is out
  abbrev pub room : List ℕ → ℕ → ℕ
  room out t = n_gen - length (out ++ t ∷ [])

  -- A pass generates what the greedy generation does: the rest is greedy where the pass leaves off.
  generated_on :
      (out c d : List ℕ) (t a : ℕ)
      → length out + 1 < n_gen
      → a ≤ length d
      → Continues predict (room out t) (c ++ t ∷ []) d a
      → (out ++ t ∷ take (min a (room out t)) d)
          ++ greedy predict
              (n_gen - length (out ++ t ∷ take (min a (room out t)) d))
              (c ++ t ∷ take a d)
              (get_or (outs_after predict (c ++ t ∷ []) d) a 0)
        ≡ out ++ greedy predict (n_gen - length out) c t
  unfolding greedy
  generated_on out c d t a h le cont =
      let m = min a (room out t) in
      let len = length-append out (t ∷ []) in
      let now : n_gen - length out ≡ suc (room out t) = omega (arith, len, h) in
      let later : n_gen - length (out ++ t ∷ take m d) ≡ room out t - a =
        omega
          (arith, len, h, length-append out (t ∷ take m d), length-take m d (omega (arith, le))) in
      rw (now, later, sym (append_assoc c (t ∷ []) (take a d)))
        (append_assoc out (t ∷ take m d) _ ∙ ap (λ l. out ++ t ∷ l) (sym cont))

module _ (D : Decoder) (P : Policy) (spec_max n_gen : ℕ) (I : IsGreedy D) where
  open I use {fed, predict, max_kv, n_past-fed, step_batch-fed, step_batch-outs, rewind_to-fed}

  length-drafted : (st : Loop D P) → length (drafted D P spec_max st) ≤ spec_max
  unfolding drafted
  length-drafted st =
      let want = min (P.choose st.ctrl).0 spec_max in
      elim (Bool-cases (want == 0)) [
        | inl e ↦ rw e (omega arith)
        | inr e ↦ rw e (omega (arith, length-draft (Suffix.push st.idx st.next_tok) want))
      ]

  -- As long as a token is wanted, the cache has room for what is left to generate, and a draft more.
  abbrev pub HasRoom : Loop D P → Type 0
  HasRoom st =
      length st.out < n_gen → length (fed st.s) + (n_gen - length st.out) + spec_max ≤ max_kv

  module _ (st : Loop D P) (small : spec_max + 1 ≤ D.max_batch) (more : length st.out + 1 < n_gen)
      (has_room : HasRoom st) where
    abbrev toks : List ℕ
    toks = st.next_tok ∷ drafted D P spec_max st

    in_batch : length toks ≤ D.max_batch
    in_batch = omega (arith, small, length-drafted st)

    in_cache : length (fed st.s) + length toks ≤ max_kv
    in_cache = omega (arith, more, has_room (omega (arith, more)), length-drafted st)

    fed_all : fed (D.step_batch st.s toks).0 ≡ fed st.s ++ toks
    fed_all = step_batch-fed st.s toks (omega arith) in_batch in_cache

    abbrev outs : List ℕ
    outs = (D.step_batch st.s toks).1

    abbrev settled : Option ℕ → Loop D P
    settled gate =
        let (a, trunc) = trusted (accepted outs (drafted D P spec_max st)) gate in
        settle D P n_gen
          (record {
            s = (D.step_batch st.s toks).0;
            idx = Suffix.push st.idx st.next_tok;
            ctrl = (P.choose st.ctrl).1;
            next_tok = st.next_tok;
            out = st.out ++ st.next_tok ∷ [];
          })
          (D.n_past st.s) (drafted D P spec_max st) outs a trunc

    pass_exact : pass D P spec_max n_gen st ≡ settled none
    unfolding pass drafted
    pass_exact = ap settled (first_low-none (D.low_margin _) (I.all_exact _) _ 1)

    agreed : ℕ
    agreed = accepted outs (drafted D P spec_max st)

    agreed_le : agreed ≤ length (drafted D P spec_max st)
    unfolding agreed
    agreed_le = accepted-le outs (drafted D P spec_max st)

    emitted : List ℕ
    emitted = take (min agreed (room predict n_gen st.out st.next_tok)) (drafted D P spec_max st)

    -- After agreed pass the state stands for what was in the cache, the token before and the accepted ones.
    pass-fed :
        fed (pass D P spec_max n_gen st).s
        ≡ fed st.s ++ st.next_tok ∷ take agreed (drafted D P spec_max st)
    unfolding settle trusted agreed
    pass-fed =
        let n = D.n_past st.s + agreed + 1 in
        let base : D.n_past st.s ≡ length (fed st.s) = n_past-fed st.s in
        let fits : n ≤ length (fed (D.step_batch st.s toks).0) =
          omega (arith, ap length fed_all, length-append (fed st.s) toks, base, agreed_le) in
        ap (λ l. fed l.s) pass_exact
        ∙ rewind_to-fed _ n fits
        ∙ ap₂ (λ b l. take (b + agreed + 1) l) base fed_all
        ∙ take-prefix (fed st.s) (drafted D P spec_max st) st.next_tok agreed

    pass-next : (pass D P spec_max n_gen st).next_tok ≡ get_or outs agreed 0
    unfolding settle trusted agreed
    pass-next = ap (λ l. l.next_tok) pass_exact

    pass-out : (pass D P spec_max n_gen st).out ≡ st.out ++ st.next_tok ∷ emitted
    unfolding settle trusted agreed emitted
    pass-out = ap (λ l. l.out) pass_exact ∙ append_assoc st.out (st.next_tok ∷ []) _

    outs-predictions :
        outs ≡ outs_after predict (fed st.s ++ st.next_tok ∷ []) (drafted D P spec_max st)
    unfolding predictions
    outs-predictions = step_batch-outs st.s toks (omega arith) in_batch in_cache

    pub pass-greedy :
        (pass D P spec_max n_gen st).out
          ++ greedy predict
              (n_gen - length (pass D P spec_max n_gen st).out)
              (fed (pass D P spec_max n_gen st).s)
              (pass D P spec_max n_gen st).next_tok
        ≡ st.out ++ greedy predict (n_gen - length st.out) (fed st.s) st.next_tok
    unfolding agreed emitted
    pass-greedy =
        let c = fed st.s ++ st.next_tok ∷ [] in
        rw (pass-out, pass-fed, pass-next, outs-predictions)
          (generated_on predict n_gen st.out (fed st.s) (drafted D P spec_max st) st.next_tok _ more
            (accepted-le _ (drafted D P spec_max st))
            (accepted-greedy predict _ c (drafted D P spec_max st)))

    length-emitted : length emitted ≡ min agreed (room predict n_gen st.out st.next_tok)
    unfolding emitted
    length-emitted = length-take _ (drafted D P spec_max st) (omega (arith, agreed_le))

    length-pass :
        length (pass D P spec_max n_gen st).out
        ≡ length st.out + 1 + min agreed (room predict n_gen st.out st.next_tok)
    length-pass =
        omega
          (arith, ap length pass-out, length-append st.out (st.next_tok ∷ emitted), length-emitted)

    -- A pass makes progress.
    pub pass-longer : length st.out < length (pass D P spec_max n_gen st).out
    pass-longer = omega (arith, length-pass)

    pub pass-HasRoom : HasRoom (pass D P spec_max n_gen st)
    pass-HasRoom h = omega (
      arith,
      h,
      more,
      has_room (omega (arith, more)),
      length-pass,
      length-append st.out (st.next_tok ∷ []),
      ap length pass-fed,
      length-append (fed st.s) (st.next_tok ∷ take agreed (drafted D P spec_max st)),
      length-take agreed (drafted D P spec_max st) agreed_le,
    )
