-- ===== src/Decode/Repeats.antt =====
-- tools/decode_main.cpp, run_once(): what is emitted when the margin gate cuts the accepted tokens short.
use fast_llm.Prelude.{
  ℕ, zero, suc, ◌+◌, ◌-◌, ◌≤◌, ◌<◌, ◌≡◌, ◌∙◌, refl, sym, ap, min, Bool, Bool-cases, inl, inr,
  if_of_true, if_of_false, arith, some-injective, Option, some, List, [], ◌∷◌, ◌++◌, length,
  length-append, get_or, take,
}
use fast_llm.Decode.Greedy.{append_assoc, accepted-le}
use fast_llm.Decode.{
  Decoder, Policy, Loop, accepted, first_low, trusted, settle, pass, drafted, answer,
}

-- The gate cuts at a position from `q` on, within the rounds.
first_low_found :
    (low : ℕ → Bool) (rounds q p : ℕ) → first_low low rounds q ≡ some p → (q ≤ p) × (p < q + rounds)
unfolding first_low
first_low_found low zero q p e = ground (arith, e)
first_low_found low (suc rounds) q p e = elim (Bool-cases (low q)) [
  | inl l ↦
      let same : q ≡ p = some-injective (sym (if_of_true _ _ l) ∙ e) in
      (omega (arith, same), omega (arith, same))
  | inr l ↦
      let (ge, lt) = first_low_found low rounds (q + 1) p (sym (if_of_false _ _ l) ∙ e) in
      (omega (arith, ge), omega (arith, lt))
]

take_last :
    (n : ℕ) (xs : List ℕ) → n < length xs → take (suc n) xs ≡ take n xs ++ get_or xs n 0 ∷ []
take_last n [] h = absurd (omega (arith, h))
take_last zero (x ∷ xs) h = refl
take_last (suc n) (x ∷ xs) h = ap (λ l. x ∷ l) (take_last n xs (omega (arith, h)))

module _ (D : Decoder) (P : Policy) (spec_max n_gen : ℕ) where
  -- Where the gate cuts the accepted tokens of a pass, if it does
  abbrev pub gate : Loop D P → Option ℕ
  gate st =
      let (s, outs) = answer D P spec_max st in
      first_low (D.low_margin s) (accepted outs (drafted D P spec_max st) - 1) 1

  -- Cut or not, a pass emits `next_tok` first.
  emitted : Loop D P → List ℕ
  emitted st =
      let a = accepted (answer D P spec_max st).1 (drafted D P spec_max st) in
      take (min (trusted a (gate st)).0 (n_gen - length (st.out ++ st.next_tok ∷ [])))
        (drafted D P spec_max st)

  pass-out :
      (st : Loop D P)
      → (pass D P spec_max n_gen st).out ≡ (st.out ++ st.next_tok ∷ []) ++ emitted st
  unfolding pass settle emitted
  pass-out st = refl

  module _ (st : Loop D P) (p : ℕ) (cut : gate st ≡ some p)
      (room : length st.out + 1 + p ≤ n_gen) where
    abbrev d : List ℕ
    d = drafted D P spec_max st

    in_draft : (1 ≤ p) × (p ≤ length d)
    in_draft =
        let (ge, lt) = first_low_found _ _ 1 p cut in
        (ge, omega (arith, ge, lt, accepted-le (answer D P spec_max st).1 d))

    emitted_cut : emitted st ≡ take (p - 1) d ++ get_or d (p - 1) 0 ∷ []
    unfolding emitted trusted
    emitted_cut =
        let all : min p (n_gen - length (st.out ++ st.next_tok ∷ [])) ≡ suc (p - 1) =
          omega (arith, room, length-append st.out (st.next_tok ∷ []), in_draft.0) in
        rw (cut, all) (take_last (p - 1) d (omega (arith, in_draft)))

    next_tok_cut : (pass D P spec_max n_gen st).next_tok ≡ get_or d (p - 1) 0
    unfolding pass settle trusted
    next_tok_cut = rw cut refl

  -- If the margin gate cuts the accepted tokens of a pass, and these tokens are still wanted, then the pass
  -- ends with the last token that it emitted as the next one, and the pass after it, whatever it
  -- drafts, emits that token a second time, right behind the first.
  pub pass-repeats :
      (st : Loop D P) (p : ℕ)
      → gate st ≡ some p
      → length st.out + 1 + p ≤ n_gen
      → let once = pass D P spec_max n_gen st in
        let twice = pass D P spec_max n_gen once in
        (before : List ℕ) × (rest : List ℕ) × (once.out ≡ before ++ once.next_tok ∷ [])
        × (twice.out ≡ before ++ once.next_tok ∷ once.next_tok ∷ rest)
  pass-repeats st p cut room =
      let once = pass D P spec_max n_gen st in
      let before = (st.out ++ st.next_tok ∷ []) ++ take (p - 1) (drafted D P spec_max st) in
      let ends : once.out ≡ before ++ once.next_tok ∷ [] =
        pass-out st
        ∙ ap (λ l. (st.out ++ st.next_tok ∷ []) ++ l) (emitted_cut st p cut room)
        ∙ sym (append_assoc (st.out ++ st.next_tok ∷ []) (take (p - 1) (drafted D P spec_max st)) _)
        ∙ ap (λ n. before ++ n ∷ []) (sym (next_tok_cut st p cut room)) in
      (
        before,
        emitted once,
        ends,
        pass-out once
            ∙ ap (λ l. (l ++ once.next_tok ∷ []) ++ emitted once) ends
            ∙ ap (λ l. l ++ emitted once)
                (append_assoc before (once.next_tok ∷ []) (once.next_tok ∷ []))
            ∙ append_assoc before (once.next_tok ∷ once.next_tok ∷ []) (emitted once),
      )
