-- ===== src/Decode/Lossless.antt =====
-- tools/decode_main.cpp, run_once(): the speculative loop generates what the plain loop does.
use fast_llm.Prelude.{
  ℕ, zero, suc, ◌+◌, ◌-◌, ◌≤◌, ◌<◌, ◌≡◌, ◌∙◌, refl, sym, ap, ap₂, ltb, leb, false, Bool-cases,
  ltb→lt, leb→le, inl, inr, if_of_true, if_of_false, arith, List, [], ◌∷◌, ◌++◌, length,
  length-append,
}
use fast_llm.Decode.{
  Decoder, Policy, Loop, feed_batches, pass, plain_loop, spec_loop, run_plain, run_spec,
}
use fast_llm.Decode.Greedy.{greedy, IsGreedy, append-nil, append_assoc}
use fast_llm.Decode.Feeding.{step-fed, step-next, step-room, feed-feeds, feed_batches-feeds}
use fast_llm.Decode.Passes.{HasRoom, pass-HasRoom, pass-longer, pass-greedy, room}

ltb→le : (a b : ℕ) → ltb a b ≡ false → b ≤ a
ltb→le a b h = ground arith

leb→lt : (a b : ℕ) → leb a b ≡ false → b < a
leb→lt a b h = ground arith

module _ (D : Decoder) (I : IsGreedy D) where
  open I use {fed, predict, max_kv}

  plain_loop-greedy :
      (n : ℕ) (s : D.State) (t : ℕ) (out : List ℕ)
      → length (fed s) + n ≤ max_kv
      → plain_loop D n s t out ≡ out ++ greedy predict n (fed s) t
  unfolding plain_loop greedy
  plain_loop-greedy zero s t out h = sym (append-nil out)
  plain_loop-greedy (suc n) s t out h =
      let room : length (fed s) + 1 ≤ max_kv = omega (arith, h) in
      plain_loop-greedy n _ _ (out ++ t ∷ []) (step-room D I s t room n h)
      ∙ ap₂ (λ c x. (out ++ t ∷ []) ++ greedy predict n c x) (step-fed D I s t room)
          (step-next D I s t room)
      ∙ append_assoc out (t ∷ []) _

module _ (D : Decoder) (P : Policy) (spec_max n_gen : ℕ) (I : IsGreedy D) where
  open I use {fed, predict, max_kv}

  spec_loop-greedy :
      (fuel : ℕ) (st : Loop D P)
      → spec_max + 1 ≤ D.max_batch
      → HasRoom D P spec_max n_gen I st
      → n_gen < fuel + length st.out
      → spec_loop D P spec_max n_gen fuel st
        ≡ st.out ++ greedy predict (n_gen - length st.out) (fed st.s) st.next_tok
  unfolding spec_loop greedy
  spec_loop-greedy zero st small has_room h =
      let over : n_gen - length st.out ≡ 0 = omega (arith, h) in rw over (sym (append-nil st.out))
  spec_loop-greedy (suc fuel) st small has_room h =
      let len = length-append st.out (st.next_tok ∷ []) in
      elim (Bool-cases (ltb (length st.out) n_gen)) [
        | inr e ↦
            let over : n_gen - length st.out ≡ 0 = omega (arith, ltb→le (length st.out) n_gen e) in
            if_of_false _ _ e ∙ rw over (sym (append-nil st.out))
        | inl e ↦ elim (Bool-cases (leb n_gen (length (st.out ++ st.next_tok ∷ [])))) [
          | inl last ↦
              let one : n_gen - length st.out ≡ 1 =
                omega (arith, len, ltb→lt (length st.out) n_gen e, leb→le _ _ last) in
              if_of_true _ _ e ∙ if_of_true _ _ last ∙ rw one refl
          | inr left ↦
              let more : length st.out + 1 < n_gen =
                omega (arith, len, leb→lt n_gen (length (st.out ++ st.next_tok ∷ [])) left) in
              if_of_true _ _ e
              ∙ if_of_false _ _ left
              ∙ spec_loop-greedy fuel (pass D P spec_max n_gen st) small
                  (pass-HasRoom D P spec_max n_gen I st small more has_room)
                  (omega (arith, h, pass-longer D P spec_max n_gen I st small more has_room))
              ∙ pass-greedy D P spec_max n_gen I st small more has_room
        ]
      ]

  -- Let the decoder keep the promises of src/model/decoder.h, with the gate off, let a batch hold a draft of
  -- `spec_max` tokens and one more, and the cache the prompt, the tokens to generate and such a draft.
  -- Then the speculative run ends with exactly the tokens of the plain run, whatever the suffix
  -- index drafts and however the policy chooses.
  pub run_spec-run_plain :
      (spec_min spec_chain : ℕ) (ids : List ℕ)
      → spec_max + 1 ≤ D.max_batch
      → length ids + n_gen + spec_max ≤ max_kv
      → run_spec D P spec_min spec_chain spec_max n_gen ids ≡ run_plain D n_gen ids
  unfolding run_spec run_plain
  run_spec-run_plain spec_min spec_chain ids small room =
      let all : n_gen - 0 ≡ n_gen = omega arith in
      let none_fed : length (fed D.reset) ≡ 0 = ap length I.reset-fed in
      let fits : length (fed D.reset) + length ids ≤ max_kv = omega (arith, none_fed, room) in
      let (batches, choice) =
        feed_batches-feeds D I (length ids) ids D.reset 0 (omega arith) fits in
      let (fed_one, choice_one) = feed-feeds D I ids D.reset 0 fits in
      let (s, next_tok) = feed_batches D (length ids) D.reset 0 ids in
      let prompt_in : length (fed s) ≡ length ids =
        omega (arith, ap length batches, length-append (fed D.reset) ids, none_fed) in
      spec_loop-greedy (n_gen + 1) _ small (λ h. omega (arith, prompt_in, room)) (omega arith)
      ∙ ap (λ n. greedy predict n (fed s) next_tok) all
      ∙ ap₂ (greedy predict n_gen) (batches ∙ sym fed_one) (choice ∙ sym choice_one)
      ∙ sym (
          plain_loop-greedy D I n_gen _ _ []
            (omega (arith, ap length fed_one, length-append (fed D.reset) ids, none_fed, room)))
