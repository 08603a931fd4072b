-- ===== src/Decode/Tests.antt =====
-- Two decoders over the repeating stream 0, 1, 2, one exact and one with a low margin, and runs of them.
use fast_llm.Prelude.{
  ℕ, ◌+◌, ◌%◌, ◌≡◌, refl, Bool, false, ◌==◌, arith, some, List, [], ◌∷◌, ◌++◌, length, take,
}
use fast_llm.Spec.Suffix.{
  create, push, draft, gram_hash, mix, walk, visit, gram_eq, extend, propose, copy_from,
}
use fast_llm.Spec.Suffix.Chain.{push_all}
use fast_llm.Decode.{
  Decoder, Policy, Loop, accepted, first_low, trusted, step, feed_batches, drafted, settle, pass,
  spec_loop, run_spec, run_plain,
}
use fast_llm.Decode.Greedy.{predictions, IsGreedy}
use fast_llm.Decode.Lossless.{run_spec-run_plain}
use fast_llm.Decode.Repeats.{gate, pass-repeats}

abbrev next_of_three : List ℕ → ℕ
next_of_three c = length c % 3

abbrev cyclic : (ℕ → Bool) → Decoder
cyclic low = record {
  State = List ℕ;
  reset = [];
  n_past = length;
  step_batch = λ s xs. (s ++ xs, predictions next_of_three s xs);
  low_margin = λ s p. low p;
  rewind_to = λ s n. take n s;
  max_batch = 4;
}

abbrev always_three : Policy
always_three = record { State = ℕ; start = 0; choose = λ n. (3, n); observe = λ n drafted a. n + a }

abbrev exact : Decoder
exact = cyclic (λ p. false)

abbrev exact_greedy : IsGreedy exact
exact_greedy = record {
  fed = λ s. s;
  predict = next_of_three;
  max_kv = 32;
  reset-fed = refl;
  n_past-fed = λ s. refl;
  step_batch-fed = λ s xs one small room. refl;
  step_batch-outs = λ s xs one small room. refl;
  rewind_to-fed = λ s n h. refl;
  batch_pos = omega arith;
  all_exact = λ s p. refl;
}

abbrev prompt : List ℕ
prompt = 0 ∷ 1 ∷ 2 ∷ 0 ∷ 1 ∷ 2 ∷ []

run_spec-exact : run_spec exact always_three 3 16 3 5 prompt ≡ 0 ∷ 1 ∷ 2 ∷ 0 ∷ 1 ∷ []
unfolding create push_all push draft gram_hash mix walk visit gram_eq extend propose copy_from
    accepted first_low drafted predictions trusted settle pass spec_loop run_spec feed_batches step
run_spec-exact = refl

run_spec-run_plain_example : run_spec exact always_three 3 16 3 5 prompt ≡ run_plain exact 5 prompt
run_spec-run_plain_example =
    run_spec-run_plain exact always_three 3 5 exact_greedy 3 16 prompt (omega arith) (omega arith)

-- The margin is low at position 2 of each pass.
abbrev inexact : Decoder
inexact = cyclic (λ p. p == 2)

abbrev after_prompt : Loop inexact always_three
after_prompt = record {
  s = prompt;
  idx = push_all (create 16 3) prompt;
  ctrl = 0;
  next_tok = 0;
  out = [];
}

gate-after_prompt : gate inexact always_three 3 8 after_prompt ≡ some 2
unfolding create push_all push draft gram_hash mix walk visit gram_eq extend propose copy_from
    accepted first_low drafted predictions
gate-after_prompt = refl

-- The stream goes on with 0, 1, 2, 0, 1, 2; this run has 2 a second time.
run_spec-inexact : run_spec inexact always_three 3 16 3 6 prompt ≡ 0 ∷ 1 ∷ 2 ∷ 2 ∷ 0 ∷ 1 ∷ []
unfolding create push_all push draft gram_hash mix walk visit gram_eq extend propose copy_from
    accepted first_low drafted predictions trusted settle pass spec_loop run_spec feed_batches step
run_spec-inexact = refl

pass-repeats_example :
    let once = pass inexact always_three 3 8 after_prompt in
    let twice = pass inexact always_three 3 8 once in
    (before : List ℕ) × (rest : List ℕ) × (once.out ≡ before ++ once.next_tok ∷ [])
    × (twice.out ≡ before ++ once.next_tok ∷ once.next_tok ∷ rest)
pass-repeats_example =
    pass-repeats inexact always_three 3 8 after_prompt 2 gate-after_prompt (omega arith)
