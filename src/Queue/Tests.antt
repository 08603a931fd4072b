-- ===== src/Queue/Tests.antt =====
-- A queue of four cells.
use fast_llm.Prelude.{◌≡◌, refl, true, false, some, none, List, [], ◌∷◌, arith}
use fast_llm.Queue.{init}
use fast_llm.Queue.Refines.{
  Call, push_call, pop_call, bulk_call, push_answer, pop_answer, bulk_answer, run, specify,
  run-init,
}

abbrev calls : List Call
calls =
    push_call 7
    ∷ push_call 8
    ∷ push_call 9
    ∷ pop_call
    ∷ push_call 10
    ∷ push_call 11
    ∷ push_call 12
    ∷ bulk_call 9
    ∷ pop_call
    ∷ []

specify-calls :
    specify 4 [] calls
    ≡ push_answer true
      ∷ push_answer true
      ∷ push_answer true
      ∷ pop_answer (some 7)
      ∷ push_answer true
      ∷ push_answer true
      ∷ push_answer false
      ∷ bulk_answer (8 ∷ 9 ∷ 10 ∷ 11 ∷ [])
      ∷ pop_answer none
      ∷ []
unfolding specify
specify-calls = refl

run-init_example : run 1 (init 4) calls ≡ some (specify 4 [] calls)
run-init_example = run-init 2 (omega arith) (omega arith) 0 calls
