-- ===== src/Queue/Refines.antt =====
-- Any sequence of calls of the queue of src/runtime/queue.h behaves like a list.
use native.Mathlib.Nat.{mod-eq_of_lt}
use fast_llm.Prelude.{
  ℕ, suc, ◌+◌, ◌^◌, ◌%◌, ◌≤◌, ◌≡◌, refl, ap, ◌∙◌, min, Bool, ltb, if◌then◌else◌, Option, none, some,
  List, [], ◌∷◌, ◌++◌, length, take, drop, arith, Bool-cases, inl, inr,
}
use fast_llm.Prelude.Words.{u32}
use fast_llm.Queue.{Queue, init, push, pop, pop_bulk}
use fast_llm.Queue.Fifo.{Holds, Holds-tail, pushed, pushed-Holds, push_lem, cap-bounds}
use fast_llm.Queue.Pop.{released, released-Holds, pop-cons, pop-nil, pop_bulk_lem}

-- A call, and what it returns. A bulk pop asks for one element more than the number says.
pub data Call : Type 0 where
  push_call : ℕ → Call
  pop_call : Call
  bulk_call : ℕ → Call

pub data Answer : Type 0 where
  push_answer : Bool → Answer
  pop_answer : Option ℕ → Answer
  bulk_answer : List ℕ → Answer

abbrev and_then :
    {A : Type 0}
    → Option (A × Queue)
    → (A → Answer)
    → (Queue → Option (List Answer))
    → Option (List Answer)
and_then none f k = none
and_then (some (a, q)) f k = elim (k q) [ none ↦ none | some rest ↦ some (f a ∷ rest) ]

-- The calls in order, each with so much fuel.
unfoldable pub run : ℕ → Queue → List Call → Option (List Answer)
run fuel q [] = some []
run fuel q (push_call v ∷ calls) = and_then (push fuel q v) push_answer (λ q'. run fuel q' calls)
run fuel q (pop_call ∷ calls) = and_then (pop fuel q) pop_answer (λ q'. run fuel q' calls)
run fuel q (bulk_call m ∷ calls) =
    and_then (pop_bulk fuel q (suc m)) bulk_answer (λ q'. run fuel q' calls)

-- The same calls of a list with so much room.
unfoldable pub specify : ℕ → List ℕ → List Call → List Answer
specify room l [] = []
specify room l (push_call v ∷ calls) =
    push_answer (ltb (length l) room)
    ∷ specify room (if ltb (length l) room then l ++ (v ∷ []) else l) calls
specify room [] (pop_call ∷ calls) = pop_answer none ∷ specify room [] calls
specify room (x ∷ l) (pop_call ∷ calls) = pop_answer (some x) ∷ specify room l calls
specify room l (bulk_call m ∷ calls) =
    let n = min (suc m) (length l) in bulk_answer (take n l) ∷ specify room (drop n l) calls

module _ (k : ℕ) (some_cells : 1 ≤ k) (few_cells : k ≤ 31) where
  init-Holds : Holds k (init (2 ^ k)) 0 []
  unfolding init
  init-Holds = record {
    mask = omega (arith, cap-bounds k some_cells few_cells);
    head = refl;
    small = omega arith;
    filled = λ i p. absurd (omega arith);
    free = λ i p p'. ap u32 (
        ap (λ j. j % 2 ^ k) {y = i} (omega arith)
        ∙ mod-eq_of_lt {n = i} {m = 2 ^ k} p'
        ∙ omega arith);
  }

  run-Holds :
      (fuel : ℕ) (q : Queue) (t : ℕ) (l : List ℕ) (calls : List Call)
      → Holds k q t l
      → q.tail ≡ u32 t
      → run (suc fuel) q calls ≡ some (specify (2 ^ k) l calls)
  unfolding run specify
  run-Holds fuel q t l [] v e = refl
  run-Holds fuel q t l (push_call x ∷ calls) v e =
      rw (push_lem k some_cells few_cells q t l v fuel x)
        (elim (Bool-cases (ltb (length l) (2 ^ k))) [
          | inl b ↦ rw b (
              rw
                (run-Holds fuel (pushed k some_cells few_cells q t l v x) t (l ++ (x ∷ [])) calls
                  (pushed-Holds k some_cells few_cells q t l v x (ground arith)) e)
                refl)
          | inr b ↦ rw b (rw (run-Holds fuel q t l calls v e) refl)
        ])
  run-Holds fuel q t [] (pop_call ∷ calls) v e =
      rw (pop-nil k some_cells few_cells q t fuel v e) (rw (run-Holds fuel q t [] calls v e) refl)
  run-Holds fuel q t (x ∷ l) (pop_call ∷ calls) v e =
      let q' : Queue = released k some_cells few_cells q t in
      rw (pop-cons k some_cells few_cells q t fuel x l v e) (
        rw
          (run-Holds fuel (record q' { tail = u32 (u32 t + 1) }) (t + 1) l calls
            (Holds-tail k q' (t + 1) l (u32 (u32 t + 1))
              (released-Holds k some_cells few_cells q t x l v))
            (omega arith))
          refl)
  run-Holds fuel q t l (bulk_call m ∷ calls) v e =
      let (q', eq, holds, tail) =
        pop_bulk_lem k some_cells few_cells q t fuel (suc m) l v e (omega arith) in
      rw eq (
        rw
          (run-Holds fuel q' (t + min (suc m) (length l)) (drop (min (suc m) (length l)) l) calls
            holds tail)
          refl)

  -- A queue of 2 to 2^31 cells, a power of two, answers any sequence of pushes, pops and bulk pops as a
  -- bounded first-in first-out list does, across the wrap-around of its cursors: a push fails exactly
  -- when the list is full, and a pop exactly when it is empty. No loop goes round twice.
  pub run-init :
      (fuel : ℕ) (calls : List Call)
      → run (suc fuel) (init (2 ^ k)) calls ≡ some (specify (2 ^ k) [] calls)
  unfolding init
  run-init fuel calls = run-Holds fuel (init (2 ^ k)) 0 [] calls init-Holds refl
