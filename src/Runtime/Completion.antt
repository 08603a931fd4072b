-- ===== src/Runtime/Completion.antt =====
-- Every run of src/runtime/runtime.cpp comes to its end.
use fast_llm.Prelude.{
  ℕ, zero, suc, ◌+◌, ◌*◌, ◌≤◌, ◌<◌, ◌≡◌, refl, length, count-nil, arith, inl, inr,
}
use fast_llm.Prelude.Sums.{total, total-zero}
use fast_llm.Task.{Task}
use fast_llm.Graph.Kahn.Inv.{IsWired}
use fast_llm.Graph.Kahn.Order.{IsRank}
use fast_llm.Runtime.{Config, Worker}
use fast_llm.Runtime.Step.{State, start, Step, Reach, here, next, queue_capacity}
use fast_llm.Runtime.Safety.{Reach-Inv}
use fast_llm.Runtime.Drained.{IsDrained, drained}
use fast_llm.Runtime.Progress.{Served, progress}
use fast_llm.Runtime.Work.{work_left, task_cost}
use fast_llm.Runtime.Work.Shrinks.{work_shrinks}

module _ (cfg : Config) (tasks : ℕ → Task) (n terminal : ℕ) (worker : ℕ → Worker)
    (workers : ℕ) where
  -- So many steps from one state to another.
  pub data Run (s : State) : ℕ → State → Type 0 where
    stay : Run s 0 s
    go :
        {k : ℕ} {t u : State}
        → Run s k t
        → Step cfg tasks n terminal worker workers t u
        → Run s (suc k) u

  abbrev edges : ℕ
  edges = total n (λ c. length (tasks c).consumers)

  total-affine :
      (m : ℕ) (f g : ℕ → ℕ)
      → ((i : ℕ) → i < m → f i ≡ 4 + 2 * g i)
      → total m f ≡ 4 * m + 2 * total m g
  unfolding total
  total-affine zero f g h = refl
  total-affine (suc m) f g h =
      omega (arith, total-affine m f g (λ i p. h i (omega arith)), h m (omega arith))

  start_cost :
      (c : ℕ)
      → task_cost cfg tasks n terminal worker workers (start cfg tasks n terminal worker workers) c
        ≡ 4 + 2 * length (tasks c).consumers
  unfolding task_cost start
  start_cost c = rw (count-nil c) (rw (total-zero workers) (omega arith))

  work_left-start :
      work_left cfg tasks n terminal worker workers (start cfg tasks n terminal worker workers)
      ≡ 5 * n + 2 * edges
  unfolding work_left start task_cost
  work_left-start = omega (
    arith,
    total-zero workers,
    total-affine n
        (task_cost cfg tasks n terminal worker workers (start cfg tasks n terminal worker workers))
        (λ c. length (tasks c).consumers) (λ c p. start_cost c),
  )

  module _ (wired : IsWired tasks n) where
    Run-Reach :
        {s t : State} {k : ℕ}
        → Reach cfg tasks n terminal worker workers s
        → Run s k t
        → Reach cfg tasks n terminal worker workers t
    Run-Reach r stay = r
    Run-Reach r (go run st) = next (Run-Reach r run) st

    spends :
        {s t : State} {k : ℕ}
        → Reach cfg tasks n terminal worker workers s
        → Run s k t
        → k + work_left cfg tasks n terminal worker workers t
          ≤ work_left cfg tasks n terminal worker workers s
    spends r stay = omega arith
    spends r (go {k} {t} run st) = omega (
      arith,
      spends r run,
      work_shrinks cfg tasks n terminal worker workers wired t
          (Reach-Inv cfg tasks n terminal worker workers wired (Run-Reach r run)) st,
    )

    -- However the workers interleave, a run has at most five steps for each task and two for each
    -- edge.
    pub steps_bounded :
        {t : State} {k : ℕ}
        → Run (start cfg tasks n terminal worker workers) k t
        → k ≤ 5 * n + 2 * total n (λ c. length (tasks c).consumers)
    steps_bounded run = omega (arith, spends here run, work_left-start)

    prepend :
        {s t u : State} {k : ℕ}
        → Step cfg tasks n terminal worker workers s t
        → Run t k u
        → Run s (suc k) u
    prepend st stay = go stay st
    prepend st (go run last) = go (prepend st run) last

    module _ (rank : ℕ → ℕ) (ranked : IsRank tasks n rank)
        (served : Served cfg tasks n terminal worker workers wired) (small : n ≤ queue_capacity)
        (lt : terminal < n) where
      completes_in :
          (fuel : ℕ) {s : State}
          → Reach cfg tasks n terminal worker workers s
          → work_left cfg tasks n terminal worker workers s < fuel
          → (k : ℕ) × (t : State) × Run s k t
            × IsDrained cfg tasks n terminal worker workers wired t
      completes_in zero r h = absurd (omega arith)
      completes_in (suc fuel) {s} r h =
          elim (progress cfg tasks n terminal worker workers wired s r small rank ranked served) [
            | inl e ↦ (0, s, stay, drained cfg tasks n terminal worker workers wired s r e lt)
            | inr (t, st) ↦
                let less : work_left cfg tasks n terminal worker workers t
                    < work_left cfg tasks n terminal worker workers s =
                  work_shrinks cfg tasks n terminal worker workers wired s
                    (Reach-Inv cfg tasks n terminal worker workers wired r) st in
                let (k, u, run, done) = completes_in fuel (next r st) (omega arith) in
                (suc k, u, prepend st run, done)
          ]

      -- Whatever the workers have done so far, the run can still be brought to its end, where every
      -- task has been executed once and run() returns. The graph has a ranking and fits in a queue, and
      -- each task's queue is polled.
      pub completes :
          {s : State}
          → Reach cfg tasks n terminal worker workers s
          → (k : ℕ) × (t : State) × Run s k t
            × IsDrained cfg tasks n terminal worker workers wired t
      completes {s} r =
          completes_in (suc (work_left cfg tasks n terminal worker workers s)) r (omega arith)
