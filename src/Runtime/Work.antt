-- ===== src/Runtime/Work.antt =====
-- A run ends: every step of src/runtime/runtime.cpp uses up some of the work.
pub mod Shrinks
use fast_llm.Prelude.{
  ℕ, ◌+◌, ◌-◌, ◌*◌, ◌≤◌, ◌<◌, ◌≡◌, refl, ap, ◌==◌, if◌then◌else◌, List, [], ◌∷◌, ◌++◌, length,
  update, count, count-nil, count-cons, arith, dec_lt,
}
use fast_llm.Prelude.Sums.{total, total-cong, total-update, total-ge, total_mono, total-shrinks}
use fast_llm.Task.{Task}
use fast_llm.Graph.Kahn.Inv.{IsWired}
use fast_llm.Runtime.{Config, Worker, cpu_thread, gpu_block}
use fast_llm.Runtime.Dedup.{
  consumers_of, length-tally, length-one_by_one, length-consumers_of-append,
}
use fast_llm.Runtime.Step.{
  Pc, idle, running, releasing, publishing, State, Step, root_skip, root_publish, claim, execute,
  release, decrement, publish, finish, slots_of,
}
use fast_llm.Runtime.Inv.{holds, queued, held, Inv}

pub length-slots_of :
    (tasks : ℕ → Task) (v : Worker) (done : List ℕ)
    → length (slots_of tasks v done) ≤ length (consumers_of tasks done)
length-slots_of tasks cpu_thread done = omega (arith, length-one_by_one (consumers_of tasks done))
length-slots_of tasks (gpu_block b) done = omega (arith, length-tally [] (consumers_of tasks done))

-- The steps that a worker still has to take before it is idle, but for the executions.
abbrev pub steps_left : (ℕ → Task) → Pc → ℕ
steps_left tasks idle = 0
steps_left tasks (running todo done) = 2 + 2 * length (consumers_of tasks done)
steps_left tasks (releasing batch slots) = 1 + 2 * length slots
steps_left tasks (publishing batch c slots) = 2 + 2 * length slots

-- How often a worker has claimed the task `c` and not executed it.
abbrev pub claims : ℕ → Pc → ℕ
claims c (running todo done) = count c todo
claims c _ = 0

claims-le : (c : ℕ) (p : Pc) → claims c p ≤ holds c p
claims-le c idle = omega arith
claims-le c (running todo done) = omega arith
claims-le c (releasing batch slots) = omega arith
claims-le c (publishing batch d slots) = omega arith

module _ (cfg : Config) (tasks : ℕ → Task) (n terminal : ℕ) (worker : ℕ → Worker)
    (workers : ℕ) where
  -- A task costs three steps until a worker has claimed it, then its execution and releases.
  unfoldable pub task_cost : State → ℕ → ℕ
  task_cost s c =
      3 * (1 - (count c s.log + total workers (λ w. claims c (s.pc w))))
      + (1 - count c s.log) * (1 + 2 * length (tasks c).consumers)

  unfoldable pub work_left : State → ℕ
  work_left s =
      n - s.next_root + total n (task_cost s) + total workers (λ w. steps_left tasks (s.pc w))

  module _ (wired : IsWired tasks n) (s : State)
      (v : Inv cfg tasks n terminal worker workers s) where
    pub claims_le :
        (c : ℕ) → total workers (λ w. claims c (s.pc w)) ≤ total workers (λ w. holds c (s.pc w))
    claims_le c =
        total_mono workers (λ w. claims c (s.pc w)) (λ w. holds c (s.pc w))
          (λ w p. claims-le c (s.pc w))

    -- A worker that moves on with the tasks that it has executed.
    pub moves_on :
        (t : State) (w : ℕ) (p : Pc)
        → w < workers
        → t.log ≡ s.log
        → t.next_root ≡ s.next_root
        → ((i : ℕ) → t.pc i ≡ update s.pc w p i)
        → ((c : ℕ) → claims c p ≡ claims c (s.pc w))
        → steps_left tasks p < steps_left tasks (s.pc w)
        → work_left t < work_left s
    unfolding work_left task_cost
    moves_on t w p lt el er ep same less = omega (
      arith,
      er,
      total-cong n (task_cost t) (task_cost s) (λ c q. rw el (rw (claimed c) refl)),
      total-cong workers (λ i. steps_left tasks (t.pc i))
          (λ i. steps_left tasks (update s.pc w p i)) (λ i q. rw (ep i) refl),
      total-update (steps_left tasks) workers s.pc w p lt,
    )
      where
        claimed :
            (c : ℕ)
            → total workers (λ i. claims c (t.pc i)) ≡ total workers (λ i. claims c (s.pc i))
        claimed c = omega (
          arith,
          total-cong workers (λ i. claims c (t.pc i)) (λ i. claims c (update s.pc w p i))
              (λ i q. rw (ep i) refl),
          total-update (claims c) workers s.pc w p lt,
          same c,
        )

    -- A root that the host has looked at.
    pub looks_on :
        (t : State)
        → t.log ≡ s.log
        → ((i : ℕ) → t.pc i ≡ s.pc i)
        → t.next_root ≡ s.next_root + 1
        → s.next_root < n
        → work_left t < work_left s
    unfolding work_left task_cost
    looks_on t el ep er lt = omega (
      arith,
      er,
      total-cong n (task_cost t) (task_cost s) (λ c q. rw el (
          rw
            (total-cong workers (λ i. claims c (t.pc i)) (λ i. claims c (s.pc i))
              (λ i q'. rw (ep i) refl))
            refl)),
      total-cong workers (λ i. steps_left tasks (t.pc i)) (λ i. steps_left tasks (s.pc i))
          (λ i q. rw (ep i) refl),
    )
