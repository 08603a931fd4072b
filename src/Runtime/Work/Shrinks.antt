-- ===== src/Runtime/Work/Shrinks.antt =====
-- Each step of a run lowers the work that is left.
use fast_llm.Prelude.{
  ℕ, ◌+◌, ◌*◌, ◌<◌, ◌≡◌, refl, ap, ◌==◌, if◌then◌else◌, List, [], ◌∷◌, ◌++◌, length, update, count,
  count-nil, count-cons, arith, dec_lt,
}
use fast_llm.Prelude.Sums.{total, total-update, total-ge, total-shrinks}
use fast_llm.Task.{Task}
use fast_llm.Graph.Kahn.Inv.{IsWired}
use fast_llm.Runtime.{Config, Worker}
use fast_llm.Runtime.Dedup.{consumers_of, length-consumers_of-append}
use fast_llm.Runtime.Step.{
  idle, running, releasing, publishing, State, Step, root_skip, root_publish, claim, execute,
  release, decrement, publish, finish, slots_of,
}
use fast_llm.Runtime.Inv.{holds, queued, held, Inv}
use fast_llm.Runtime.Work.{
  steps_left, claims, task_cost, work_left, claims_le, moves_on, looks_on, length-slots_of,
}

module _ (cfg : Config) (tasks : ℕ → Task) (n terminal : ℕ) (worker : ℕ → Worker)
    (workers : ℕ) where
  abbrev left : State → ℕ
  left = work_left cfg tasks n terminal worker workers

  abbrev cost : State → ℕ → ℕ
  cost = task_cost cfg tasks n terminal worker workers

  module _ (wired : IsWired tasks n) (s : State)
      (v : Inv cfg tasks n terminal worker workers s) where
    -- A task in a queue is neither claimed nor executed.
    waiting :
        (x k : ℕ)
        → 0 < count x (s.queue k)
        → (x < n) × (count x s.log ≡ 0) × (total workers (λ i. claims x (s.pc i)) ≡ 0)
    waiting x k h = elim (dec_lt x n) [
      | yes p ↦ (
        p,
        ground (arith, v.placed x p, there),
        ground
            (arith, v.placed x p, there, claims_le cfg tasks n terminal worker workers wired s v x),
      )
      | no p ↦ absurd (omega (arith, v.outside x (omega arith), there))
    ]
      where
        k_lt : k < 4 + cfg.gpu_blocks
        k_lt = elim (dec_lt k (4 + cfg.gpu_blocks)) [
          | yes p ↦ p
          | no p ↦ absurd (omega (arith, h, ap (count x) (v.stray k (omega arith)), count-nil x))
        ]

        there : 0 < queued cfg tasks n terminal worker workers s x
        there = omega (arith, total-ge (4 + cfg.gpu_blocks) (λ i. count x (s.queue i)) k k_lt)

    claim_less :
        (w k : ℕ) (ids rest : List ℕ)
        → w < workers
        → s.pc w ≡ idle
        → 0 < length ids
        → s.queue k ≡ ids ++ rest
        → left (record s { queue = update s.queue k rest; pc = update s.pc w (running ids []) })
          < left s
    unfolding work_left task_cost consumers_of
    claim_less w k [] rest lt e pos split = absurd (omega arith)
    claim_less w k (x ∷ ids) rest lt e pos split = omega (
      arith,
      total-shrinks n (cost after) (cost s) x 3 fresh.0
          (ground (arith, more x, fresh.1, fresh.2, count-cons x x ids))
          (λ c p. ground (arith, more c)),
      total-update (steps_left tasks) workers s.pc w (running (x ∷ ids) []) lt,
      ap (steps_left tasks) e,
    )
      where
        after : State
        after = record s {
          queue = update s.queue k rest;
          pc = update s.pc w (running (x ∷ ids) []);
        }

        more :
            (c : ℕ)
            → total workers (λ i. claims c (after.pc i))
              ≡ total workers (λ i. claims c (s.pc i)) + count c (x ∷ ids)
        more c = omega (
          arith,
          total-update (claims c) workers s.pc w (running (x ∷ ids) []) lt,
          ap (claims c) e,
        )

        fresh : (x < n) × (count x s.log ≡ 0) × (total workers (λ i. claims x (s.pc i)) ≡ 0)
        fresh = waiting x k (ground (arith, ap (count x) split, count-cons x x (ids ++ rest)))

    execute_less :
        (w x : ℕ) (todo done : List ℕ)
        → w < workers
        → s.pc w ≡ running (x ∷ todo) done
        → left (record s { pc = update s.pc w (running todo (done ++ (x ∷ []))); log = x ∷ s.log })
          < left s
    unfolding work_left task_cost
    execute_less w x todo done lt e = omega (
      arith,
      total-shrinks n (cost after) (cost s) x (1 + 2 * length (tasks x).consumers) fresh.0
          (ground (arith, same x, fresh.1, count-cons x x s.log))
          (λ c p. ground (arith, same c, count-cons c x s.log)),
      total-update (steps_left tasks) workers s.pc w (running todo (done ++ (x ∷ []))) lt,
      ap (steps_left tasks) e,
      length-consumers_of-append tasks x done,
    )
      where
        after : State
        after = record s { pc = update s.pc w (running todo (done ++ (x ∷ []))); log = x ∷ s.log }

        same :
            (c : ℕ)
            → total workers (λ i. claims c (after.pc i)) + count c after.log
              ≡ total workers (λ i. claims c (s.pc i)) + count c s.log
        same c = omega (
          arith,
          total-update (claims c) workers s.pc w (running todo (done ++ (x ∷ []))) lt,
          ap (claims c) e,
          count-cons c x todo,
          count-cons c x s.log,
        )

        fresh : (x < n) × (count x s.log ≡ 0)
        fresh = elim (dec_lt x n) [
          | yes p ↦ (p, ground (arith, v.placed x p, carried))
          | no p ↦ absurd (omega (arith, v.outside x (omega arith), carried))
        ]
          where
            carried : 0 < held cfg tasks n terminal worker workers s x
            carried =
                ground
                  (arith, e, count-cons x x todo, total-ge workers (λ i. holds x (s.pc i)) w lt)

    pub work_shrinks : {t : State} → Step cfg tasks n terminal worker workers s t → left t < left s
    work_shrinks (root_skip lt ne) =
        looks_on cfg tasks n terminal worker workers wired s v _ refl (λ i. refl) refl lt
    work_shrinks (root_publish lt z room) =
        looks_on cfg tasks n terminal worker workers wired s v _ refl (λ i. refl) refl lt
    work_shrinks (claim w k ids rest lt e can pos limit split) =
        claim_less w k ids rest lt e pos split
    work_shrinks (execute w x todo done lt e) = execute_less w x todo done lt e
    work_shrinks (release w done lt e) =
        moves_on cfg tasks n terminal worker workers wired s v _ w
          (releasing (length done) (slots_of tasks (worker w) done)) lt refl refl (λ i. refl)
          (λ c. ground (arith, e, count-nil c))
          (ground (arith, e, length-slots_of tasks (worker w) done))
    work_shrinks (decrement w batch c m slots lt e) =
        moves_on cfg tasks n terminal worker workers wired s v _ w
          (if s.dep_count c == m then publishing batch c slots else releasing batch slots) lt refl
          refl (λ i. refl) (λ d. ground (arith, e)) (ground (arith, e))
    work_shrinks (publish w batch c slots lt e room) =
        moves_on cfg tasks n terminal worker workers wired s v _ w (releasing batch slots) lt refl
          refl (λ i. refl) (λ d. ground (arith, e)) (ground (arith, e))
    work_shrinks (finish w batch lt e) =
        moves_on cfg tasks n terminal worker workers wired s v _ w idle lt refl refl (λ i. refl)
          (λ d. ground (arith, e)) (ground (arith, e))
