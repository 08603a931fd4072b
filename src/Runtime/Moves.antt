-- ===== src/Runtime/Moves.antt =====
-- Facts that the steps' proofs share.
pub mod Publish
pub mod Execute
pub mod Release
use native.Mathlib.Nat.{mod-lt}
use fast_llm.Prelude.{
  ℕ, zero, suc, ◌+◌, ◌-◌, ◌/◌, ◌%◌, ◌≤◌, ◌<◌, ◌≡◌, ◌≢◌, refl, ap, ◌∙◌, sym, Bool, true, false, ◌&&◌,
  ◌||◌, ◌==◌, leb, ltb, if◌then◌else◌, List, [], ◌∷◌, ◌++◌, length, update, length-append, count,
  count-nil, count-cons, count-append, min, arith, dec_lt, Bool-cases, inl, inr, ◌⊎◌,
}
use fast_llm.Prelude.Sums.{total, total-update, total-zero, total-cong, total-ge}
use fast_llm.Task.{Task, Engine}
use fast_llm.Graph.Kahn.Relax.{flag}
use fast_llm.Graph.Kahn.Inv.{calls, missing, missing-cons, missing-nil, IsOrdered, IsWired}
use fast_llm.Runtime.{
  Config, Worker, cpu_thread, gpu_block, from_gpu, destination, task_queue, by_affinity, polls,
}
use fast_llm.Runtime.Dedup.{
  consumers_of, count-consumers_of-append, weight, AllPos, tally, one_by_one, weight-tally,
  weight-one_by_one, AllPos-tally, AllPos-one_by_one,
}
use fast_llm.Runtime.Step.{
  Pc, idle, running, releasing, publishing, State, start, Step, root_skip, root_publish, claim,
  execute, release, decrement, publish, finish, slots_of, target, push, queue_capacity, holds_task,
}
use fast_llm.Runtime.Inv.{
  holds, owes, uncounted, unreported, as_number, IsFine, unpublished, queues, queued, held, owed,
  Inv,
}

pub task_queue-lt : (t : Task) (gpu : Bool) → task_queue t gpu < 4
unfolding task_queue by_affinity
task_queue-lt t gpu = ground arith

ring-lt :
    (cq x nb blocks : ℕ)
    → cq < 4
    → nb ≤ blocks
    → (if cq == 0 && ltb 0 nb then 4 + x % nb else cq) < 4 + blocks
ring-lt cq x nb blocks small le = elim (Bool-cases (cq == 0 && ltb 0 nb)) [
  | inl q ↦ rw q (omega (arith, mod-lt x {m = nb} (ground arith)))
  | inr q ↦ rw q (omega arith)
]

-- Every task goes to a queue that exists.
pub destination-lt :
    (cfg : Config) (id : ℕ) (t : Task) (gpu : Bool) → destination cfg id t gpu < 4 + cfg.gpu_blocks
unfolding destination
destination-lt cfg id t gpu =
    ring-lt (task_queue t (if gpu then true else cfg.gpu_enabled))
      (id / (if cfg.perblock_chunk == 0 then 1 else cfg.perblock_chunk))
      (if cfg.perblock_q then cfg.gpu_blocks else 0) cfg.gpu_blocks
      (task_queue-lt t (if gpu then true else cfg.gpu_enabled)) (ground arith)

pub holds_task-count : (t : ℕ) (ids : List ℕ) → as_number (holds_task t ids) ≡ min 1 (count t ids)
unfolding holds_task
holds_task-count t [] = omega (arith, count-nil t)
holds_task-count t (x ∷ ids) = ground (arith, holds_task-count t ids, count-cons t x ids)

pub IsFine-update :
    (pc : ℕ → Pc) (w : ℕ) (p : Pc)
    → ((i : ℕ) → IsFine (pc i))
    → IsFine p
    → (i : ℕ) → IsFine (update pc w p i)
IsFine-update pc w p f h i = elim (Bool-cases (w == i)) [ inl q ↦ rw q h | inr q ↦ rw q (f i) ]

pub weight-slots_of :
    (tasks : ℕ → Task) (v : Worker) (c : ℕ) (done : List ℕ)
    → weight c (slots_of tasks v done) ≡ count c (consumers_of tasks done)
weight-slots_of tasks cpu_thread c done = weight-one_by_one c (consumers_of tasks done)
weight-slots_of tasks (gpu_block b) c done =
    omega (arith, weight-tally c [] (consumers_of tasks done))

pub AllPos-slots_of :
    (tasks : ℕ → Task) (v : Worker) (done : List ℕ) → AllPos (slots_of tasks v done)
AllPos-slots_of tasks cpu_thread done = AllPos-one_by_one (consumers_of tasks done)
AllPos-slots_of tasks (gpu_block b) done = AllPos-tally [] (consumers_of tasks done) tt

pub stray-update :
    (queue : ℕ → List ℕ) (nq k : ℕ) (l : List ℕ)
    → ((i : ℕ) → nq ≤ i → queue i ≡ [])
    → k < nq
    → (i : ℕ) → nq ≤ i
    → update queue k l i ≡ []
stray-update queue nq k l none lt i p = ground (arith, none i p)

module _ (cfg : Config) (tasks : ℕ → Task) (n terminal : ℕ) (worker : ℕ → Worker)
    (workers : ℕ) where
  module _ (s : State) (v : Inv cfg tasks n terminal worker workers s) where
    -- No task is executed twice.
    pub once : (c : ℕ) → count c s.log ≤ 1
    once c = elim (dec_lt c n) [
      | yes p ↦ ground (arith, v.placed c p)
      | no p ↦ omega (arith, (v.outside c (omega arith)).2)
    ]
