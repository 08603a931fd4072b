-- ===== src/Runtime/Step.antt =====
-- One run() of src/runtime/runtime.cpp as interleaved steps: the host publishes the roots, and the
-- workers claim, execute and release. A queue is the list of its tasks, and `pop` and `push` are one
-- step each; a push to a full queue waits. Each access to shared memory is one step.
use fast_llm.Prelude.{
  ℕ, ◌+◌, ◌-◌, ◌≤◌, ◌<◌, ◌≡◌, ◌≢◌, Bool, true, false, ◌||◌, ◌==◌, if◌then◌else◌, List, [], ◌∷◌,
  ◌++◌, length, update,
}
use fast_llm.Task.{Task}
use fast_llm.Runtime.{
  Config, Worker, cpu_thread, gpu_block, from_gpu, destination, polls, claim_limit,
}
use fast_llm.Runtime.Dedup.{consumers_of, tally, one_by_one}

abbrev pub queue_capacity : ℕ
queue_capacity = 65536

-- Where a worker stands.
pub data Pc : Type 0 where
  idle : Pc
  running : (todo done : List ℕ) → Pc  -- a claimed batch
  releasing : (batch : ℕ) (slots : List (ℕ × ℕ)) → Pc  -- of so many tasks
  publishing : (batch c : ℕ) (slots : List (ℕ × ℕ)) → Pc

-- `log` lists the executed tasks, the last one first.
pub record State : Type 0 where
  pub queue : ℕ → List ℕ
  pub dep_count : ℕ → ℕ
  pub next_root : ℕ
  pub pc : ℕ → Pc
  pub done_flag : Bool
  pub n_done : ℕ
  pub log : List ℕ

abbrev pub slots_of : (ℕ → Task) → Worker → List ℕ → List (ℕ × ℕ)
slots_of tasks cpu_thread done = one_by_one (consumers_of tasks done)
slots_of tasks (gpu_block b) done = tally [] (consumers_of tasks done)

unfoldable pub holds_task : ℕ → List ℕ → Bool
holds_task t [] = false
holds_task t (x ∷ ids) = x == t || holds_task t ids

module _ (cfg : Config) (tasks : ℕ → Task) (n terminal : ℕ) (worker : ℕ → Worker)
    (workers : ℕ) where
  -- After the reset at the start of run().
  unfoldable pub start : State
  start = record {
    queue = λ _. [];
    dep_count = λ i. (tasks i).dep_init;
    next_root = 0;
    pc = λ _. idle;
    done_flag = false;
    n_done = 0;
    log = [];
  }

  -- `fl_publish` of the task `c`, by the host, a CPU thread or a GPU block.
  abbrev pub target : ℕ → Bool → ℕ
  target c gpu = destination cfg c (tasks c) gpu

  abbrev pub push : State → ℕ → ℕ → State
  push s k c = record s { queue = update s.queue k (s.queue k ++ (c ∷ [])) }

  pub data Step (s : State) : State → Type 0 where
    root_skip :
        s.next_root < n
        → (tasks s.next_root).dep_init ≢ 0
        → Step s (record s { next_root = s.next_root + 1 })
    root_publish :
        s.next_root < n
        → (tasks s.next_root).dep_init ≡ 0
        → length (s.queue (target s.next_root false)) < queue_capacity
        → Step s
            (record (push s (target s.next_root false) s.next_root) { next_root = s.next_root + 1 })
    claim :
        (w k : ℕ) (ids rest : List ℕ)
        → w < workers
        → s.pc w ≡ idle
        → polls cfg (worker w) k ≡ true
        → 0 < length ids
        → length ids ≤ claim_limit cfg (worker w)
        → s.queue k ≡ ids ++ rest
        → Step s (record s { queue = update s.queue k rest; pc = update s.pc w (running ids []) })
    execute :
        (w x : ℕ) (todo done : List ℕ)
        → w < workers
        → s.pc w ≡ running (x ∷ todo) done
        → Step s
            (record s { pc = update s.pc w (running todo (done ++ (x ∷ []))); log = x ∷ s.log })
    release :
        (w : ℕ) (done : List ℕ)
        → w < workers
        → s.pc w ≡ running [] done
        → Step s (record s {
          pc = update s.pc w (releasing (length done) (slots_of tasks (worker w) done));
          done_flag = s.done_flag || holds_task terminal done;
        })
    -- `fl_fetch_sub_i32` returns the count before the subtraction.
    decrement :
        (w batch c m : ℕ) (slots : List (ℕ × ℕ))
        → w < workers
        → s.pc w ≡ releasing batch ((c, m) ∷ slots)
        → Step s (record s {
          dep_count = update s.dep_count c (s.dep_count c - m);
          pc =
              update s.pc w
                (if s.dep_count c == m then publishing batch c slots else releasing batch slots);
        })
    publish :
        (w batch c : ℕ) (slots : List (ℕ × ℕ))
        → w < workers
        → s.pc w ≡ publishing batch c slots
        → length (s.queue (target c (from_gpu (worker w)))) < queue_capacity
        → Step s (record (push s (target c (from_gpu (worker w))) c) {
          pc = update s.pc w (releasing batch slots);
        })
    finish :
        (w batch : ℕ)
        → w < workers
        → s.pc w ≡ releasing batch []
        → Step s (record s { pc = update s.pc w idle; n_done = s.n_done + batch })

  pub data Reach : State → Type 0 where
    here : Reach start
    next : {s t : State} → Reach s → Step s t → Reach t
