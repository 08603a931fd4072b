-- ===== src/Runtime/Inv.antt =====
-- The invariant of a run: where each task is, and what each counter counts.
use fast_llm.Prelude.{
  ℕ, ◌+◌, ◌≤◌, ◌<◌, ◌≡◌, Bool, ◌&&◌, ◌==◌, leb, if◌then◌else◌, [], length, count,
}
use fast_llm.Prelude.Sums.{total}
use fast_llm.Task.{Task}
use fast_llm.Graph.Kahn.Relax.{flag}
use fast_llm.Graph.Kahn.Inv.{missing, IsOrdered}
use fast_llm.Runtime.{Config, Worker}
use fast_llm.Runtime.Dedup.{consumers_of, weight, AllPos}
use fast_llm.Runtime.Step.{Pc, idle, running, releasing, publishing, State}

-- How often the worker holds the task `c`, still to be executed or published.
abbrev pub holds : ℕ → Pc → ℕ
holds c idle = 0
holds c (running todo done) = count c todo
holds c (releasing batch slots) = 0
holds c (publishing batch d slots) = if d == c then 1 else 0

-- Of how many executed tasks `c` has still to be released by the worker.
abbrev pub owes : (ℕ → Task) → ℕ → Pc → ℕ
owes tasks c idle = 0
owes tasks c (running todo done) = count c (consumers_of tasks done)
owes tasks c (releasing batch slots) = weight c slots
owes tasks c (publishing batch d slots) = weight c slots

-- The executed tasks that the worker has not counted in `n_done`.
abbrev pub uncounted : Pc → ℕ
uncounted idle = 0
uncounted (running todo done) = length done
uncounted (releasing batch slots) = batch
uncounted (publishing batch d slots) = batch

-- A worker that is not idle has a batch, and no empty slot.
abbrev pub IsFine : Pc → Type 0
IsFine idle = Unit
IsFine (running todo done) = 0 < length todo + length done
IsFine (releasing batch slots) = (0 < batch) × AllPos slots
IsFine (publishing batch d slots) = (0 < batch) × AllPos slots

-- How often the terminal is among the tasks that the worker has executed and not reported.
abbrev pub unreported : ℕ → Pc → ℕ
unreported terminal (running todo done) = count terminal done
unreported terminal _ = 0

abbrev pub as_number : Bool → ℕ
as_number b = if b then 1 else 0

-- A root that the host has still to publish.
abbrev pub unpublished : (ℕ → Task) → State → ℕ → ℕ
unpublished tasks s c = if leb s.next_root c && (tasks c).dep_init == 0 then 1 else 0

module _ (cfg : Config) (tasks : ℕ → Task) (n terminal : ℕ) (worker : ℕ → Worker)
    (workers : ℕ) where
  abbrev pub queues : ℕ
  queues = 4 + cfg.gpu_blocks

  abbrev pub queued : State → ℕ → ℕ
  queued s c = total queues (λ k. count c (s.queue k))

  abbrev pub held : State → ℕ → ℕ
  held s c = total workers (λ w. holds c (s.pc w))

  abbrev pub owed : State → ℕ → ℕ
  owed s c = total workers (λ w. owes tasks c (s.pc w))

  pub record Inv (s : State) : Type 0 where
    -- A task's counter is the number of edges that are still to be released to it.
    pub remaining : (c : ℕ) → c < n → s.dep_count c ≡ missing tasks n s.log c + owed s c
    -- A task with none left is in exactly one place: a root to publish, in a queue, held by a
    -- worker, or executed. Any other task is nowhere.
    pub placed :
        (c : ℕ)
        → c < n
        → unpublished tasks s c + queued s c + held s c + count c s.log ≡ flag (s.dep_count c)
    pub outside :
        (c : ℕ) → n ≤ c → (queued s c ≡ 0) × (held s c ≡ 0) × (count c s.log ≡ 0) × (owed s c ≡ 0)
    pub ordered : IsOrdered tasks n s.log
    pub counted : length s.log ≡ s.n_done + total workers (λ w. uncounted (s.pc w))
    pub flagged :
        count terminal s.log
        ≡ as_number s.done_flag + total workers (λ w. unreported terminal (s.pc w))
    pub fine : (w : ℕ) → IsFine (s.pc w)
    pub stray : (k : ℕ) → queues ≤ k → s.queue k ≡ []
