-- ===== src/Runtime/Room.antt =====
-- fl_publish of src/runtime/runtime_internal.h in a run: whoever is about to push finds room in the queue.
use fast_llm.Prelude.{ℕ, ◌+◌, ◌≤◌, ◌<◌, ◌≡◌, false, List, length, arith, dec_lt}
use fast_llm.Prelude.Sums.{total-ge}
use fast_llm.Task.{Task}
use fast_llm.Graph.Kahn.Inv.{IsWired}
use fast_llm.Runtime.{Config, Worker, from_gpu}
use fast_llm.Runtime.Step.{State, Reach, publishing, target, queue_capacity}
use fast_llm.Runtime.Inv.{holds, queued, held, Inv}
use fast_llm.Runtime.Moves.{destination-lt}
use fast_llm.Runtime.Safety.{Reach-Inv}
use fast_llm.Runtime.Routed.{queue_has_room}

module _ (cfg : Config) (tasks : ℕ → Task) (n terminal : ℕ) (worker : ℕ → Worker)
    (workers : ℕ) where
  -- The host or a worker has the task `c` in hand, and its next access is the push to the queue `k`.
  pub data Pushes (s : State) : ℕ → ℕ → Type 0 where
    root :
        s.next_root < n
        → (tasks s.next_root).dep_init ≡ 0
        → Pushes s (target cfg tasks n terminal worker workers s.next_root false) s.next_root
    consumer :
        (w batch c : ℕ) (slots : List (ℕ × ℕ))
        → w < workers
        → s.pc w ≡ publishing batch c slots
        → Pushes s (target cfg tasks n terminal worker workers c (from_gpu (worker w))) c

  module _ (wired : IsWired tasks n) {s : State}
      (r : Reach cfg tasks n terminal worker workers s) where
    v : Inv cfg tasks n terminal worker workers s
    v = Reach-Inv cfg tasks n terminal worker workers wired r

    -- A task about to be pushed is a task of the graph, lies in no queue, and its queue exists.
    pushed_once :
        {k c : ℕ}
        → Pushes s k c
        → (c < n) × (queued cfg tasks n terminal worker workers s c ≡ 0) × (k < 4 + cfg.gpu_blocks)
    pushed_once (root lt z) = (
      lt,
      ground (arith, v.placed s.next_root lt),
      destination-lt cfg s.next_root (tasks s.next_root) false,
    )
    pushed_once (consumer w batch c slots lt e) =
        (c_lt, nowhere, destination-lt cfg c (tasks c) (from_gpu (worker w)))
      where
        carried : 0 < held cfg tasks n terminal worker workers s c
        carried = ground (arith, e, total-ge workers (λ i. holds c (s.pc i)) w lt)

        c_lt : c < n
        c_lt = elim (dec_lt c n) [
          | yes p ↦ p
          | no p ↦ absurd (omega (arith, carried, v.outside c (omega arith)))
        ]

        nowhere : queued cfg tasks n terminal worker workers s c ≡ 0
        nowhere = ground (arith, carried, v.placed c c_lt)

  -- In every reachable state of a run of at most 65536 tasks, however the steps interleave: if the host or a
  -- worker is about to push a task, then the queue that it pushes to is not full.
  pub push_has_room :
      IsWired tasks n
      → {s : State} → Reach cfg tasks n terminal worker workers s
      → n ≤ queue_capacity
      → (k c : ℕ) → Pushes s k c
      → length (s.queue k) < queue_capacity
  push_has_room wired r small k c pushes =
      let (c_lt, nowhere, exists) = pushed_once wired r pushes in
      queue_has_room cfg tasks n terminal worker workers wired r small k c exists c_lt nowhere
