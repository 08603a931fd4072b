-- ===== src/Runtime/Progress.antt =====
-- A run never gets stuck: src/runtime/runtime.cpp.
use fast_llm.Prelude.{
  ℕ, zero, suc, ◌+◌, ◌≤◌, ◌<◌, ◌≡◌, ◌≢◌, refl, ap, ◌∙◌, Bool, true, List, [], ◌∷◌, length, count,
  count-nil, count-cons, arith, dec_lt, ℕ_discrete, inl, inr, ◌⊎◌,
}
use fast_llm.Prelude.Sums.{total, total-cong, total-zero, total-ge, total-ones}
use fast_llm.Task.{Task}
use fast_llm.Graph.Kahn.Inv.{IsWired, Inv as KahnInv}
use fast_llm.Graph.Kahn.Order.{IsRank, order_complete}
use fast_llm.Runtime.{Config, Worker, polls, claim_limit}
use fast_llm.Runtime.Step.{
  Pc, idle, running, releasing, publishing, State, Step, root_skip, root_publish, claim, execute,
  release, decrement, publish, finish, Reach, target, queue_capacity,
}
use fast_llm.Runtime.Inv.{holds, uncounted, owes, queued, Inv}
use fast_llm.Runtime.Safety.{Reach-Inv}
use fast_llm.Runtime.Drained.{length-log}
use fast_llm.Runtime.Routed.{Publisher, Reach-Routed}
use fast_llm.Runtime.Room.{Pushes, root, consumer, push_has_room}

Pc-cases : (p : Pc) → (p ≡ idle) ⊎ (p ≢ idle)
Pc-cases idle = inl refl
Pc-cases (running todo done) = inr (λ e. cc)
Pc-cases (releasing batch slots) = inr (λ e. cc)
Pc-cases (publishing batch c slots) = inr (λ e. cc)

-- The first busy worker, if there is one.
busy_worker :
    (n : ℕ) (pc : ℕ → Pc) → ((w : ℕ) → w < n → pc w ≡ idle) ⊎ ((w : ℕ) × (w < n) × (pc w ≢ idle))
busy_worker zero pc = inl (λ w lt. absurd (omega arith))
busy_worker (suc n) pc = elim (busy_worker n pc) [
  | inr (w, lt, b) ↦ inr (w, omega arith, b)
  | inl none_below ↦ elim (Pc-cases (pc n)) [
    | inr b ↦ inr (n, omega arith, b)
    | inl i ↦ inl (λ w lt. elim (dec_lt w n) [
      | yes p ↦ none_below w p
      | no p ↦ let e : w ≡ n = omega arith in ap pc e ∙ i
    ])
  ]
]

list-cases : (l : List ℕ) → (l ≡ []) ⊎ ((x : ℕ) × (rest : List ℕ) × (l ≡ x ∷ rest))
list-cases [] = inl refl
list-cases (x ∷ rest) = inr (x, rest, refl)

full_queue :
    (n : ℕ) (queue : ℕ → List ℕ)
    → ((k : ℕ) → k < n → queue k ≡ [])
      ⊎ ((k : ℕ) × (k < n) × (x : ℕ) × (rest : List ℕ) × (queue k ≡ x ∷ rest))
full_queue zero queue = inl (λ k lt. absurd (omega arith))
full_queue (suc n) queue = elim (full_queue n queue) [
  | inr (k, lt, x, rest, e) ↦ inr (k, omega arith, x, rest, e)
  | inl none_below ↦ elim (list-cases (queue n)) [
    | inr (x, rest, e) ↦ inr (n, omega arith, x, rest, e)
    | inl i ↦ inl (λ k lt. elim (dec_lt k n) [
      | yes p ↦ none_below k p
      | no p ↦ let e : k ≡ n = omega arith in ap queue e ∙ i
    ])
  ]
]

module _ (cfg : Config) (tasks : ℕ → Task) (n terminal : ℕ) (worker : ℕ → Worker) (workers : ℕ)
    (wired : IsWired tasks n) where
  -- Wherever a task may be sent to, some worker takes tasks from there.
  abbrev pub Served : Type 0
  Served =
      (gpu : Bool)
      → Publisher cfg tasks n terminal worker workers wired gpu
      → (c : ℕ) → c < n
      → (w : ℕ) × (w < workers)
        × (polls cfg (worker w) (target cfg tasks n terminal worker workers c gpu) ≡ true)
        × (0 < claim_limit cfg (worker w))

  abbrev Next : State → Type 0
  Next s = (t : State) × Step cfg tasks n terminal worker workers s t

  module _ (s : State) (r : Reach cfg tasks n terminal worker workers s)
      (small : n ≤ queue_capacity) where
    v : Inv cfg tasks n terminal worker workers s
    v = Reach-Inv cfg tasks n terminal worker workers wired r

    room :
        {k c : ℕ}
        → Pushes cfg tasks n terminal worker workers s k c
        → length (s.queue k) < queue_capacity
    room {k} {c} = push_has_room cfg tasks n terminal worker workers wired r small k c

    root_step : s.next_root < n → Next s
    root_step lt = elim (ℕ_discrete (tasks s.next_root).dep_init 0) [
      | yes z ↦ (_, root_publish lt z (room (root lt z)))
      | no ne ↦ (_, root_skip lt ne)
    ]

    publish_step :
        (w batch c : ℕ) (slots : List (ℕ × ℕ))
        → w < workers
        → s.pc w ≡ publishing batch c slots
        → Next s
    publish_step w batch c slots lt e =
        (_, publish w batch c slots lt e (room (consumer w batch c slots lt e)))

    worker_step : (w : ℕ) → w < workers → (p : Pc) → s.pc w ≡ p → p ≢ idle → Next s
    worker_step w lt idle e b = absurd (b refl)
    worker_step w lt (running [] done) e b = (_, release w done lt e)
    worker_step w lt (running (x ∷ todo) done) e b = (_, execute w x todo done lt e)
    worker_step w lt (releasing batch []) e b = (_, finish w batch lt e)
    worker_step w lt (releasing batch ((c, m) ∷ slots)) e b = (_, decrement w batch c m slots lt e)
    worker_step w lt (publishing batch c slots) e b = publish_step w batch c slots lt e

    claim_step :
        Served
        → ((w : ℕ) → w < workers → s.pc w ≡ idle)
        → (k x : ℕ) (rest : List ℕ) → k < 4 + cfg.gpu_blocks
        → s.queue k ≡ x ∷ rest
        → Next s
    claim_step served at_rest k x rest lt e =
        let found =
          Reach-Routed cfg tasks n terminal worker workers wired r k x
            (ground (arith, ap (count x) e, count-cons x x rest)) in
        let taker = served found.0 found.2 x x_lt in
        (
          _,
          claim taker.0 k (x ∷ []) rest taker.1 (at_rest taker.0 taker.1)
              (ap (polls cfg (worker taker.0)) found.1 ∙ taker.2) (omega arith) taker.3 e,
        )
      where
        x_lt : x < n
        x_lt = elim (dec_lt x n) [
          | yes p ↦ p
          | no p ↦ absurd (
              ground (
                arith,
                v.outside x (omega arith),
                ap (count x) e,
                count-cons x x rest,
                total-ge (4 + cfg.gpu_blocks) (λ i. count x (s.queue i)) k lt,
              ))
        ]

    module _ (at_rest : (w : ℕ) → w < workers → s.pc w ≡ idle) (no_roots : ¬ s.next_root < n)
        (empty : (k : ℕ) → k < 4 + cfg.gpu_blocks → s.queue k ≡ []) where
      none_held : (f : Pc → ℕ) → f idle ≡ 0 → total workers (λ w. f (s.pc w)) ≡ 0
      none_held f z =
          total-cong workers (λ w. f (s.pc w)) (λ _. 0) (λ w p. ap f (at_rest w p) ∙ z)
          ∙ total-zero workers

      none_queued : (c : ℕ) → queued cfg tasks n terminal worker workers s c ≡ 0
      none_queued c =
          total-cong (4 + cfg.gpu_blocks) (λ k. count c (s.queue k)) (λ _. 0)
            (λ k p. ap (count c) (empty k p) ∙ count-nil c)
          ∙ total-zero (4 + cfg.gpu_blocks)

      finished : KahnInv tasks n s.dep_count [] s.log
      finished = record {
        left = λ c p. omega (arith, v.remaining c p, none_held (owes tasks c) refl);
        flags = λ c p.
            ground (arith, v.placed c p, none_queued c, none_held (holds c) refl, count-nil c);
        outside = λ c p. omega (arith, v.outside c p, count-nil c);
        ordered = v.ordered;
      }

      all_counted : (rank : ℕ → ℕ) → IsRank tasks n rank → s.n_done ≡ n
      all_counted rank h = omega (
        arith,
        v.counted,
        none_held uncounted refl,
        length-log cfg tasks n terminal worker workers wired s r,
        total-ones n (λ i. count i s.log)
            (λ i p.
              order_complete tasks n rank s.log s.dep_count h finished (suc (rank i)) i p
                (omega arith)),
      )

    -- As long as tasks are left, some step is possible, whatever the workers did before: the graph
    -- has a ranking, its tasks fit in a queue, and each task's queue is polled.
    pub progress : (rank : ℕ → ℕ) → IsRank tasks n rank → Served → (s.n_done ≡ n) ⊎ Next s
    progress rank h served = elim (busy_worker workers s.pc) [
      | inr (w, lt, b) ↦ inr (worker_step w lt (s.pc w) refl b)
      | inl at_rest ↦ elim (dec_lt s.next_root n) [
        | yes lt ↦ inr (root_step lt)
        | no le ↦ elim (full_queue (4 + cfg.gpu_blocks) s.queue) [
          | inr (k, lt, x, rest, e) ↦ inr (claim_step served at_rest k x rest lt e)
          | inl empty ↦ inl (all_counted at_rest le empty rank h)
        ]
      ]
    ]
