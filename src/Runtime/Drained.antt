-- ===== src/Runtime/Drained.antt =====
-- The condition on which run() returns (src/runtime/runtime.cpp), and what it means.
use fast_llm.Prelude.{
  ℕ, ◌+◌, ◌≤◌, ◌<◌, ◌≡◌, refl, ap, ◌∙◌, true, List, [], ◌∷◌, length, count, count-cons, arith,
  dec_lt,
}
use fast_llm.Prelude.Sums.{total, total-zero, total-cong, total-full, total-le, total-eq_zero}
use fast_llm.Task.{Task}
use fast_llm.Graph.Kahn.Inv.{IsWired}
use fast_llm.Graph.Kahn.Order.{length-total}
use fast_llm.Runtime.{Config, Worker}
use fast_llm.Runtime.Step.{Pc, idle, running, releasing, publishing, State, Reach}
use fast_llm.Runtime.Inv.{holds, uncounted, unreported, IsFine, queued, held, Inv}
use fast_llm.Runtime.Moves.{once}
use fast_llm.Runtime.Safety.{Reach-Inv}

list-eq_nil : (l : List ℕ) → ((c : ℕ) → count c l ≡ 0) → l ≡ []
list-eq_nil [] h = refl
list-eq_nil (x ∷ l) h = absurd (ground (arith, h x, count-cons x x l))

idle_of : (p : Pc) → IsFine p → ((c : ℕ) → holds c p ≡ 0) → uncounted p ≡ 0 → p ≡ idle
idle_of idle f h u = refl
idle_of (running todo done) f h u = absurd (omega (arith, f, u, ap length (list-eq_nil todo h)))
idle_of (releasing batch slots) f h u = absurd (omega (arith, f.0, u))
idle_of (publishing batch d slots) f h u = absurd (omega (arith, f.0, u))

module _ (cfg : Config) (tasks : ℕ → Task) (n terminal : ℕ) (worker : ℕ → Worker) (workers : ℕ)
    (wired : IsWired tasks n) where
  -- Nothing is left of a run.
  pub record IsDrained (s : State) : Type 0 where
    pub all : (i : ℕ) → i < n → count i s.log ≡ 1
    pub empty : (k : ℕ) → s.queue k ≡ []
    pub at_rest : (w : ℕ) → w < workers → s.pc w ≡ idle
    pub spent : (c : ℕ) → c < n → s.dep_count c ≡ 0
    pub finished : s.done_flag ≡ true

  module _ (s : State) (r : Reach cfg tasks n terminal worker workers s) where
    v : Inv cfg tasks n terminal worker workers s
    v = Reach-Inv cfg tasks n terminal worker workers wired r

    pub length-log : length s.log ≡ total n (λ i. count i s.log)
    length-log = length-total n s.log (λ c p. (v.outside c p).2)

    -- `n_done` never counts a task that was not executed, nor one twice.
    pub n_done-le : s.n_done ≤ n
    n_done-le = omega (
      arith,
      length-log,
      v.counted,
      total-le n (λ i. count i s.log) (λ i p. once cfg tasks n terminal worker workers s v i),
    )

    module _ (all_counted : s.n_done ≡ n) where
      full : (total n (λ i. count i s.log) ≡ n) × (total workers (λ w. uncounted (s.pc w)) ≡ 0)
      full = omega (
        arith,
        length-log,
        v.counted,
        total-le n (λ i. count i s.log) (λ i p. once cfg tasks n terminal worker workers s v i),
      )

      executed : (i : ℕ) → i < n → count i s.log ≡ 1
      executed =
          total-full n (λ i. count i s.log) (λ i p. once cfg tasks n terminal worker workers s v i)
            full.0

      nowhere :
          (c : ℕ)
          → (queued cfg tasks n terminal worker workers s c ≡ 0)
            × (held cfg tasks n terminal worker workers s c ≡ 0)
      nowhere c = elim (dec_lt c n) [
        | yes p ↦ ground (arith, v.placed c p, executed c p)
        | no p ↦ ground (arith, v.outside c (omega arith))
      ]

      empty : (k : ℕ) → s.queue k ≡ []
      empty k = elim (dec_lt k (4 + cfg.gpu_blocks)) [
        | yes p ↦
            list-eq_nil (s.queue k)
              (λ c. total-eq_zero (4 + cfg.gpu_blocks) (λ i. count c (s.queue i)) k p (nowhere c).0)
        | no p ↦ v.stray k (omega arith)
      ]

      at_rest : (w : ℕ) → w < workers → s.pc w ≡ idle
      at_rest w p =
          idle_of (s.pc w) (v.fine w)
            (λ c. total-eq_zero workers (λ i. holds c (s.pc i)) w p (nowhere c).1)
            (total-eq_zero workers (λ i. uncounted (s.pc i)) w p full.1)

      reported : total workers (λ w. unreported terminal (s.pc w)) ≡ 0
      reported =
          total-cong workers (λ w. unreported terminal (s.pc w)) (λ _. 0)
            (λ w p. rw (at_rest w p) refl)
          ∙ total-zero workers

      -- When `n_done` has reached the number of tasks, every task was executed exactly once, every
      -- queue is empty, every worker is idle, every counter is spent and `done_flag` is set: run()
      -- returns, and the next run() may reset the counters.
      pub drained : terminal < n → IsDrained s
      drained lt = record {
        all = executed;
        empty = empty;
        at_rest = at_rest;
        spent = λ c p. ground (arith, v.placed c p, executed c p);
        finished = ground (arith, v.flagged, reported, executed terminal lt);
      }
