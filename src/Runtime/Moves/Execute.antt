-- ===== src/Runtime/Moves/Execute.antt =====
-- Executing a task keeps the invariant.
use fast_llm.Prelude.{
  ℕ, ◌≤◌, ◌<◌, ◌≡◌, List, [], ◌∷◌, ◌++◌, update, length-append, count, count-nil, count-cons,
  count-append, arith, dec_lt,
}
use fast_llm.Prelude.Sums.{total-update, total-ge}
use fast_llm.Task.{Task}
use fast_llm.Graph.Kahn.Inv.{calls, missing-cons, IsWired}
use fast_llm.Runtime.{Config, Worker}
use fast_llm.Runtime.Dedup.{count-consumers_of-append}
use fast_llm.Runtime.Step.{Pc, running, State}
use fast_llm.Runtime.Inv.{holds, owes, uncounted, unreported, queues, Inv}
use fast_llm.Runtime.Moves.{IsFine-update}

module _ (cfg : Config) (tasks : ℕ → Task) (n terminal : ℕ) (worker : ℕ → Worker)
    (workers : ℕ) where
  abbrev Good : State → Type 0
  Good = Inv cfg tasks n terminal worker workers

  abbrev nq : ℕ
  nq = queues cfg tasks n terminal worker workers

  module _ (wired : IsWired tasks n) (s : State) (v : Good s) where
    pub execute-Inv :
        (w x : ℕ) (todo done : List ℕ)
        → w < workers
        → s.pc w ≡ running (x ∷ todo) done
        → Good (record s { pc = update s.pc w (running todo (done ++ (x ∷ []))); log = x ∷ s.log })
    execute-Inv w x todo done lt e = record {
      remaining = λ c p. ground (
        arith,
        v.remaining c p,
        total-update (owes tasks c) workers s.pc w after lt,
        e,
        count-consumers_of-append tasks c x done,
        missing-cons tasks n x s.log c x_lt fresh.0,
      );
      placed = λ c p. ground (
        arith,
        v.placed c p,
        total-update (holds c) workers s.pc w after lt,
        e,
        count-cons c x todo,
        count-cons c x s.log,
      );
      outside = λ c p. ground (
        arith,
        v.outside c p,
        total-update (holds c) workers s.pc w after lt,
        total-update (owes tasks c) workers s.pc w after lt,
        e,
        count-cons c x todo,
        count-cons c x s.log,
        count-consumers_of-append tasks c x done,
        quiet c p,
      );
      ordered = (omega (arith, v.remaining x x_lt, fresh.1), v.ordered);
      counted = ground (
        arith,
        v.counted,
        total-update uncounted workers s.pc w after lt,
        e,
        length-append done (x ∷ []),
      );
      flagged = ground (
        arith,
        v.flagged,
        total-update (unreported terminal) workers s.pc w after lt,
        e,
        count-cons terminal x s.log,
        count-append terminal done (x ∷ []),
        count-cons terminal x [],
        count-nil terminal,
      );
      fine = IsFine-update s.pc w after v.fine (omega (arith, length-append done (x ∷ [])));
      stray = v.stray;
    }
      where
        after : Pc
        after = running todo (done ++ (x ∷ []))

        here : 0 < holds x (s.pc w)
        here = ground (arith, e, count-cons x x todo)

        x_lt : x < n
        x_lt = elim (dec_lt x n) [
          | yes p ↦ p
          | no p ↦ absurd (
              omega (
                arith,
                v.outside x (omega arith),
                here,
                total-ge workers (λ i. holds x (s.pc i)) w lt,
              ))
        ]

        fresh : (count x s.log ≡ 0) × (s.dep_count x ≡ 0)
        fresh = ground (arith, v.placed x x_lt, here, total-ge workers (λ i. holds x (s.pc i)) w lt)

        quiet : (c : ℕ) → n ≤ c → count c (tasks x).consumers ≡ 0
        quiet c p = elim (dec_lt 0 (calls tasks x c)) [
          | yes q ↦ absurd (omega (arith, wired.inside x c x_lt q))
          | no q ↦ omega arith
        ]
