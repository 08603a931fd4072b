-- ===== src/Runtime/Moves/Release.antt =====
-- Releasing the consumers of a batch keeps the invariant.
use fast_llm.Prelude.{
  ℕ, ◌+◌, ◌-◌, ◌≤◌, ◌<◌, ◌≡◌, refl, Bool, true, false, ◌||◌, ◌==◌, if◌then◌else◌, List, [], ◌∷◌,
  length, update, count, count-nil, arith, dec_lt,
}
use fast_llm.Prelude.Sums.{total-update, total-ge}
use fast_llm.Task.{Task}
use fast_llm.Graph.Kahn.Inv.{IsWired}
use fast_llm.Runtime.{Config, Worker}
use fast_llm.Runtime.Dedup.{consumers_of, weight, AllPos}
use fast_llm.Runtime.Step.{Pc, idle, running, releasing, publishing, State, slots_of, holds_task}
use fast_llm.Runtime.Inv.{holds, owes, uncounted, unreported, IsFine, queues, Inv}
use fast_llm.Runtime.Moves.{IsFine-update, weight-slots_of, AllPos-slots_of, holds_task-count, once}

module _ (cfg : Config) (tasks : ℕ → Task) (n terminal : ℕ) (worker : ℕ → Worker)
    (workers : ℕ) where
  abbrev Good : State → Type 0
  Good = Inv cfg tasks n terminal worker workers

  abbrev nq : ℕ
  nq = queues cfg tasks n terminal worker workers

  module _ (wired : IsWired tasks n) (s : State) (v : Good s) where
    pub release-Inv :
        (w : ℕ) (done : List ℕ)
        → w < workers
        → s.pc w ≡ running [] done
        → Good (record s {
          pc = update s.pc w (releasing (length done) (slots_of tasks (worker w) done));
          done_flag = s.done_flag || holds_task terminal done;
        })
    release-Inv w done lt e = record {
      remaining = λ c p.
          ground (
            arith,
            v.remaining c p,
            total-update (owes tasks c) workers s.pc w after lt,
            e,
            same c,
          );
      placed = λ c p.
          ground
            (arith, v.placed c p, total-update (holds c) workers s.pc w after lt, e, count-nil c);
      outside = λ c p. ground (
        arith,
        v.outside c p,
        total-update (holds c) workers s.pc w after lt,
        total-update (owes tasks c) workers s.pc w after lt,
        e,
        same c,
        count-nil c,
      );
      ordered = v.ordered;
      counted = ground (arith, v.counted, total-update uncounted workers s.pc w after lt, e);
      flagged = ground (
        arith,
        v.flagged,
        total-update (unreported terminal) workers s.pc w after lt,
        e,
        holds_task-count terminal done,
        terminal_once,
      );
      fine = IsFine-update s.pc w after v.fine (batch_pos, AllPos-slots_of tasks (worker w) done);
      stray = v.stray;
    }
      where
        after : Pc
        after = releasing (length done) (slots_of tasks (worker w) done)

        same : (c : ℕ) → owes tasks c after ≡ count c (consumers_of tasks done)
        same c = weight-slots_of tasks (worker w) c done

        fine_before : IsFine (running [] done)
        fine_before = rw e at (v.fine w)

        batch_pos : 0 < length done
        batch_pos = omega (arith, fine_before)

        terminal_once : count terminal s.log ≤ 1
        terminal_once = once cfg tasks n terminal worker workers s v terminal

    pub decrement-Inv :
        (w batch c m : ℕ) (slots : List (ℕ × ℕ))
        → w < workers
        → s.pc w ≡ releasing batch ((c, m) ∷ slots)
        → Good (record s {
          dep_count = update s.dep_count c (s.dep_count c - m);
          pc =
              update s.pc w
                (if s.dep_count c == m then publishing batch c slots else releasing batch slots);
        })
    decrement-Inv w batch c m slots lt e = record {
      remaining = λ j p. ground (
        arith,
        v.remaining j p,
        v.remaining c c_lt,
        total-update (owes tasks j) workers s.pc w after lt,
        weights j,
        e,
        enough,
      );
      placed = λ j p. ground (
        arith,
        v.placed j p,
        v.placed c c_lt,
        total-update (holds j) workers s.pc w after lt,
        e,
        enough,
        positive.0,
      );
      outside = λ j p. ground (
        arith,
        v.outside j p,
        total-update (holds j) workers s.pc w after lt,
        total-update (owes tasks j) workers s.pc w after lt,
        weights j,
        e,
        c_lt,
      );
      ordered = v.ordered;
      counted = ground (arith, v.counted, total-update uncounted workers s.pc w after lt, e);
      flagged = ground (
        arith,
        v.flagged,
        total-update (unreported terminal) workers s.pc w after lt,
        e,
        silent (s.dep_count c == m),
      );
      fine = IsFine-update s.pc w after v.fine (fine_after (s.dep_count c == m));
      stray = v.stray;
    }
      where
        after : Pc
        after = if s.dep_count c == m then publishing batch c slots else releasing batch slots

        fine_before : IsFine (releasing batch ((c, m) ∷ slots))
        fine_before = rw e at (v.fine w)

        positive : AllPos ((c, m) ∷ slots)
        positive = fine_before.1

        silent :
            (b : Bool)
            → unreported terminal (if b then publishing batch c slots else releasing batch slots)
              ≡ 0
        silent true = refl
        silent false = refl

        fine_after :
            (b : Bool) → IsFine (if b then publishing batch c slots else releasing batch slots)
        fine_after true = (fine_before.0, positive.1)
        fine_after false = (fine_before.0, positive.1)

        weights : (j : ℕ) → owes tasks j after ≡ weight j slots
        weights j = ground arith

        debt : m ≤ owes tasks c (s.pc w)
        debt = ground (arith, e)

        c_lt : c < n
        c_lt = elim (dec_lt c n) [
          | yes p ↦ p
          | no p ↦ absurd (
              omega (
                arith,
                v.outside c (omega arith),
                debt,
                positive.0,
                total-ge workers (λ i. owes tasks c (s.pc i)) w lt,
              ))
        ]

        enough : m ≤ s.dep_count c
        enough =
            omega
              (arith, v.remaining c c_lt, debt, total-ge workers (λ i. owes tasks c (s.pc i)) w lt)

    pub finish-Inv :
        (w batch : ℕ)
        → w < workers
        → s.pc w ≡ releasing batch []
        → Good (record s { pc = update s.pc w idle; n_done = s.n_done + batch })
    finish-Inv w batch lt e = record {
      remaining = λ c p.
          ground (arith, v.remaining c p, total-update (owes tasks c) workers s.pc w idle lt, e);
      placed =
          λ c p. ground (arith, v.placed c p, total-update (holds c) workers s.pc w idle lt, e);
      outside = λ c p. ground (
        arith,
        v.outside c p,
        total-update (holds c) workers s.pc w idle lt,
        total-update (owes tasks c) workers s.pc w idle lt,
        e,
      );
      ordered = v.ordered;
      counted = ground (arith, v.counted, total-update uncounted workers s.pc w idle lt, e);
      flagged =
          ground (arith, v.flagged, total-update (unreported terminal) workers s.pc w idle lt, e);
      fine = IsFine-update s.pc w idle v.fine tt;
      stray = v.stray;
    }
