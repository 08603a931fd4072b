-- ===== src/Runtime/Moves/Publish.antt =====
-- The steps that move tasks between the graph, the queues and the workers keep the invariant.
use fast_llm.Prelude.{
  ℕ, ◌+◌, ◌<◌, ◌≡◌, ◌≢◌, ap, ◌∙◌, sym, ◌==◌, if◌then◌else◌, List, [], ◌∷◌, ◌++◌, length, update,
  length-append, count, count-nil, count-cons, count-append, arith, dec_lt,
}
use fast_llm.Prelude.Sums.{total, total-update}
use fast_llm.Task.{Task}
use fast_llm.Graph.Kahn.Inv.{IsWired}
use fast_llm.Runtime.{Config, Worker}
use fast_llm.Runtime.Dedup.{consumers_of}
use fast_llm.Runtime.Step.{idle, running, releasing, publishing, State}
use fast_llm.Runtime.Inv.{holds, owes, uncounted, unreported, queues, Inv}
use fast_llm.Runtime.Moves.{IsFine-update, stray-update}

module _ (cfg : Config) (tasks : ℕ → Task) (n terminal : ℕ) (worker : ℕ → Worker)
    (workers : ℕ) where
  abbrev Good : State → Type 0
  Good = Inv cfg tasks n terminal worker workers

  abbrev nq : ℕ
  nq = queues cfg tasks n terminal worker workers

  module _ (wired : IsWired tasks n) (s : State) (v : Good s) where
    pub root_skip-Inv :
        s.next_root < n
        → (tasks s.next_root).dep_init ≢ 0
        → Good (record s { next_root = s.next_root + 1 })
    root_skip-Inv lt ne = record {
      remaining = v.remaining;
      placed = λ c p. ground (arith, v.placed c p);
      outside = v.outside;
      ordered = v.ordered;
      counted = v.counted;
      flagged = v.flagged;
      fine = v.fine;
      stray = v.stray;
    }

    pub root_publish-Inv :
        (k : ℕ)
        → k < nq
        → s.next_root < n
        → (tasks s.next_root).dep_init ≡ 0
        → Good (record s {
          queue = update s.queue k (s.queue k ++ (s.next_root ∷ []));
          next_root = s.next_root + 1;
        })
    root_publish-Inv k hk lt z = record {
      remaining = v.remaining;
      placed =
          λ c p. ground (arith, v.placed c p, more c, count-cons c s.next_root [], count-nil c);
      outside =
          λ c p. ground (arith, v.outside c p, more c, count-cons c s.next_root [], count-nil c);
      ordered = v.ordered;
      counted = v.counted;
      flagged = v.flagged;
      fine = v.fine;
      stray = stray-update s.queue nq k (s.queue k ++ (s.next_root ∷ [])) v.stray hk;
    }
      where
        more :
            (c : ℕ)
            → total nq (λ i. count c (update s.queue k (s.queue k ++ (s.next_root ∷ [])) i))
              ≡ total nq (λ i. count c (s.queue i)) + count c (s.next_root ∷ [])
        more c = omega (
          arith,
          total-update (count c) nq s.queue k (s.queue k ++ (s.next_root ∷ [])) hk,
          count-append c (s.queue k) (s.next_root ∷ []),
        )

    pub claim-Inv :
        (w k : ℕ) (ids rest : List ℕ)
        → w < workers
        → s.pc w ≡ idle
        → 0 < length ids
        → s.queue k ≡ ids ++ rest
        → Good (record s { queue = update s.queue k rest; pc = update s.pc w (running ids []) })
    unfolding consumers_of
    claim-Inv w k ids rest lt e pos split = record {
      remaining = λ c p. ground (
        arith,
        v.remaining c p,
        total-update (owes tasks c) workers s.pc w (running ids []) lt,
        e,
        count-nil c,
      );
      placed = λ c p. ground (
        arith,
        v.placed c p,
        total-update (holds c) workers s.pc w (running ids []) lt,
        e,
        fewer c,
      );
      outside = λ c p. ground (
        arith,
        v.outside c p,
        total-update (holds c) workers s.pc w (running ids []) lt,
        total-update (owes tasks c) workers s.pc w (running ids []) lt,
        e,
        count-nil c,
        fewer c,
      );
      ordered = v.ordered;
      counted =
          ground (arith, v.counted, total-update uncounted workers s.pc w (running ids []) lt, e);
      flagged = ground (
        arith,
        v.flagged,
        total-update (unreported terminal) workers s.pc w (running ids []) lt,
        e,
        count-nil terminal,
      );
      fine = IsFine-update s.pc w (running ids []) v.fine (omega arith);
      stray = stray-update s.queue nq k rest v.stray hk;
    }
      where
        hk : k < nq
        hk = elim (dec_lt k nq) [
          | yes p ↦ p
          | no p ↦ absurd (
              omega
                (arith, ap length (sym split ∙ v.stray k (omega arith)), length-append ids rest))
        ]

        fewer :
            (c : ℕ)
            → total nq (λ i. count c (update s.queue k rest i)) + count c ids
              ≡ total nq (λ i. count c (s.queue i))
        fewer c = omega (
          arith,
          total-update (count c) nq s.queue k rest hk,
          ap (count c) split,
          count-append c ids rest,
        )

    pub publish-Inv :
        (w batch c k : ℕ) (slots : List (ℕ × ℕ))
        → w < workers
        → k < nq
        → s.pc w ≡ publishing batch c slots
        → Good (record s {
          queue = update s.queue k (s.queue k ++ (c ∷ []));
          pc = update s.pc w (releasing batch slots);
        })
    publish-Inv w batch c k slots lt hk e = record {
      remaining = λ j p. ground (
        arith,
        v.remaining j p,
        total-update (owes tasks j) workers s.pc w (releasing batch slots) lt,
        e,
      );
      placed = λ j p. ground (
        arith,
        v.placed j p,
        total-update (holds j) workers s.pc w (releasing batch slots) lt,
        more j,
        e,
      );
      outside = λ j p. ground (
        arith,
        v.outside j p,
        total-update (holds j) workers s.pc w (releasing batch slots) lt,
        total-update (owes tasks j) workers s.pc w (releasing batch slots) lt,
        more j,
        e,
      );
      ordered = v.ordered;
      counted =
          ground
            (arith, v.counted, total-update uncounted workers s.pc w (releasing batch slots) lt, e);
      flagged = ground (
        arith,
        v.flagged,
        total-update (unreported terminal) workers s.pc w (releasing batch slots) lt,
        e,
      );
      fine = IsFine-update s.pc w (releasing batch slots) v.fine (rw e at (v.fine w));
      stray = stray-update s.queue nq k (s.queue k ++ (c ∷ [])) v.stray hk;
    }
      where
        more :
            (j : ℕ)
            → total nq (λ i. count j (update s.queue k (s.queue k ++ (c ∷ [])) i))
              ≡ total nq (λ i. count j (s.queue i)) + (if c == j then 1 else 0)
        more j = omega (
          arith,
          total-update (count j) nq s.queue k (s.queue k ++ (c ∷ [])) hk,
          count-append j (s.queue k) (c ∷ []),
          count-cons j c [],
          count-nil j,
        )
