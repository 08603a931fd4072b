-- ===== src/Runtime/Safety.antt =====
-- What holds in every state that a run can reach, under any interleaving.
use fast_llm.Prelude.{ℕ, ◌+◌, ◌≤◌, ◌<◌, ◌≡◌, refl, ◌∙◌, false, [], count, count-nil, arith}
use fast_llm.Prelude.Sums.{total, total-zero, total-cong}
use fast_llm.Task.{Task}
use fast_llm.Graph.Kahn.Inv.{calls, missing-nil, IsWired}
use fast_llm.Graph.Kahn.Order.{position, IsOrdered-before}
use fast_llm.Runtime.{Config, Worker}
use fast_llm.Runtime.Step.{
  State, start, Step, root_skip, root_publish, claim, execute, release, decrement, publish, finish,
  Reach, here, next,
}
use fast_llm.Runtime.Inv.{owed, Inv}
use fast_llm.Runtime.Moves.{destination-lt, once}
use fast_llm.Runtime.Moves.Publish.{root_skip-Inv, root_publish-Inv, claim-Inv, publish-Inv}
use fast_llm.Runtime.Moves.Execute.{execute-Inv}
use fast_llm.Runtime.Moves.Release.{release-Inv, decrement-Inv, finish-Inv}

module _ (cfg : Config) (tasks : ℕ → Task) (n terminal : ℕ) (worker : ℕ → Worker) (workers : ℕ)
    (wired : IsWired tasks n) where
  abbrev Good : State → Type 0
  Good = Inv cfg tasks n terminal worker workers

  abbrev Run : State → Type 0
  Run = Reach cfg tasks n terminal worker workers

  start-Inv : Good (start cfg tasks n terminal worker workers)
  unfolding start
  start-Inv = record {
    remaining = λ c p. omega (arith, wired.counted c p, missing-nil tasks n c, total-zero workers);
    placed = λ c p. ground (arith, count-nil c, total-zero workers, nothing c);
    outside = λ c p. ground (arith, count-nil c, total-zero workers, nothing c);
    ordered = tt;
    counted = omega (arith, total-zero workers);
    flagged = omega (arith, total-zero workers, count-nil terminal);
    fine = λ w. tt;
    stray = λ k p. refl;
  }
    where
      nothing : (c : ℕ) → total (4 + cfg.gpu_blocks) (λ k. count c []) ≡ 0
      nothing c =
          total-cong (4 + cfg.gpu_blocks) (λ k. count c []) (λ _. 0) (λ k p. count-nil c)
          ∙ total-zero (4 + cfg.gpu_blocks)

  -- Every step keeps the invariant.
  Step-Inv : {s t : State} → Step cfg tasks n terminal worker workers s t → Good s → Good t
  Step-Inv {s} (root_skip lt ne) v =
      root_skip-Inv cfg tasks n terminal worker workers wired s v lt ne
  Step-Inv {s} (root_publish lt z room) v =
      root_publish-Inv cfg tasks n terminal worker workers wired s v _
        (destination-lt cfg s.next_root (tasks s.next_root) false) lt z
  Step-Inv {s} (claim w k ids rest lt e can pos limit split) v =
      claim-Inv cfg tasks n terminal worker workers wired s v w k ids rest lt e pos split
  Step-Inv {s} (execute w x todo done lt e) v =
      execute-Inv cfg tasks n terminal worker workers wired s v w x todo done lt e
  Step-Inv {s} (release w done lt e) v =
      release-Inv cfg tasks n terminal worker workers wired s v w done lt e
  Step-Inv {s} (decrement w batch c m slots lt e) v =
      decrement-Inv cfg tasks n terminal worker workers wired s v w batch c m slots lt e
  Step-Inv {s} (publish w batch c slots lt e room) v =
      publish-Inv cfg tasks n terminal worker workers wired s v w batch c _ slots lt
        (destination-lt cfg c (tasks c) _) e
  Step-Inv {s} (finish w batch lt e) v =
      finish-Inv cfg tasks n terminal worker workers wired s v w batch lt e

  pub Reach-Inv : {s : State} → Run s → Good s
  Reach-Inv here = start-Inv
  Reach-Inv (next r st) = Step-Inv st (Reach-Inv r)

  -- However the workers interleave, no task is executed twice, and each executed task was executed
  -- after all its producers.
  pub executed_in_order :
      {s : State}
      → Run s
      → ((c : ℕ) → count c s.log ≤ 1)
        × ((p c : ℕ)
            → p < n
            → 0 < calls tasks p c
            → 0 < count c s.log
            → (0 < count p s.log) × (position s.log p < position s.log c))
  executed_in_order {s} r =
      let v : Good s = Reach-Inv r in
      let single = once cfg tasks n terminal worker workers s v in
      (single, λ p c lt e h. IsOrdered-before tasks n s.log p c v.ordered single lt e h)

  -- No counter underflows: a counter is never below what the workers still subtract from it.
  pub dep_count-ge :
      {s : State}
      → Run s
      → (c : ℕ) → c < n
      → owed cfg tasks n terminal worker workers s c ≤ s.dep_count c
  dep_count-ge r c p = omega (arith, (Reach-Inv r).remaining c p)
