-- ===== src/Runtime/Stall.antt =====
-- With the GPU off and no stealing, a task for the GPU goes to a queue that no thread polls:
-- src/runtime/runtime_internal.h and src/runtime/runtime.cpp.
use fast_llm.Prelude.{
  ℕ, ◌<◌, ◌≡◌, ◌≢◌, refl, ap, ◌∙◌, sym, Bool, true, false, ◌==◌, if◌then◌else◌, leb, [], ◌∷◌, ◌++◌,
  length, update, count, count-nil, count-cons, count-append, arith, ℕ_discrete, Bool-cases, inl,
  inr,
}
use fast_llm.Task.{Task, kind_code, rmsnorm, gpu}
use fast_llm.Quants.{fmt_is_codebook}
use fast_llm.Graph.Kahn.Inv.{IsWired}
use fast_llm.Runtime.{Config, Worker, cpu_thread, task_queue, by_affinity, destination, polls}
use fast_llm.Runtime.Step.{
  Pc, idle, running, releasing, publishing, slots_of, State, start, root_skip, root_publish, claim,
  execute, release, decrement, publish, finish, Reach, here, next, target,
}
use fast_llm.Runtime.Routed.{Publisher, Reach-Routed}
use fast_llm.Runtime.Drained.{drained}
use fast_llm.Runtime.Work.{claims}

claims-update :
    (c w : ℕ) (pc : ℕ → Pc) (p : Pc)
    → ((i : ℕ) → claims c (pc i) ≡ 0)
    → claims c p ≡ 0
    → (i : ℕ) → claims c (update pc w p i) ≡ 0
claims-update c w pc p f h i = elim (Bool-cases (w == i)) [ inl q ↦ rw q h | inr q ↦ rw q (f i) ]

module _ (cfg : Config) (tasks : ℕ → Task) (n terminal workers : ℕ) (wired : IsWired tasks n)
    (off : cfg.gpu_enabled ≡ false) (strict : cfg.no_steal ≡ true) (c : ℕ) (below : c < n)
    (for_gpu : (tasks c).affinity ≡ gpu)
    (dot : leb (kind_code rmsnorm) (kind_code (tasks c).kind) ≡ false)
    (plain : fmt_is_codebook (tasks c).fmt ≡ false) (no_rings : cfg.perblock_q ≡ false) where
  abbrev all_cpu : ℕ → Worker
  all_cpu w = cpu_thread

  sent_to_zero : destination cfg c (tasks c) false ≡ 0
  unfolding destination task_queue by_affinity
  sent_to_zero = rw dot (rw plain (rw for_gpu (rw no_rings refl)))

  never_polled : polls cfg cpu_thread 0 ≡ false
  unfolding polls
  never_polled = rw strict refl

  abbrev IsStuck : State → Type 0
  IsStuck s = ((w : ℕ) → claims c (s.pc w) ≡ 0) × (count c s.log ≡ 0)

  -- The task is in queue 0, if it is in any.
  only_zero :
      {s : State} (r : Reach cfg tasks n terminal all_cpu workers s) (k : ℕ)
      → polls cfg cpu_thread k ≡ true
      → count c (s.queue k) ≡ 0
  only_zero {s} r k polled = elim (ℕ_discrete (count c (s.queue k)) 0) [
    | yes z ↦ z
    | no some ↦
        let (gpu', at, who) =
          Reach-Routed cfg tasks n terminal all_cpu workers wired r k c (omega arith) in
        absurd (misplaced gpu' at who)
  ]
    where
      clash : ¬ (true ≡ false)
      clash e = cc

      misplaced :
          (gpu' : Bool)
          → k ≡ target cfg tasks n terminal all_cpu workers c gpu'
          → ¬ Publisher cfg tasks n terminal all_cpu workers wired gpu'
      misplaced gpu' at (inl e) = clash (
          sym polled
          ∙ ap (polls cfg cpu_thread) (at ∙ ap (destination cfg c (tasks c)) e ∙ sent_to_zero)
          ∙ never_polled)
      misplaced gpu' at (inr (w, lt, e)) = clash (sym e)

  stuck : {s : State} → Reach cfg tasks n terminal all_cpu workers s → IsStuck s
  unfolding start
  stuck here = (λ w. refl, count-nil c)
  stuck (next r (root_skip lt ne)) = stuck r
  stuck (next r (root_publish lt z room)) = stuck r
  stuck (next {s} r (claim w k ids rest lt e can pos limit split)) = (
    claims-update c w s.pc (running ids []) (stuck r).0
        (omega (arith, only_zero r k can, ap (count c) split, count-append c ids rest)),
    (stuck r).1,
  )
  stuck (next {s} r (execute w x todo done lt e)) =
      let carried : count c (x ∷ todo) ≡ 0 = rw e at ((stuck r).0 w) in
      (
        claims-update c w s.pc (running todo (done ++ (x ∷ []))) (stuck r).0
            (omega (arith, carried, count-cons c x todo)),
        omega (arith, carried, count-cons c x todo, count-cons c x s.log, (stuck r).1),
      )
  stuck (next {s} r (release w done lt e)) = (
    claims-update c w s.pc (releasing (length done) (slots_of tasks cpu_thread done)) (stuck r).0
        refl,
    (stuck r).1,
  )
  stuck (next {s} r (decrement w batch d m slots lt e)) = (
    claims-update c w s.pc
        (if s.dep_count d == m then publishing batch d slots else releasing batch slots) (stuck r).0
        (ground arith),
    (stuck r).1,
  )
  stuck (next {s} r (publish w batch d slots lt e room)) =
      (claims-update c w s.pc (releasing batch slots) (stuck r).0 refl, (stuck r).1)
  stuck (next {s} r (finish w batch lt e)) =
      (claims-update c w s.pc idle (stuck r).0 refl, (stuck r).1)

  -- With the GPU off and stealing forbidden, a graph with a task of GPU affinity (an ordinary one,
  -- not in a codebook format) is never run to its end: the task is never executed, and `n_done` never
  -- reaches the number of tasks.
  pub no_steal_stalls :
      {s : State}
      → Reach cfg tasks n terminal all_cpu workers s
      → terminal < n
      → (count c s.log ≡ 0) × (s.n_done ≢ n)
  no_steal_stalls {s} r lt = (
    (stuck r).1,
    λ e. absurd (
        omega (
          arith,
          (stuck r).1,
          (drained cfg tasks n terminal all_cpu workers wired s r e lt).all c below,
        )),
  )
