-- ===== src/Runtime/Routing.antt =====
-- The pool of CPU threads and GPU blocks that src/runtime/runtime.cpp starts, and whether it serves
-- every queue that a task may be sent to.
use native.Mathlib.Nat.{mod-lt}
use fast_llm.Prelude.{
  ℕ, zero, suc, ◌+◌, ◌-◌, ◌/◌, ◌%◌, ◌<◌, ◌≡◌, refl, ◌∙◌, sym, subst, Bool, true, false, ◌&&◌, ◌==◌,
  ltb, if◌then◌else◌, arith, Bool-cases, inl, inr, ◌⊎◌,
}
use fast_llm.Task.{Task}
use fast_llm.Graph.Kahn.Inv.{IsWired}
use fast_llm.Runtime.{
  Config, Settings, configure, Worker, cpu_thread, gpu_block, from_gpu, task_queue, by_affinity,
  destination, polls, claim_limit,
}
use fast_llm.Runtime.Moves.{task_queue-lt}
use fast_llm.Runtime.Routed.{Publisher}
use fast_llm.Runtime.Progress.{Served}

-- The threads that start() creates, and behind them the blocks that it launches.
unfoldable pub pool : ℕ → ℕ → Worker
pool threads w = if ltb w threads then cpu_thread else gpu_block (w - threads)

abbrev pub pool_size : Config → ℕ → ℕ
pool_size cfg threads = threads + (if cfg.gpu_enabled then cfg.gpu_blocks else 0)

-- What the constructor and start() establish.
record IsSetUp (cfg : Config) : Type 0 where
  rings_need_gpu : cfg.perblock_q ≡ true → cfg.gpu_enabled ≡ true
  launched : cfg.gpu_enabled ≡ true → 0 < cfg.gpu_blocks
  batch : 0 < cfg.gpu_batch

configure-IsSetUp :
    (r : Settings) (launched : ℕ) → (r.gpu ≡ true → 0 < launched) → IsSetUp (configure r launched)
unfolding configure
configure-IsSetUp r launched h = record {
  rings_need_gpu = λ e. ground (arith, e);
  launched = λ e. rw e (h e);
  batch = omega arith;
}

bool_clash : ¬ (false ≡ true)
bool_clash e = cc

gpu_only :
    {on : Bool} (gpu : Bool)
    → (gpu ≡ true → on ≡ true)
    → (if gpu then true else on) ≡ true
    → on ≡ true
gpu_only true able h = able refl
gpu_only false able h = h

task_queue-eq_three : (t : Task) (gpu : Bool) → task_queue t gpu ≡ 3 → gpu ≡ true
unfolding task_queue by_affinity
task_queue-eq_three t gpu h = ground arith

module _ (cfg : Config) (threads : ℕ) where
  Taker : ℕ → Type 0
  Taker k =
      (w : ℕ) × (w < pool_size cfg threads)
      × (polls cfg (pool threads w) k ≡ true)
      × (0 < claim_limit cfg (pool threads w))

  -- The first thread.
  by_thread : (k : ℕ) → 0 < threads → polls cfg cpu_thread k ≡ true → Taker k
  unfolding Taker pool
  by_thread k lt h =
      let e : ltb 0 threads ≡ true = ground arith in (0, ground arith, rw e h, rw e (omega arith))

  by_block :
      (k b : ℕ)
      → IsSetUp cfg
      → cfg.gpu_enabled ≡ true
      → b < cfg.gpu_blocks
      → polls cfg (gpu_block b) k ≡ true
      → Taker k
  unfolding Taker pool
  by_block k b setup on lt h =
      let e : ltb (threads + b) threads ≡ false = ground arith in
      let d : threads + b - threads ≡ b = omega arith in
      (threads + b, ground (arith, on), rw e (rw d h), rw e setup.batch)

  module _ (setup : IsSetUp cfg) (some_threads : 0 < threads)
      (taken : (cfg.gpu_enabled ≡ true) ⊎ (cfg.no_steal ≡ false)) where
    abbrev queue_of : ℕ → ℕ → ℕ
    queue_of cq x =
        let nb = if cfg.perblock_q then cfg.gpu_blocks else 0 in
        if cq == 0 && ltb 0 nb then 4 + x % nb else cq

    serve_queue : (cq x : ℕ) → cq < 4 → (cq ≡ 3 → cfg.gpu_enabled ≡ true) → Taker (queue_of cq x)
    unfolding polls
    serve_queue zero x lt three = elim (Bool-cases cfg.perblock_q) [
      | inl q ↦
          let on : cfg.gpu_enabled ≡ true = setup.rings_need_gpu q in
          let some_blocks : 0 < cfg.gpu_blocks = setup.launched on in
          let below : x % cfg.gpu_blocks < cfg.gpu_blocks = mod-lt x some_blocks in
          let here : ltb 0 cfg.gpu_blocks ≡ true = ground arith in
          let ring : queue_of 0 x ≡ 4 + x % cfg.gpu_blocks = rw q (rw here refl) in
          subst Taker (sym ring) (
            by_block (4 + x % cfg.gpu_blocks) (x % cfg.gpu_blocks) setup on below
              (ground (arith, q)))
      | inr q ↦
          let shared : queue_of 0 x ≡ 0 = rw q refl in
          subst Taker (sym shared) (elim (Bool-cases cfg.gpu_enabled) [
            | inl on ↦ by_block 0 0 setup on (setup.launched on) (ground (arith, q))
            | inr off ↦ by_thread 0 some_threads (ground (arith, q, off, taken))
          ])
    ]
    serve_queue (suc zero) x lt three = by_thread 1 some_threads refl
    serve_queue (suc (suc zero)) x lt three = by_thread 2 some_threads refl
    serve_queue (suc (suc (suc zero))) x lt three =
        by_block 3 0 setup (three refl) (setup.launched (three refl)) refl
    serve_queue (suc (suc (suc (suc cq)))) x lt three = absurd (omega arith)

    serve :
        (id : ℕ) (t : Task) (gpu : Bool)
        → (gpu ≡ true → cfg.gpu_enabled ≡ true)
        → Taker (destination cfg id t gpu)
    unfolding destination
    serve id t gpu able =
        serve_queue (task_queue t (if gpu then true else cfg.gpu_enabled))
          (id / (if cfg.perblock_chunk == 0 then 1 else cfg.perblock_chunk))
          (task_queue-lt t (if gpu then true else cfg.gpu_enabled))
          (λ e. gpu_only gpu able (task_queue-eq_three t (if gpu then true else cfg.gpu_enabled) e))

  -- A block of the pool exists only with the GPU on.
  pool-from_gpu :
      (w : ℕ)
      → w < pool_size cfg threads
      → from_gpu (pool threads w) ≡ true
      → cfg.gpu_enabled ≡ true
  unfolding pool
  pool-from_gpu w lt h = elim (Bool-cases (ltb w threads)) [
    | inl q ↦ absurd (bool_clash (rw q at h))
    | inr q ↦ ground arith
  ]

  gpu_able :
      (tasks : ℕ → Task) (n terminal : ℕ) (wired : IsWired tasks n) (g : Bool)
      → Publisher cfg tasks n terminal (pool threads) (pool_size cfg threads) wired g
      → g ≡ true
      → cfg.gpu_enabled ≡ true
  gpu_able tasks n terminal wired g (inl e) h = absurd (bool_clash (sym e ∙ h))
  gpu_able tasks n terminal wired g (inr (w, below, e)) h = pool-from_gpu w below e

-- Wherever a task is sent to, some worker of the pool takes it from there, whatever the settings are:
-- there is a CPU thread, the GPU, if it is on, has launched a block, and the GPU is on or stealing is
-- allowed.
pub pool-Served :
    (tasks : ℕ → Task) (n terminal : ℕ) (wired : IsWired tasks n) (r : Settings)
    (launched threads : ℕ)
    → 0 < threads
    → (r.gpu ≡ true → 0 < launched)
    → (r.gpu ≡ true) ⊎ (r.no_steal ≡ false)
    → let cfg = configure r launched in
      Served cfg tasks n terminal (pool threads) (pool_size cfg threads) wired
unfolding configure Taker
pool-Served tasks n terminal wired r launched threads some_threads some_blocks taken gpu who c lt =
    let cfg = configure r launched in
    serve cfg threads (configure-IsSetUp r launched some_blocks) some_threads taken c (tasks c) gpu
      (gpu_able cfg threads tasks n terminal wired gpu who)
