-- ===== src/Runtime.antt =====
-- Which queue a ready task goes to, and which queues a worker polls:
-- src/runtime/runtime_internal.h, src/runtime/runtime.cpp and src/runtime/gpu_exec.cu.
-- Queues 0 to 3 are `q[0..3]`; queue `4 + b` is the ring `gq[b]` of GPU block `b`.
pub mod Dedup
pub mod Step
pub mod Inv
pub mod Moves
pub mod Safety
pub mod Drained
pub mod Routed
pub mod Room
pub mod Progress
pub mod Work
pub mod Completion
pub mod Routing
pub mod Stall
pub mod Sweep
mod Tests
use fast_llm.Prelude.{
  ℕ, ◌+◌, ◌-◌, ◌/◌, ◌%◌, Bool, true, false, not, ◌&&◌, ◌||◌, Option, none, some, min, max, ltb, leb,
  ◌==◌, if◌then◌else◌,
}
use fast_llm.Prelude.Words.{u32}
use fast_llm.Task.{Task, Engine, kind_code, rmsnorm}
use fast_llm.Quants.{fmt_is_codebook}

-- The switches of `RtShared` that decide the routing.
pub record Config : Type 0 where
  pub gpu_enabled : Bool
  pub no_steal : Bool
  pub perblock_q : Bool
  pub perblock_chunk : ℕ
  pub gpu_blocks : ℕ
  pub gpu_batch : ℕ

-- What the caller and the environment ask for; a number below zero is a zero here.
pub record Settings : Type 0 where
  pub gpu : Bool
  pub no_steal : Bool  -- FASTLLM_NO_STEAL
  pub perblock_q : Bool  -- FASTLLM_PERBLOCK_Q
  pub perblock_chunk : Option ℕ  -- FASTLLM_PERBLOCK_CHUNK
  pub gpu_batch : ℕ

abbrev pub gpu_max_batch : ℕ
gpu_max_batch = 16

-- What the constructor stores; `launched` is the number of blocks that `gpu_start` reports.
unfoldable pub configure : Settings → ℕ → Config
configure r launched = record {
  gpu_enabled = r.gpu;
  no_steal = r.no_steal;
  perblock_q = r.perblock_q && r.gpu;
  perblock_chunk = elim r.perblock_chunk [ none ↦ 1 | some v ↦ if ltb 0 v then u32 v else 1 ];
  gpu_blocks = if r.gpu then launched else 0;
  gpu_batch = max 1 (min r.gpu_batch gpu_max_batch);
}

-- `fl_task_queue`
by_affinity : Engine → Bool → ℕ
by_affinity Engine.gpu gpu_enabled = 0
by_affinity Engine.cpu gpu_enabled = 1
by_affinity Engine.any gpu_enabled = if gpu_enabled then 0 else 1

unfoldable pub task_queue : Task → Bool → ℕ
unfolding by_affinity
task_queue t gpu_enabled =
    if leb (kind_code rmsnorm) (kind_code t.kind)
    then 2
    else if fmt_is_codebook t.fmt
    then (if gpu_enabled then 3 else 1)
    else by_affinity t.affinity gpu_enabled

-- The queue that `fl_publish` pushes the task `id` to.
unfoldable pub destination : Config → ℕ → Task → Bool → ℕ
destination cfg id t from_gpu =
    let cq = task_queue t (if from_gpu then true else cfg.gpu_enabled) in
    let nb = if cfg.perblock_q then cfg.gpu_blocks else 0 in
    let ch = if cfg.perblock_chunk == 0 then 1 else cfg.perblock_chunk in
    if cq == 0 && ltb 0 nb then 4 + id / ch % nb else cq

-- A thread of the CPU pool, or a block of the GPU grid.
pub data Worker : Type 0 where
  cpu_thread : Worker
  gpu_block : ℕ → Worker

abbrev pub from_gpu : Worker → Bool
from_gpu cpu_thread = false
from_gpu (gpu_block b) = true

abbrev pub is_ring : Config → ℕ → Bool
is_ring cfg k = leb 4 k && ltb k (4 + cfg.gpu_blocks)

-- The queues that the rounds of the worker's loop may try, in whatever order. Which ring is tried
-- first, and which of the peers' rings a block's round leaves out, is in `Sweep`.
unfoldable pub polls : Config → Worker → ℕ → Bool
polls cfg cpu_thread k =
    k == 2 || (k == 1 || (not cfg.no_steal && (if cfg.perblock_q then is_ring cfg k else k == 0)))
polls cfg (gpu_block b) k =
    k == 3
    || ((if cfg.perblock_q then k == 4 + b else k == 0)
        || (not cfg.no_steal && (k == 1 || (cfg.perblock_q && is_ring cfg k))))

-- How many tasks one claim takes at most.
abbrev pub claim_limit : Config → Worker → ℕ
claim_limit cfg cpu_thread = 1
claim_limit cfg (gpu_block b) = cfg.gpu_batch
