-- ===== src/Graph/Tests.antt =====
-- A small graph, and the theorems about graphs at it.
use fast_llm.Prelude.{ℕ, ◌≡◌, refl, some, List, [], ◌∷◌, true, false}
use fast_llm.Prelude.Result.{ok, err}
use fast_llm.Task.{Task, TaskKind, stream_dot, merge, signal, cpu, gpu, q8_0, f32}
use fast_llm.Prelude.Words.{u64}
use fast_llm.Quants.{row_bytes, blk_elems, blk_bytes}
use fast_llm.Graph.{
  Graph, cycle, create, put_task, put_edge, add, edge, freeze, scan, scan_visit, Metrics,
  run_serial, serial_visit, validate_from, validate_task,
}
use fast_llm.Graph.Build.{Built, created, added, edged, Built-IsValid, IsValid}
use fast_llm.Graph.Kahn.{drain, relax, roots}
use fast_llm.Graph.Kahn.Order.{IsRank}
use fast_llm.Graph.Freeze.{IsRunnable, freeze_sound, freeze_complete, freeze-cycle}
use fast_llm.Graph.Serial.{IsSchedule, exec_all, run_serial_sound}

-- `Task{}`, with a kind
abbrev task : TaskKind → Task
task k = record {
  id = 0;
  kind = k;
  affinity = cpu;
  fmt = f32;
  consumers = [];
  w = 0;
  w_bytes = 0;
  x = 0;
  y = 0;
  rows = 0;
  cols = 0;
  dep_init = 0;
  dep_count = 0;
  epoch = 0;
  handoff_ts = 0;
  aux = 0;
  aux2 = 0;
  nx = 1;
  xstride = 0;
  ystride = 0;
}

-- Two rows of 64 weights.
abbrev dot : Task
dot = record (task stream_dot) { fmt = q8_0; rows = 2; cols = 64; w_bytes = 136 }

abbrev empty : Graph
empty = record { tasks = λ _. task signal; max = 4; n = 0; terminal = 0; frozen = false }

abbrev three_tasks : Graph
three_tasks = put_task (put_task (put_task empty dot) (task merge)) (task signal)

-- dot → merge → signal, and dot → signal
abbrev pub chain : Graph
chain = put_edge (put_edge (put_edge three_tasks 0 1) 1 2) 0 2

-- dot → signal
abbrev pub pair : Graph
pair = put_edge (put_task (put_task empty dot) (task signal)) 0 1

-- The same, where the GPU is to run the first task.
abbrev pub gpu_pair : Graph
gpu_pair = put_edge (put_task (put_task empty (record dot { affinity = gpu })) (task signal)) 0 1

-- The chain, with an edge back.
abbrev looped : Graph
looped = put_edge (put_edge (put_edge three_tasks 0 1) 1 2) 1 0

three_tasks-Built : Built three_tasks
unfolding create add put_task
three_tasks-Built =
    added (task signal) (added (task merge) (added dot (created (λ _. task signal) 4) refl) refl)
      refl

pub chain-Built : Built chain
unfolding edge put_task put_edge
chain-Built = edged 0 2 (edged 1 2 (edged 0 1 three_tasks-Built refl) refl) refl

pub pair-Built : Built pair
unfolding create add edge put_task put_edge
pair-Built =
    edged 0 1 (added (task signal) (added dot (created (λ _. task signal) 4) refl) refl) refl

pub gpu_pair-Built : Built gpu_pair
unfolding create add edge put_task put_edge
gpu_pair-Built =
    edged 0 1
      (added (task signal)
        (added (record dot { affinity = gpu }) (created (λ _. task signal) 4) refl) refl)
      refl

looped-Built : Built looped
unfolding edge put_task put_edge
looped-Built = edged 1 0 (edged 1 2 (edged 0 1 three_tasks-Built refl) refl) refl

chain_open : (chain.frozen ≡ false) × (looped.frozen ≡ false)
unfolding put_task put_edge
chain_open = (refl, refl)

freeze-chain : freeze chain ≡ ok (record chain { terminal = 2; frozen = true })
unfolding put_task put_edge freeze scan drain relax roots scan_visit validate_from validate_task
    row_bytes blk_elems blk_bytes
freeze-chain = refl

freeze-looped : freeze looped ≡ err cycle
unfolding put_task put_edge freeze scan drain relax roots scan_visit validate_from validate_task
    row_bytes blk_elems blk_bytes
freeze-looped = refl

-- A program's action: it writes its id down.
abbrev note : Task → List ℕ → List ℕ
note t log = t.id ∷ log

run_serial-chain :
    (out : List ℕ × Metrics) × (run_serial note chain [] ≡ some out)
    × (out.0 ≡ 2 ∷ 1 ∷ 0 ∷ [])
    × (out.1.bytes ≡ 136)
unfolding put_task put_edge run_serial drain relax roots serial_visit
run_serial-chain = (_, refl, refl, refl)

Built-IsValid_example : IsValid chain
Built-IsValid_example = Built-IsValid chain-Built

freeze_sound_example :
    IsRunnable chain 2
    × (record chain { terminal = 2; frozen = true } ≡ record chain { terminal = 2; frozen = true })
freeze_sound_example = freeze_sound chain (Built-IsValid chain-Built) chain_open.0 freeze-chain

freeze_complete_example : freeze chain ≡ ok (record chain { terminal = 2; frozen = true })
freeze_complete_example =
    freeze_complete chain (Built-IsValid chain-Built) 2 chain_open.0
      (freeze_sound chain (Built-IsValid chain-Built) chain_open.0 freeze-chain).0

freeze-cycle_example :
    (freeze looped ≡ err cycle → (rank : ℕ → ℕ) → ¬ IsRank looped.tasks looped.n rank)
    × (((rank : ℕ → ℕ) → ¬ IsRank looped.tasks looped.n rank) → freeze looped ≡ err cycle)
freeze-cycle_example = freeze-cycle looped (Built-IsValid looped-Built) chain_open.1

run_serial_sound_example :
    (order : List ℕ) × (out : List ℕ × Metrics) × IsSchedule
      (record chain { terminal = 2; frozen = true })
      order
    × (run_serial note (record chain { terminal = 2; frozen = true }) [] ≡ some out)
    × (out.0 ≡ exec_all note chain.tasks [] order)
    × (out.1.tiles ≡ u64 chain.n)
run_serial_sound_example =
    run_serial_sound note chain [] (Built-IsValid chain-Built) chain_open.0 freeze-chain
