-- ===== src/Graph.antt =====
-- src/runtime/graph.cpp: the task table, its checks at freeze(), and the serial executor.
-- A failure of the program (`die`) is an error value.
pub mod Kahn
pub mod Build
pub mod Sinks
pub mod Order
pub mod Freeze
pub mod Serial
pub mod Tests
use fast_llm.Prelude.{
  ℕ, zero, suc, ◌+◌, ◌*◌, ◌%◌, ◌^◌, Bool, true, false, not, ◌&&◌, ◌||◌, Option, none, some, List,
  [], ◌∷◌, ◌++◌, ltb, leb, ◌==◌, if◌then◌else◌, length, update,
}
use fast_llm.Prelude.Result.{Result, ok, err, ◌>>=◌, ◌>>◌, die_if}
use fast_llm.Task.{
  Task, TaskKind, signal, stream_dot_idx, rmsnorm, kind_code, num_task_kinds, is_stream,
  max_consumers,
}
use fast_llm.Prelude.Words.{u64}
use fast_llm.Quants.{blk_elems, row_bytes}
use Kahn.{drain, roots}

pub data GraphError : Type 0 where
  add_after_freeze capacity_exceeded edge_after_freeze bad_edge fan_out_exceeded : GraphError
  cycle not_one_sink terminal_not_signal unknown_kind no_param_block : GraphError
  no_id_slot cols_not_blocks w_bytes_mismatch : GraphError
  no_fuel : GraphError  -- the model's own: the scan has fuel for every graph that `add` and `edge` build

-- `tasks` is the arena array, read below `n`.
pub record Graph : Type 0 where
  pub tasks : ℕ → Task
  pub max : ℕ
  pub n : ℕ
  pub terminal : ℕ
  pub frozen : Bool

unfoldable pub create : (ℕ → Task) → ℕ → Graph
create memory max_tasks = record {
  tasks = memory;
  max = max_tasks;
  n = 0;
  terminal = 0;
  frozen = false;
}

-- The stores of `add`: a copy of the task without its edges.
unfoldable pub put_task : Graph → Task → Graph
put_task g t = record g {
  tasks = update g.tasks g.n (record t {
    id = g.n;
    consumers = [];
    dep_init = 0;
    dep_count = 0;
    epoch = 0;
    handoff_ts = 0;
  });
  n = g.n + 1;
}

-- `add` returns the task's id beside the graph.
unfoldable pub add : Graph → Task → Result GraphError (Graph × ℕ)
add g t = do
  die_if g.frozen add_after_freeze
  die_if (leb g.max g.n) capacity_exceeded
  ok (put_task g t, g.n)

-- The stores of `edge`: first the producer's, then the consumer's.
unfoldable pub put_edge : Graph → ℕ → ℕ → Graph
put_edge g p c =
    let tp = g.tasks p in
    let tasks1 = update g.tasks p (record tp { consumers = tp.consumers ++ (c ∷ []) }) in
    let tc = tasks1 c in
    record g { tasks = update tasks1 c (record tc { dep_init = tc.dep_init + 1 }) }

unfoldable pub edge : Graph → ℕ → ℕ → Result GraphError Graph
edge g p c = do
  die_if g.frozen edge_after_freeze
  die_if (leb g.n p || leb g.n c || p == c) bad_edge
  die_if (leb max_consumers (length (g.tasks p).consumers)) fan_out_exceeded
  ok (put_edge g p c)

-- The local variables of the scan in `freeze`.
pub record Scan : Type 0 where
  pub seen : ℕ
  pub sinks : ℕ
  pub last_sink : ℕ

unfoldable pub scan_visit : (ℕ → Task) → ℕ → Scan → Scan
scan_visit tasks id s =
    if length (tasks id).consumers == 0
    then record { seen = s.seen + 1; sinks = s.sinks + 1; last_sink = id }
    else record s { seen = s.seen + 1 }

unfoldable pub scan : Graph → Option Scan
scan g =
    drain g.tasks (scan_visit g.tasks) (g.n + 1) (λ i. (g.tasks i).dep_init) (roots g.tasks g.n)
      (record { seen = 0; sinks = 0; last_sink = g.terminal })

abbrev pub is_signal : TaskKind → Bool
is_signal signal = true
is_signal _ = false

abbrev pub is_idx : TaskKind → Bool
is_idx stream_dot_idx = true
is_idx _ = false

-- One round of the last loop of `freeze`.
unfoldable pub validate_task : Task → Result GraphError (Unit {0})
validate_task t =
    if not (is_stream t.kind)
    then (do
      die_if (leb num_task_kinds (kind_code t.kind)) unknown_kind
      die_if (leb (kind_code rmsnorm) (kind_code t.kind) && t.aux == 0) no_param_block)
    else (do
      die_if (is_idx t.kind && (t.aux == 0 || t.aux2 == 0)) no_id_slot
      die_if (not (t.cols % blk_elems t.fmt == 0)) cols_not_blocks
      die_if (not (t.w_bytes == u64 (t.rows * row_bytes t.fmt t.cols))) w_bytes_mismatch)

-- The tasks from index `i` on, `k` of them.
unfoldable pub validate_from : (ℕ → Task) → ℕ → ℕ → Result GraphError (Unit {0})
validate_from tasks zero i = ok tt
validate_from tasks (suc k) i = validate_task (tasks i) >> validate_from tasks k (i + 1)

check_scan : Graph → Option Scan → Result GraphError Graph
check_scan g none = err no_fuel
check_scan g (some s) = do
  die_if (not (s.seen == g.n)) cycle
  die_if (not (s.sinks == 1)) not_one_sink
  die_if (not (is_signal (g.tasks s.last_sink).kind)) terminal_not_signal
  validate_from g.tasks g.n 0
  ok (record g { terminal = s.last_sink; frozen = true })

unfoldable pub freeze : Graph → Result GraphError Graph
unfolding check_scan
freeze g = if g.frozen then ok g else check_scan g (scan g)

-- What the serial executor counts, its clock readings aside.
pub record Metrics : Type 0 where
  pub tiles : ℕ
  pub bytes : ℕ
  pub kind_n : ℕ → ℕ

abbrev pub no_metrics : Metrics
no_metrics = record { tiles = 0; bytes = 0; kind_n = λ _. 0 }

-- `exec` is what one task does to the memory.
module _ {ℓ} {Mem : Type ℓ} (exec : Task → Mem → Mem) where
  unfoldable pub serial_visit : (ℕ → Task) → ℕ → Mem × Metrics → Mem × Metrics
  serial_visit tasks id (mem, m) =
      let t = tasks id in
      let k = kind_code t.kind in
      (
        exec t mem,
        record {
          tiles = u64 (m.tiles + 1);
          bytes = u64 (m.bytes + (if is_stream t.kind then t.w_bytes else 0));
          kind_n = update m.kind_n k (u64 (m.kind_n k + 1));
        },
      )

  unfoldable pub run_serial : Graph → Mem → Option (Mem × Metrics)
  run_serial g mem =
      drain g.tasks (serial_visit g.tasks) (g.n + 1) (λ i. (g.tasks i).dep_init) (roots g.tasks g.n)
        (mem, no_metrics)
