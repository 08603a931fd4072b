-- ===== src/Task.antt =====
-- include/fastllm/fastllm.h: engines, task kinds, weight formats and the task record.
-- A pointer is an address, and 0 is `nullptr`.
use fast_llm.Prelude.{ℕ, ◌+◌, Bool, true, false, List}

pub data Engine : Type 0 where
  gpu cpu any : Engine

-- `unnamed n` is the byte `13 + n`, which no enumerator names.
pub data TaskKind : Type 0 where
  stream_dot merge signal act_q8 stream_dot_idx rmsnorm add2 rope_ds2 kv_append : TaskKind
  attn_head router_sel silu_mul wmerge : TaskKind
  unnamed : ℕ → TaskKind

abbrev pub num_task_kinds : ℕ
num_task_kinds = 13

-- `(int)kind`
abbrev pub kind_code : TaskKind → ℕ
kind_code stream_dot = 0
kind_code merge = 1
kind_code signal = 2
kind_code act_q8 = 3
kind_code stream_dot_idx = 4
kind_code rmsnorm = 5
kind_code add2 = 6
kind_code rope_ds2 = 7
kind_code kv_append = 8
kind_code attn_head = 9
kind_code router_sel = 10
kind_code silu_mul = 11
kind_code wmerge = 12
kind_code (unnamed n) = 13 + n

pub data Fmt : Type 0 where
  f32 q8_0 q5_0 q4_k q6_k iq2_xxs iq3_xxs : Fmt

abbrev pub max_consumers : ℕ
max_consumers = 6

abbrev pub max_dot_cols : ℕ
max_dot_cols = 16

-- `consumers` holds the first `n_consumers` entries of the array of that name.
pub record Task : Type 0 where
  pub id : ℕ
  pub kind : TaskKind
  pub affinity : Engine
  pub fmt : Fmt
  pub consumers : List ℕ
  pub w : ℕ
  pub w_bytes : ℕ
  pub x : ℕ
  pub y : ℕ
  pub rows : ℕ
  pub cols : ℕ
  pub dep_init : ℕ
  pub dep_count : ℕ
  pub epoch : ℕ
  pub handoff_ts : ℕ
  pub aux : ℕ
  pub aux2 : ℕ
  pub nx : ℕ
  pub xstride : ℕ
  pub ystride : ℕ

-- Both kinds of dot product stream weights.
abbrev pub is_stream : TaskKind → Bool
is_stream stream_dot = true
is_stream stream_dot_idx = true
is_stream _ = false
