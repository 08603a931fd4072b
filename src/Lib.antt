-- ===== src/Lib.antt =====
-- fast-llm: an inference engine that runs one frozen graph of tasks on a pool of CPU threads and a
-- persistent GPU kernel.
--
-- The parts and their modules:
--   Task           the task record of include/fastllm/fastllm.h. A pointer is a number, null is 0.
--   Floats         the `float` and the `double` of the source as parameters: types with operations.
--   Quants         src/runtime/quants.h: the block geometry of the weight formats, half precision on bits
--                  (Half), the canonical dot product of each format (Rows) beside the dequantizer of
--                  tests/test_quants.cpp (Reference), the quantizers of activations and where their
--                  blocks lie (Activations), and the integer dot products (IntDots). Codebooks holds the
--                  tables of src/model/iq_tables.h. Dequant is dequant_chunk() of
--                  src/runtime/kernels.h.
--   Arena          src/runtime/arena.cpp: `alloc` with its 64-bit masks and wrap-around.
--   Graph          src/runtime/graph.cpp: `add`, `edge`, `freeze` and `run_serial`. `Graph.Kahn` is the
--                  loop that `freeze` and `run_serial` have in common, a stack of ready tasks and a
--                  table of open dependencies.
--   Queue          src/runtime/queue.h: `push`, `pop` and `pop_bulk` on the cells, their sequence numbers
--                  and the 32-bit cursors, one call after the other.
--   Runtime        src/runtime/runtime.cpp, src/runtime/runtime_internal.h and the control flow of
--                  src/runtime/gpu_exec.cu: `configure` (the constructor's settings), `task_queue` and
--                  `destination` (fl_task_queue, fl_publish), `polls` and `Sweep` (where a worker looks
--                  for work), and `Step`, one run() as a relation between states. The host publishes
--                  the roots while the workers claim batches, execute them, release their consumers and
--                  count them in `n_done`; each access to shared memory is a step, and the steps of all
--                  workers interleave freely. `Dedup` is the epilogue of a GPU batch.
--   Gguf           src/model/gguf.cpp: the cursor over a model file and its walk over metadata values. The
--                  fuel bounds how deep arrays lie in one another.
--   Shadow         src/runtime/shadow.cpp and src/runtime/shadow.h: the registry of int8 copies with its
--                  lookup, the choice of the layout, and the division of rows among threads.
--                  `Unpack` is how packed rows become bytes, with the scalar dot products of
--                  src/runtime/kernels.h over them.
--   Spec           src/spec/suffix_index.h: `Spec.Suffix`, the hash chains that find what to draft, with
--                  their very hash, held against the brute-force search of tests/test_spec.cpp.
--                  `Spec.Controller` is src/spec/spec_controller.h, over doubles as a parameter.
--   Decode         tools/decode_main.cpp: how run_once() feeds the prompt and generates, plainly and with
--                  drafts, over the interface of src/model/decoder.h (`Decoder`) and a policy that
--                  says how much to draft (`Spec.Controller.policy`, or a fixed number). The suffix
--                  index that drafts is `Spec.Suffix`. `IsGreedy` is what a decoder promises.
--   Prelude        lists, sums, bits, words and results that the others share.
-- The parts meet in the tables that `add` and `edge` build: `Graph.Build` states when they are
-- well formed (IsValid), and its field `wired` is what the theorems about runs take as a
-- hypothesis. A run pushes and pops whole tasks; the cells behind that are in `Queue`.
--
-- Bounds and fuel: sizes and addresses wrap at 2^64 where the code's do, and the queue's cursors
-- at 2^32; `dep_count` is a natural number whose subtraction stops at 0. The loop of `Graph.Kahn`
-- has the number of tasks plus one as fuel, since each round visits one task and none is visited
-- twice. The loop that lengthens a match has as fuel the number of tokens before it, and the walk
-- along a hash chain has the cap that the code gives it. The queue's loops have any fuel above
-- zero, since a call that no other call overlaps never retries. A queue holds 65536 tasks, and a
-- graph of more is outside the theorems that say so. The speculative loop has the number of tokens
-- to generate plus one as fuel, since each pass emits one token at least.
--
-- Not modelled: what a task of a graph computes (a parameter of `run_serial`, and no part of a run's
-- state), clocks, metrics but for the serial executor's counts, the handoff stamps, the parking of
-- idle threads, teardown, and the abort after 60 seconds. In a run a queue is an atomic list; calls of
-- the queue that overlap, and memory order, are not modelled. Of the dot products the canonical and
-- the scalar integer ones are modelled, over floats as a parameter, and dequant_chunk(); the
-- vector code, attention, the code for the GPU, and the unpacking of rows in pairs are not. The
-- decoder is a parameter: the graph that it builds, its certified head and its tables are not
-- modelled, nor are the opening of model files, the calibration run, the command lines and the
-- benchmarks.
pub mod Prelude
pub mod Arena
pub mod Task
pub mod Floats
pub mod Quants
pub mod Gguf
pub mod Graph
pub mod Runtime
pub mod Queue
pub mod Shadow
pub mod Spec
pub mod Decode
