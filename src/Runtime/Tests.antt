-- ===== src/Runtime/Tests.antt =====
-- A run of a small graph by two CPU threads, and the theorems about runs at it.
use fast_llm.Prelude.{
  ℕ, zero, suc, ◌+◌, ◌*◌, ◌≤◌, ◌<◌, ◌≡◌, ◌≢◌, refl, ap, ◌++◌, true, false, if◌then◌else◌, ◌==◌,
  none, some, List, [], ◌∷◌, length, count, count-cons, count-nil, arith, inl, inr, ◌⊎◌,
}
use fast_llm.Prelude.Sums.{total}
use fast_llm.Quants.{fmt_is_codebook}
use fast_llm.Graph.{put_task, put_edge}
use fast_llm.Graph.Build.{Built-IsValid}
use fast_llm.Graph.Kahn.Inv.{IsWired, calls}
use fast_llm.Graph.Kahn.Order.{IsRank, position}
use fast_llm.Graph.Tests.{pair, pair-Built, gpu_pair, gpu_pair-Built}
use fast_llm.Runtime.{
  Config, Settings, configure, cpu_thread, from_gpu, destination, task_queue, by_affinity, polls,
}
use fast_llm.Runtime.Dedup.{consumers_of, one_by_one, tally, weight, weight-tally}
use fast_llm.Runtime.Step.{
  idle, running, publishing, State, start, Step, root_skip, root_publish, claim, execute, release,
  decrement, publish, finish, Reach, here, next, queue_capacity, target,
}
use fast_llm.Runtime.Inv.{owed}
use fast_llm.Runtime.Safety.{executed_in_order, dep_count-ge}
use fast_llm.Runtime.Drained.{IsDrained, drained}
use fast_llm.Runtime.Room.{consumer, push_has_room}
use fast_llm.Runtime.Progress.{Served, progress}
use fast_llm.Runtime.Completion.{Run, stay, go, steps_bounded, completes}
use fast_llm.Runtime.Routing.{pool, pool_size, pool-Served}
use fast_llm.Runtime.Stall.{no_steal_stalls}
use fast_llm.Runtime.Sweep.{
  cpu_sweep, gpu_sweep, Found, cpu_sweep_covers, cpu_sweep_finds, gpu_sweep_skips,
}

abbrev cpu_settings : Settings
cpu_settings = record {
  gpu = false;
  no_steal = false;
  perblock_q = false;
  perblock_chunk = none;
  gpu_batch = 1;
}

abbrev cpu_only : Config
cpu_only = record {
  gpu_enabled = false;
  no_steal = false;
  perblock_q = false;
  perblock_chunk = 1;
  gpu_blocks = 0;
  gpu_batch = 1;
}

abbrev Reached : State → Type 0
Reached = Reach cpu_only pair.tasks 2 1 (pool 2) 2

one_ne : ◌≢◌ {A = ℕ} 1 0
one_ne e = omega arith

-- The root is in the CPU's queue.
reach_published :
    (s : State) × Reached s
    × (s.queue 1 ≡ 0 ∷ [])
    × (s.next_root ≡ 2)
    × (s.pc 0 ≡ idle)
    × (s.pc 1 ≡ idle)
    × (s.dep_count 1 ≡ 1)
    × (s.log ≡ [])
    × (s.n_done ≡ 0)
unfolding start put_task put_edge destination task_queue by_affinity fmt_is_codebook
reach_published =
    let r1 = next here (root_publish (omega arith) refl (omega arith)) in
    let r2 = next r1 (root_skip (omega arith) one_ne) in
    (_, r2, refl, refl, refl, refl, refl, refl, refl)

-- The first worker has executed it.
reach_released :
    (s : State) × Reached s
    × (s.queue 1 ≡ [])
    × (s.pc 0 ≡ publishing 1 1 [])
    × (s.pc 1 ≡ idle)
    × (s.dep_count 1 ≡ 0)
    × (s.log ≡ 0 ∷ [])
    × (s.n_done ≡ 0)
unfolding put_task put_edge polls pool consumers_of one_by_one
reach_released =
    let (s, r2, q, root, pc, pc1, d, l, nd) = reach_published in
    let r3 = next r2 (claim 0 1 (0 ∷ []) [] (omega arith) pc refl (omega arith) (omega arith) q) in
    let r4 = next r3 (execute 0 0 [] [] (omega arith) refl) in
    let r5 = next r4 (release 0 (0 ∷ []) (omega arith) refl) in
    let r6 = next r5 (decrement 0 1 1 1 [] (omega arith) refl) in
    (_, r6, refl, rw d refl, pc1, omega (arith, d), ap (λ (l : List ℕ). 0 ∷ l) l, nd)

-- The second worker has taken the other task.
reach_claimed :
    (s : State) × Reached s
    × (s.pc 0 ≡ idle)
    × (s.pc 1 ≡ running (1 ∷ []) [])
    × (s.log ≡ 0 ∷ [])
    × (s.n_done ≡ 1)
unfolding put_task put_edge destination task_queue by_affinity fmt_is_codebook polls pool
reach_claimed =
    let (s, r6, q, pc, pc1, d, l, nd) = reach_released in
    let r7 =
      next r6
        (publish 0 1 1 [] (omega arith) pc (omega (arith, ap (λ (l : List ℕ). length l) q))) in
    let r8 = next r7 (finish 0 1 (omega arith) refl) in
    let r9 = next r8 (
      claim 1 1 (1 ∷ []) [] (omega arith) pc1 refl (omega arith) (omega arith)
        (ap (λ (l : List ℕ). l ++ (1 ∷ [])) q)) in
    (_, r9, refl, refl, l, omega (arith, nd))

reach_end : (s : State) × Reached s × (s.log ≡ 1 ∷ 0 ∷ []) × (s.n_done ≡ 2)
unfolding put_task put_edge pool consumers_of one_by_one
reach_end =
    let (s, r9, pc, pc1, l, nd) = reach_claimed in
    let r10 = next r9 (execute 1 1 [] [] (omega arith) pc1) in
    let r11 = next r10 (release 1 (1 ∷ []) (omega arith) refl) in
    let r12 = next r11 (finish 1 1 (omega arith) refl) in
    (_, r12, ap (λ (l : List ℕ). 1 ∷ l) l, omega (arith, nd))

pair_wired : IsWired pair.tasks 2
unfolding put_task put_edge
pair_wired = (Built-IsValid pair-Built).wired

pair_ranked : IsRank pair.tasks 2 (λ i. i)
unfolding put_task put_edge
pair_ranked zero zero lt lt' h = absurd (ground (arith, h, count-cons 0 1 [], count-nil 0))
pair_ranked zero (suc c) lt lt' h = omega arith
pair_ranked (suc zero) c lt lt' h = absurd (ground (arith, h, count-nil c))
pair_ranked (suc (suc p)) c lt lt' h = absurd (omega arith)

true_clash : ¬ (false ≡ true)
true_clash e = cc

served : Served cpu_only pair.tasks 2 1 (pool 2) 2 pair_wired
unfolding configure
served =
    pool-Served pair.tasks 2 1 pair_wired cpu_settings 0 2 (omega arith)
      (λ e. absurd (true_clash e)) (inr refl)

executed_in_order_example :
    let s = reach_end.0 in
    ((c : ℕ) → count c s.log ≤ 1)
    × ((p c : ℕ)
        → p < 2
        → 0 < calls pair.tasks p c
        → 0 < count c s.log
        → (0 < count p s.log) × (position s.log p < position s.log c))
executed_in_order_example =
    executed_in_order cpu_only pair.tasks 2 1 (pool 2) 2 pair_wired reach_end.1

drained_example : IsDrained cpu_only pair.tasks 2 1 (pool 2) 2 pair_wired reach_end.0
drained_example =
    drained cpu_only pair.tasks 2 1 (pool 2) 2 pair_wired reach_end.0 reach_end.1 reach_end.3
      (omega arith)

dep_count-ge_example :
    owed cpu_only pair.tasks 2 1 (pool 2) 2 reach_claimed.0 1 ≤ reach_claimed.0.dep_count 1
dep_count-ge_example =
    dep_count-ge cpu_only pair.tasks 2 1 (pool 2) 2 pair_wired reach_claimed.1 1 (omega arith)

-- The first worker is about to push the second task.
push_has_room_example :
    length
      (reach_released.0.queue (target cpu_only pair.tasks 2 1 (pool 2) 2 1 (from_gpu (pool 2 0))))
    < queue_capacity
push_has_room_example =
    push_has_room cpu_only pair.tasks 2 1 (pool 2) 2 pair_wired reach_released.1 (omega arith) _ 1
      (consumer 0 1 1 [] (omega arith) reach_released.3)

progress_example :
    (reach_claimed.0.n_done ≡ 2)
    ⊎ ((t : State) × Step cpu_only pair.tasks 2 1 (pool 2) 2 reach_claimed.0 t)
progress_example =
    progress cpu_only pair.tasks 2 1 (pool 2) 2 pair_wired reach_claimed.0 reach_claimed.1
      (omega arith) (λ i. i) pair_ranked served

completes_example :
    (k : ℕ) × (t : State) × Run cpu_only pair.tasks 2 1 (pool 2) 2 reach_claimed.0 k t
    × IsDrained cpu_only pair.tasks 2 1 (pool 2) 2 pair_wired t
completes_example =
    completes cpu_only pair.tasks 2 1 (pool 2) 2 pair_wired (λ i. i) pair_ranked served
      (omega arith) (omega arith) reach_claimed.1

first_steps :
    (t : State) × Run cpu_only pair.tasks 2 1
      (pool 2)
      2
      (start cpu_only pair.tasks 2 1 (pool 2) 2)
      2
      t
unfolding start put_task put_edge destination task_queue by_affinity fmt_is_codebook
first_steps = (
  _,
  go (go stay (root_publish (omega arith) refl (omega arith))) (root_skip (omega arith) one_ne),
)

steps_bounded_example : 2 ≤ 5 * 2 + 2 * total 2 (λ c. length (pair.tasks c).consumers)
steps_bounded_example = steps_bounded cpu_only pair.tasks 2 1 (pool 2) 2 pair_wired first_steps.1

-- The GPU and the CPU, with a ring for each of four blocks, in chunks of two tasks.
abbrev with_rings : Settings
with_rings = record cpu_settings { gpu = true; perblock_q = true; perblock_chunk = some 2 }

pool-Served_example :
    let cfg = configure with_rings 4 in
    Served cfg pair.tasks 2 1 (pool 12) (pool_size cfg 12) pair_wired
pool-Served_example =
    pool-Served pair.tasks 2 1 pair_wired with_rings 4 12 (omega arith) (λ e. omega arith)
      (inl refl)

weight-tally_example :
    weight 7 (tally ((5, 1) ∷ []) (7 ∷ 5 ∷ 7 ∷ [])) ≡ 0 + count 7 (7 ∷ 5 ∷ 7 ∷ [])
weight-tally_example = weight-tally 7 ((5, 1) ∷ []) (7 ∷ 5 ∷ 7 ∷ [])

gpu_pair_wired : IsWired gpu_pair.tasks 2
unfolding put_task put_edge
gpu_pair_wired = (Built-IsValid gpu_pair-Built).wired

no_steal_stalls_example :
    let s = start (record cpu_only { no_steal = true }) gpu_pair.tasks 2 1 (λ _. cpu_thread) 3 in
    (count 0 s.log ≡ 0) × (s.n_done ≢ 2)
unfolding put_task put_edge fmt_is_codebook
no_steal_stalls_example =
    no_steal_stalls (record cpu_only { no_steal = true }) gpu_pair.tasks 2 1 3 gpu_pair_wired refl
      refl 0 (omega arith) refl refl refl refl here (omega arith)

abbrev one_full : ℕ → List ℕ
one_full b = if b == 2 then 9 ∷ [] else []

cpu_sweep_covers_example : count 2 (cpu_sweep 3 4) ≡ 1
cpu_sweep_covers_example = cpu_sweep_covers 3 4 2 (omega arith)

cpu_sweep_finds_example : Found one_full (cpu_sweep 3 4)
cpu_sweep_finds_example = cpu_sweep_finds one_full 3 4 2 (omega arith) (omega arith)

gpu_sweep_skips_example : count 1 (gpu_sweep 1 4) ≡ 0
gpu_sweep_skips_example = gpu_sweep_skips 1 4 1 (omega arith)
