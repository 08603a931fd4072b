-- ===== src/Runtime/Routed.antt =====
-- A queue holds only tasks that were sent to it, and with at most 65536 tasks it has room for one more.
use fast_llm.Prelude.{
  ℕ, ◌+◌, ◌≤◌, ◌<◌, ◌≡◌, refl, ap, ◌∙◌, sym, Bool, true, false, ◌==◌, List, [], ◌∷◌, ◌++◌, length,
  update, count, count-nil, count-cons, count-append, arith, dec_lt, Bool-cases, inl, inr, ◌⊎◌,
}
use fast_llm.Prelude.Sums.{total, total-bump, total-le, total-ge}
use fast_llm.Task.{Task}
use fast_llm.Graph.Kahn.Inv.{IsWired}
use fast_llm.Graph.Kahn.Order.{length-total}
use fast_llm.Runtime.{Config, Worker, from_gpu}
use fast_llm.Runtime.Step.{
  State, start, root_skip, root_publish, claim, execute, release, decrement, publish, finish, Reach,
  here, next, target, queue_capacity,
}
use fast_llm.Runtime.Inv.{queued, Inv}
use fast_llm.Runtime.Safety.{Reach-Inv}

total-lt :
    (n : ℕ) (f : ℕ → ℕ) (c : ℕ) → c < n → f c ≡ 0 → ((i : ℕ) → i < n → f i ≤ 1) → total n f < n
total-lt n f c lt z h = omega (
  arith,
  total-bump n (update f c 1) f c 1 lt (λ j p. ground arith),
  total-le n (update f c 1) (λ i p. ground (arith, h i p)),
)

-- What a push adds to a queue.
pushed-eq :
    (queue : ℕ → List ℕ) (k0 c0 k c : ℕ)
    → 0 < count c (update queue k0 (queue k0 ++ (c0 ∷ [])) k)
    → ¬ 0 < count c (queue k)
    → (k ≡ k0) × (c0 ≡ c)
pushed-eq queue k0 c0 k c h p = elim (Bool-cases (k0 == k)) [
  | inl q ↦ let e : k0 ≡ k = ground arith in (sym e, same e)
  | inr q ↦ absurd (p (ground arith))
]
  where
    same : k0 ≡ k → c0 ≡ c
    same e = ground (
      arith,
      ap (λ i. count c (queue i)) e,
      count-append c (queue k0) (c0 ∷ []),
      count-cons c c0 [],
      count-nil c,
    )

module _ (cfg : Config) (tasks : ℕ → Task) (n terminal : ℕ) (worker : ℕ → Worker) (workers : ℕ)
    (wired : IsWired tasks n) where
  -- The host and the CPU threads publish as the CPU, the blocks as the GPU.
  abbrev pub Publisher : Bool → Type 0
  Publisher gpu = (gpu ≡ false) ⊎ ((w : ℕ) × (w < workers) × (from_gpu (worker w) ≡ true))

  abbrev pub Routed : (ℕ → List ℕ) → Type 0
  Routed queue =
      (k c : ℕ)
      → 0 < count c (queue k)
      → (gpu : Bool) × (k ≡ target cfg tasks n terminal worker workers c gpu) × Publisher gpu

  Routed-push :
      (queue : ℕ → List ℕ) (c0 : ℕ) (gpu : Bool)
      → Publisher gpu
      → Routed queue
      → let k0 = target cfg tasks n terminal worker workers c0 gpu in
        Routed (update queue k0 (queue k0 ++ (c0 ∷ [])))
  Routed-push queue c0 gpu who old k c h = elim (dec_lt 0 (count c (queue k))) [
    | yes p ↦ old k c p
    | no p ↦
        let (at, same) = pushed-eq queue k0 c0 k c h p in
        (gpu, at ∙ ap (λ i. target cfg tasks n terminal worker workers i gpu) same, who)
  ]
    where
      k0 : ℕ
      k0 = target cfg tasks n terminal worker workers c0 gpu

  Routed-claim :
      (queue : ℕ → List ℕ) (k0 : ℕ) (ids rest : List ℕ)
      → queue k0 ≡ ids ++ rest
      → Routed queue
      → Routed (update queue k0 rest)
  Routed-claim queue k0 ids rest e old k c h =
      old k c (ground (arith, ap (count c) e, count-append c ids rest))

  of_worker : (w : ℕ) → w < workers → Publisher (from_gpu (worker w))
  of_worker w lt = elim (Bool-cases (from_gpu (worker w))) [
    | inl q ↦ inr (w, lt, q)
    | inr q ↦ inl q
  ]

  pub Reach-Routed : {s : State} → Reach cfg tasks n terminal worker workers s → Routed s.queue
  unfolding start
  Reach-Routed here = λ k c h. absurd (omega (arith, count-nil c))
  Reach-Routed (next r (root_skip lt ne)) = Reach-Routed r
  Reach-Routed (next {s} r (root_publish lt z room)) =
      Routed-push s.queue s.next_root false (inl refl) (Reach-Routed r)
  Reach-Routed (next {s} r (claim w k ids rest lt e can pos limit split)) =
      Routed-claim s.queue k ids rest split (Reach-Routed r)
  Reach-Routed (next r (execute w x todo done lt e)) = Reach-Routed r
  Reach-Routed (next r (release w done lt e)) = Reach-Routed r
  Reach-Routed (next r (decrement w batch c m slots lt e)) = Reach-Routed r
  Reach-Routed (next {s} r (publish w batch c slots lt e room)) =
      Routed-push s.queue c (from_gpu (worker w)) (of_worker w lt) (Reach-Routed r)
  Reach-Routed (next r (finish w batch lt e)) = Reach-Routed r

  -- In a run of at most 65536 tasks, a queue is not full while some task lies in no queue.
  pub queue_has_room :
      {s : State}
      → Reach cfg tasks n terminal worker workers s
      → n ≤ queue_capacity
      → (k c : ℕ) → k < 4 + cfg.gpu_blocks
      → c < n
      → queued cfg tasks n terminal worker workers s c ≡ 0
      → length (s.queue k) < queue_capacity
  queue_has_room {s} r small k c hk lt z = omega (
    arith,
    length-total n (s.queue k) (λ i p. omega (arith, (v.outside i p).0, part i)),
    total-lt n (λ i. count i (s.queue k)) c lt (omega (arith, z, part c))
        (λ i p. ground (arith, v.placed i p, part i)),
  )
    where
      v : Inv cfg tasks n terminal worker workers s
      v = Reach-Inv cfg tasks n terminal worker workers wired r

      part : (i : ℕ) → count i (s.queue k) ≤ queued cfg tasks n terminal worker workers s i
      part i = total-ge (4 + cfg.gpu_blocks) (λ j. count i (s.queue j)) k hk
