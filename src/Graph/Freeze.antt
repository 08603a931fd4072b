-- ===== src/Graph/Freeze.antt =====
-- What freeze() accepts (src/runtime/graph.cpp), and what it refuses.
use fast_llm.Prelude.{
  ℕ, zero, suc, ◌+◌, ◌≤◌, ◌<◌, ◌≡◌, ◌≢◌, refl, ◌∙◌, sym, ap, some, List, count, length, arith,
  dec_lt, true, false, if_of_false, subst,
}
use fast_llm.Prelude.Result.{ok, err}
use fast_llm.Task.{Task, signal}
use fast_llm.Graph.{
  Graph, cycle, Scan, scan_visit, scan, validate_task, validate_from, check_scan, freeze,
}
use fast_llm.Graph.Build.{IsValid}
use fast_llm.Graph.Kahn.Run.{drain_replays}
use fast_llm.Graph.Kahn.Order.{IsRank, position}
use fast_llm.Graph.Order.{
  IsOrder, IsComplete, serial-IsOrder, IsComplete-of_length, length_of_complete, IsRank-of_complete,
}
use fast_llm.Graph.Sinks.{IsSink, scanned, seen-scanned, one-IsSink, sinks_one}

-- The checks of the last loop hold of every task.
IsChecked : Graph → Type 0
IsChecked g = (i : ℕ) → i < g.n → validate_task (g.tasks i) ≡ ok tt

-- What an accepted graph is: no cycle, one sink, which is the terminal and a SIGNAL, and tasks that
-- pass the checks.
pub record IsRunnable (g : Graph) (terminal : ℕ) : Type 0 where
  pub rank : ℕ → ℕ
  pub ranked : IsRank g.tasks g.n rank
  pub terminal_in : terminal < g.n
  pub terminal_sink : IsSink g.tasks terminal
  pub only_sink : (i : ℕ) → i < g.n → IsSink g.tasks i → i ≡ terminal
  pub terminal_signal : (g.tasks terminal).kind ≡ signal
  pub checked : (i : ℕ) → i < g.n → validate_task (g.tasks i) ≡ ok tt

validate_from_sound :
    (tasks : ℕ → Task) (k i : ℕ)
    → validate_from tasks k i ≡ ok tt
    → (j : ℕ) → i ≤ j
    → j < i + k
    → validate_task (tasks j) ≡ ok tt
unfolding validate_from
validate_from_sound tasks zero i e j lo hi = absurd (omega arith)
validate_from_sound tasks (suc k) i e j lo hi = elim (dec_lt i j) [
  | yes p ↦ validate_from_sound tasks k (i + 1) (ground arith) j (omega arith) (omega arith)
  | no p ↦ let same : i ≡ j = omega arith in rw (← same) (ground arith)
]

validate_from_complete :
    (tasks : ℕ → Task) (k i : ℕ)
    → ((j : ℕ) → i ≤ j → j < i + k → validate_task (tasks j) ≡ ok tt)
    → validate_from tasks k i ≡ ok tt
unfolding validate_from
validate_from_complete tasks zero i h = refl
validate_from_complete tasks (suc k) i h =
    rw (h i (omega arith) (omega arith))
      (validate_from_complete tasks k (i + 1) (λ j p q. h j (omega arith) (omega arith)))

check_scan-eq_ok :
    (g : Graph) (s : Scan) {g' : Graph}
    → check_scan g (some s) ≡ ok g'
    → (s.seen ≡ g.n)
      × (s.sinks ≡ 1)
      × ((g.tasks s.last_sink).kind ≡ signal)
      × (validate_from g.tasks g.n 0 ≡ ok tt)
      × (g' ≡ record g { terminal = s.last_sink; frozen = true })
unfolding check_scan
check_scan-eq_ok g s e = ground arith

ok-check_scan :
    (g : Graph) (s : Scan)
    → s.seen ≡ g.n
    → s.sinks ≡ 1
    → (g.tasks s.last_sink).kind ≡ signal
    → validate_from g.tasks g.n 0 ≡ ok tt
    → check_scan g (some s) ≡ ok (record g { terminal = s.last_sink; frozen = true })
unfolding check_scan
ok-check_scan g s all one sig checks = ground arith

validate_task-ne_cycle : (t : Task) → validate_task t ≢ err cycle
unfolding validate_task
validate_task-ne_cycle t = ground arith

validate_from-ne_cycle : (tasks : ℕ → Task) (k i : ℕ) → validate_from tasks k i ≢ err cycle
unfolding validate_from
validate_from-ne_cycle tasks zero i = ground arith
validate_from-ne_cycle tasks (suc k) i =
    ground (arith, validate_task-ne_cycle (tasks i), validate_from-ne_cycle tasks k (i + 1))

-- A scan that reaches every task is never reported as a cycle.
check_scan-cycle :
    (g : Graph) (s : Scan)
    → (check_scan g (some s) ≡ err cycle → s.seen ≢ g.n)
      × (s.seen ≢ g.n → check_scan g (some s) ≡ err cycle)
unfolding check_scan
check_scan-cycle g s = ground (arith, validate_from-ne_cycle g.tasks g.n 0)

module _ (g : Graph) (v : IsValid g) where
  abbrev start : Scan
  start = record { seen = 0; sinks = 0; last_sink = g.terminal }

  scan-eq : (order : List ℕ) → IsOrder g order → scan g ≡ some (scanned g.tasks start order)
  unfolding scan scanned
  scan-eq order o =
      drain_replays g.tasks g.n v.wired (scan_visit g.tasks)
        (record { seen = 0; sinks = 0; last_sink = g.terminal }) order o.taken

  freeze_lem :
      (order : List ℕ)
      → g.frozen ≡ false
      → IsOrder g order
      → freeze g ≡ check_scan g (some (scanned g.tasks start order))
  unfolding freeze
  freeze_lem order f o =
      if_of_false (ok g) (check_scan g (scan g)) f ∙ ap (check_scan g) (scan-eq order o)

  seen_length : (order : List ℕ) → (scanned g.tasks start order).seen ≡ length order
  seen_length order = omega (arith, seen-scanned g.tasks start order)

  visited-lt : (order : List ℕ) → IsOrder g order → (i : ℕ) → 0 < count i order → i < g.n
  visited-lt order o i p = elim (dec_lt i g.n) [
    | yes q ↦ q
    | no q ↦ absurd (omega (arith, o.inside i (omega arith)))
  ]

  -- `freeze` accepts every graph that can be run with `terminal`, stores that terminal, and changes
  -- nothing else but the flag.
  pub freeze_complete :
      (terminal : ℕ)
      → g.frozen ≡ false
      → IsRunnable g terminal
      → freeze g ≡ ok (record g { terminal = terminal; frozen = true })
  freeze_complete terminal f r =
      let (order, o) = serial-IsOrder g v in
      let all : IsComplete g order = o.complete r.rank r.ranked in
      let (one, last) = found order o all in
      freeze_lem order f o
      ∙ ok-check_scan g (scanned g.tasks start order)
          (seen_length order ∙ length_of_complete g order o all) one (rw last r.terminal_signal)
          (validate_from_complete g.tasks g.n 0 (λ j p q. r.checked j (omega arith)))
      ∙ ap (λ t. ok (record g { terminal = t; frozen = true })) last
    where
      found :
          (order : List ℕ)
          → IsOrder g order
          → IsComplete g order
          → ((scanned g.tasks start order).sinks ≡ 1)
            × ((scanned g.tasks start order).last_sink ≡ terminal)
      found order o all =
          sinks_one g.tasks start terminal order refl r.terminal_sink
            (λ i p k. r.only_sink i (visited-lt order o i p) k) (all terminal r.terminal_in)

  -- What `freeze` accepts can be run with the terminal that it stores, and nothing else but the
  -- flag has changed.
  pub freeze_sound :
      {g' : Graph}
      → g.frozen ≡ false
      → freeze g ≡ ok g'
      → IsRunnable g g'.terminal × (g' ≡ record g { terminal = g'.terminal; frozen = true })
  freeze_sound {g'} f e =
      let (order, o) = serial-IsOrder g v in
      let (seen, one, sig, checks, same) =
        check_scan-eq_ok g (scanned g.tasks start order) (sym (freeze_lem order f o) ∙ e) in
      let all : IsComplete g order =
        IsComplete-of_length g order o (sym (seen_length order) ∙ seen) in
      let (member, sink, only) = one-IsSink g.tasks start order refl one in
      let t : g'.terminal ≡ (scanned g.tasks start order).last_sink =
        ap (λ (h : Graph). h.terminal) same in
      (
        subst (IsRunnable g) (sym t) (record {
          rank = position order;
          ranked = IsRank-of_complete g order o all;
          terminal_in = visited-lt order o _ member;
          terminal_sink = sink;
          only_sink = λ i p k. only i (omega (arith, all i p)) k;
          terminal_signal = sig;
          checked = λ i p. validate_from_sound g.tasks g.n 0 checks i (omega arith) (omega arith);
        }),
        same ∙ ap (λ k. record g { terminal = k; frozen = true }) (sym t),
      )

  -- The report of a cycle is right, and never missing: `freeze` gives it exactly when no ranking of
  -- the tasks rises along every edge.
  pub freeze-cycle :
      g.frozen ≡ false
      → (freeze g ≡ err cycle → (rank : ℕ → ℕ) → ¬ IsRank g.tasks g.n rank)
        × (((rank : ℕ → ℕ) → ¬ IsRank g.tasks g.n rank) → freeze g ≡ err cycle)
  freeze-cycle f =
      let (order, o) = serial-IsOrder g v in
      let (left, right) = check_scan-cycle g (scanned g.tasks start order) in
      (
        λ e rank r.
            left (sym (freeze_lem order f o) ∙ e)
              (seen_length order ∙ length_of_complete g order o (o.complete rank r)),
        λ unranked.
            freeze_lem order f o
            ∙ right (λ e. unranked (position order) (
                IsRank-of_complete g order o
                  (IsComplete-of_length g order o (sym (seen_length order) ∙ e)))),
      )
