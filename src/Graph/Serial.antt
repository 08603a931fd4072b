-- ===== src/Graph/Serial.antt =====
-- run_serial (src/runtime/graph.cpp): which tasks it runs, in which order, and what it counts.
use fast_llm.Prelude.{
  ℕ, ◌≤◌, ◌<◌, ◌≡◌, refl, ◌∙◌, sym, ap, subst, some, List, [], ◌∷◌, count, count-cons, count-nil,
  length, arith, dec_lt, true, false,
}
use fast_llm.Prelude.Result.{ok}
use fast_llm.Task.{Task}
use fast_llm.Prelude.Words.{u64}
use fast_llm.Graph.{Graph, Metrics, no_metrics, serial_visit, run_serial, freeze}
use fast_llm.Graph.Build.{IsValid}
use fast_llm.Graph.Kahn.Inv.{calls}
use fast_llm.Graph.Kahn.Run.{replay, drain_replays}
use fast_llm.Graph.Kahn.Order.{position, position-head, position-lt-length}
use fast_llm.Graph.Order.{IsOrder, IsComplete, serial-IsOrder, length_of_complete, before}
use fast_llm.Graph.Freeze.{freeze_sound}

-- A list of tasks, the last one first, in which each task of the graph stands once, after all its
-- producers, and the terminal stands last.
pub record IsSchedule (g : Graph) (order : List ℕ) : Type 0 where
  pub once : (i : ℕ) → i < g.n → count i order ≡ 1
  pub inside : (i : ℕ) → g.n ≤ i → count i order ≡ 0
  pub producers_first :
      (p c : ℕ) → p < g.n → c < g.n → 0 < calls g.tasks p c → position order p < position order c
  pub terminal_last : (rest : List ℕ) × (order ≡ g.terminal ∷ rest)

length-eq_zero : (cs : List ℕ) → ((c : ℕ) → count c cs ≡ 0) → length cs ≡ 0
length-eq_zero [] h = refl
length-eq_zero (c ∷ cs) h = absurd (ground (arith, h c, count-cons c c cs))

-- The last task visited has no consumer.
last_sink :
    (g : Graph) (order : List ℕ)
    → IsValid g
    → IsOrder g order
    → IsComplete g order
    → 0 < g.n
    → (x : ℕ) × (rest : List ℕ) × (order ≡ x ∷ rest)
      × (x < g.n)
      × (length (g.tasks x).consumers ≡ 0)
last_sink g [] v o all lt = absurd (omega (arith, all 0 lt, count-nil 0))
last_sink g (x ∷ rest) v o all lt =
    (x, rest, refl, x_lt, length-eq_zero (g.tasks x).consumers no_consumer)
  where
    x_lt : x < g.n
    x_lt = elim (dec_lt x g.n) [
      | yes p ↦ p
      | no p ↦ absurd (ground (arith, o.inside x (omega arith), count-cons x x rest))
    ]

    no_consumer : (c : ℕ) → count c (g.tasks x).consumers ≡ 0
    no_consumer c = elim (dec_lt 0 (calls g.tasks x c)) [
      | yes p ↦
          let visited : count c (x ∷ rest) ≡ 1 = all c (v.wired.inside x c x_lt p) in
          absurd (
            omega (
              arith,
              before g (x ∷ rest) o x c x_lt p (omega (arith, visited)),
              position-head x rest,
              position-lt-length (x ∷ rest) c (omega (arith, visited)),
            ))
      | no p ↦ omega arith
    ]

module _ {ℓ} {Mem : Type ℓ} (exec : Task → Mem → Mem) where
  -- The memory after the tasks of the list, the last element first.
  pub exec_all : (ℕ → Task) → Mem → List ℕ → Mem
  exec_all tasks = replay (λ i. exec (tasks i))

  replay-serial_visit :
      (tasks : ℕ → Task) (mem : Mem) (order : List ℕ)
      → ((replay (serial_visit exec tasks) (mem, no_metrics) order).0 ≡ exec_all tasks mem order)
        × ((replay (serial_visit exec tasks) (mem, no_metrics) order).1.tiles ≡ u64 (length order))
  unfolding replay serial_visit exec_all
  replay-serial_visit tasks mem [] = (refl, refl)
  replay-serial_visit tasks mem (x ∷ order) =
      let (same, counted) = replay-serial_visit tasks mem order in
      (ap (exec (tasks x)) same, omega (arith, counted))

  -- Of a graph that `freeze` accepts, `run_serial` returns, for any action of the tasks and any
  -- memory: it runs every task exactly once, each after all its producers and the terminal last,
  -- and counts as many tiles as there are tasks.
  pub run_serial_sound :
      (g : Graph) {g' : Graph} (mem : Mem)
      → IsValid g
      → g.frozen ≡ false
      → freeze g ≡ ok g'
      → (order : List ℕ) × (out : Mem × Metrics) × IsSchedule g' order
        × (run_serial exec g' mem ≡ some out)
        × (out.0 ≡ exec_all g'.tasks mem order)
        × (out.1.tiles ≡ u64 g'.n)
  unfolding run_serial
  run_serial_sound g {g'} mem v f e =
      let (r, same) = freeze_sound g v f e in
      let (order, o) = serial-IsOrder g v in
      let all : IsComplete g order = o.complete r.rank r.ranked in
      let (x, rest, head, x_lt, sink) = last_sink g order v o all (omega (arith, r.terminal_in)) in
      let (done, counted) = replay-serial_visit g.tasks mem order in
      let frozen : Graph = record g { terminal = g'.terminal; frozen = true } in
      subst
        (λ (h : Graph).
          (order : List ℕ) × (out : Mem × Metrics) × IsSchedule h order
          × (run_serial exec h mem ≡ some out)
          × (out.0 ≡ exec_all h.tasks mem order)
          × (out.1.tiles ≡ u64 h.n))
        (sym same)
        (
          order,
          replay (serial_visit exec g.tasks) (mem, no_metrics) order,
          record {
            once = all;
            inside = o.inside;
            producers_first =
                λ p c hp hc calls. before g order o p c hp calls (omega (arith, all c hc));
            terminal_last = (rest, head ∙ ap (λ t. t ∷ rest) (r.only_sink x x_lt sink));
          },
          drain_replays g.tasks g.n v.wired (serial_visit exec g.tasks) (mem, no_metrics) order
              o.taken,
          done,
          counted ∙ ap u64 (length_of_complete g order o all),
        )
