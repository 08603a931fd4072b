-- ===== src/Graph/Build.antt =====
-- `add` and `edge` (src/runtime/graph.cpp) keep the task table well formed.
use fast_llm.Prelude.{
  ℕ, ◌+◌, ◌≤◌, ◌<◌, ◌≡◌, ◌≢◌, sym, ap, subst, [], ◌∷◌, ◌==◌, if◌then◌else◌, count-nil, count-cons,
  count-append, length, length-append, arith, dec_lt,
}
use fast_llm.Prelude.Result.{ok}
use fast_llm.Prelude.Sums.{total, total-cong, total-bump, total-zero}
use fast_llm.Task.{Task, max_consumers}
use fast_llm.Graph.{Graph, create, put_task, add, put_edge, edge}
use fast_llm.Graph.Kahn.Inv.{IsWired, calls}

-- What holds of every graph that is built by `add` and `edge`.
pub record IsValid (g : Graph) : Type 0 where
  pub wired : IsWired g.tasks g.n
  pub room : g.n ≤ g.max
  pub fan_out : (p : ℕ) → p < g.n → length (g.tasks p).consumers ≤ max_consumers
  pub no_loop : (p : ℕ) → p < g.n → calls g.tasks p p ≡ 0
  pub ids : (p : ℕ) → p < g.n → (g.tasks p).id ≡ p

pub create-IsValid : (memory : ℕ → Task) (max_tasks : ℕ) → IsValid (create memory max_tasks)
unfolding create total
create-IsValid memory max_tasks = record {
  wired = record { inside = λ p c h. absurd (omega arith); counted = λ c h. absurd (omega arith) };
  room = omega arith;
  fan_out = λ p h. absurd (omega arith);
  no_loop = λ p h. absurd (omega arith);
  ids = λ p h. absurd (omega arith);
}

put_task-IsValid : (g : Graph) (t : Task) → IsValid g → g.n < g.max → IsValid (put_task g t)
unfolding put_task total
put_task-IsValid g t v lt = record {
  wired = record {
    inside = λ p c h e. ground (arith, v.wired.inside p c, count-nil c);
    counted = λ c h. elim (dec_lt c g.n) [
      | yes q ↦ ground (arith, v.wired.counted c q, same c, count-nil c)
      | no q ↦ ground (arith, same c, count-nil c, none_before)
    ];
  };
  room = omega arith;
  fan_out = λ p h. ground (arith, v.fan_out p);
  no_loop = λ p h. ground (arith, v.no_loop p, count-nil p);
  ids = λ p h. ground (arith, v.ids p);
}
  where
    same :
        (c : ℕ)
        → total g.n (λ p. calls (put_task g t).tasks p c) ≡ total g.n (λ p. calls g.tasks p c)
    same c =
        total-cong g.n (λ p. calls (put_task g t).tasks p c) (λ p. calls g.tasks p c)
          (λ p q. ground arith)

    none_before : total g.n (λ p. calls g.tasks p g.n) ≡ 0
    none_before = omega (
      arith,
      total-zero g.n,
      total-cong g.n (λ p. calls g.tasks p g.n) (λ _. 0)
          (λ p q. ground (arith, v.wired.inside p g.n)),
    )

put_edge-IsValid :
    (g : Graph) (p c : ℕ)
    → IsValid g
    → p < g.n
    → c < g.n
    → p ≢ c
    → length (g.tasks p).consumers < max_consumers
    → IsValid (put_edge g p c)
unfolding put_edge
put_edge-IsValid g p c v hp hc ne room = record {
  wired = record {
    inside = λ i j h e. ground (arith, v.wired.inside i j, grown i j);
    counted = λ j h. ground (arith, v.wired.counted j h, more j);
  };
  room = v.room;
  fan_out = λ i h. ground (arith, v.fan_out i, length-append (g.tasks p).consumers (c ∷ []));
  no_loop = λ i h. ground (arith, v.no_loop i, grown i i);
  ids = λ i h. ground (arith, v.ids i);
}
  where
    grown :
        (i j : ℕ)
        → calls (put_edge g p c).tasks i j
          ≡ calls g.tasks i j + (if p == i then (if c == j then 1 else 0) else 0)
    grown i j =
        ground
          (arith, count-append j (g.tasks p).consumers (c ∷ []), count-cons j c [], count-nil j)

    more :
        (j : ℕ)
        → total g.n (λ i. calls (put_edge g p c).tasks i j)
          ≡ total g.n (λ i. calls g.tasks i j) + (if c == j then 1 else 0)
    more j =
        total-bump g.n (λ i. calls (put_edge g p c).tasks i j) (λ i. calls g.tasks i j) p
          (if c == j then 1 else 0) hp (λ i q. grown i j)

-- `add` on every branch: a success stores the task at the next free id.
pub add-eq_ok :
    (g : Graph) (t : Task) {g' : Graph} {id : ℕ}
    → add g t ≡ ok (g', id)
    → (g.n < g.max) × (g' ≡ put_task g t) × (id ≡ g.n)
unfolding add
add-eq_ok g t {g'} {id} e = ground arith

pub edge-eq_ok :
    (g : Graph) (p c : ℕ) {g' : Graph}
    → edge g p c ≡ ok g'
    → (p < g.n)
      × (c < g.n)
      × (p ≢ c)
      × (length (g.tasks p).consumers < max_consumers)
      × (g' ≡ put_edge g p c)
unfolding edge
edge-eq_ok g p c {g'} e = ground arith

-- A task that `add` accepts gets the next id, and the table stays well formed.
pub add-IsValid :
    {g g' : Graph} {id : ℕ} (t : Task)
    → IsValid g
    → add g t ≡ ok (g', id)
    → IsValid g' × (id ≡ g.n) × (g'.n ≡ g.n + 1)
unfolding put_task
add-IsValid {g} t v e =
    let (lt, stored, named) = add-eq_ok g t e in
    (subst IsValid (sym stored) (put_task-IsValid g t v lt), named, ap (λ (h : Graph). h.n) stored)

-- An edge that `edge` accepts joins two different tasks of the table, which stays well formed.
pub edge-IsValid :
    {g g' : Graph} (p c : ℕ)
    → IsValid g
    → edge g p c ≡ ok g'
    → IsValid g' × (p < g.n) × (c < g.n) × (p ≢ c)
edge-IsValid {g} p c v e =
    let (hp, hc, ne, room, stored) = edge-eq_ok g p c e in
    (subst IsValid (sym stored) (put_edge-IsValid g p c v hp hc ne room), hp, hc, ne)

-- The graphs that a client can build before freeze().
pub data Built : Graph → Type 0 where
  created : (memory : ℕ → Task) (max_tasks : ℕ) → Built (create memory max_tasks)
  added : {g g' : Graph} {id : ℕ} (t : Task) → Built g → add g t ≡ ok (g', id) → Built g'
  edged : {g g' : Graph} (p c : ℕ) → Built g → edge g p c ≡ ok g' → Built g'

-- Every graph that is built by `add` and `edge` is well formed: edges lead from tasks of the table
-- to other tasks of it, `dep_init` counts the edges that lead to a task, no task feeds more than
-- six, and ids are indices.
pub Built-IsValid : {g : Graph} → Built g → IsValid g
Built-IsValid (created memory max_tasks) = create-IsValid memory max_tasks
Built-IsValid (added t b e) = (add-IsValid t (Built-IsValid b) e).0
Built-IsValid (edged p c b e) = (edge-IsValid p c (Built-IsValid b) e).0
