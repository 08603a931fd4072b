-- ===== src/Graph/Order.antt =====
-- The order in which the loops of src/runtime/graph.cpp visit the tasks of a graph.
use fast_llm.Prelude.{
  ℕ, suc, ◌+◌, ◌≤◌, ◌<◌, ◌≡◌, ◌∙◌, sym, some, List, [], count, length, arith, dec_lt,
}
use fast_llm.Prelude.Sums.{total, total-full, total-ones}
use fast_llm.Graph.{Graph}
use fast_llm.Graph.Build.{IsValid}
use fast_llm.Graph.Kahn.{roots}
use fast_llm.Graph.Kahn.Inv.{calls, IsOrdered}
use fast_llm.Graph.Kahn.Run.{drain_order, order_exists}
use fast_llm.Graph.Kahn.Order.{IsRank, position, IsOrdered-before, length-total, order_complete}

module _ (g : Graph) where
  open g use {tasks, n}

  -- The tasks in the order of their visits, the last visit first.
  pub record IsOrder (order : List ℕ) : Type 0 where
    pub taken : drain_order tasks (n + 1) (λ i. (tasks i).dep_init) (roots tasks n) [] ≡ some order
    pub once : (i : ℕ) → count i order ≤ 1
    pub inside : (i : ℕ) → n ≤ i → count i order ≡ 0
    pub ordered : IsOrdered tasks n order
    pub complete : (rank : ℕ → ℕ) → IsRank tasks n rank → (i : ℕ) → i < n → count i order ≡ 1
    pub sized : length order ≡ total n (λ i. count i order)

  pub serial-IsOrder : IsValid g → (order : List ℕ) × IsOrder order
  serial-IsOrder v =
      let (order, taken, last, inv) = order_exists tasks n v.wired in
      (
        order,
        record {
          taken = taken;
          once = λ i. elim (dec_lt i n) [
            | yes p ↦ ground (arith, inv.flags i p)
            | no p ↦ omega (arith, (inv.outside i (omega arith)).1)
          ];
          inside = λ i p. (inv.outside i p).1;
          ordered = inv.ordered;
          complete = λ rank r i p.
              order_complete tasks n rank order last r inv (suc (rank i)) i p (omega arith);
          sized = length-total n order (λ i p. (inv.outside i p).1);
        },
      )

  -- Every task is visited.
  abbrev pub IsComplete : List ℕ → Type 0
  IsComplete order = (i : ℕ) → i < n → count i order ≡ 1

  module _ (order : List ℕ) (o : IsOrder order) where
    pub IsComplete-of_length : length order ≡ n → IsComplete order
    IsComplete-of_length e = total-full n (λ i. count i order) (λ i p. o.once i) (sym o.sized ∙ e)

    pub length_of_complete : IsComplete order → length order ≡ n
    length_of_complete all = o.sized ∙ total-ones n (λ i. count i order) all

    -- A producer comes before its consumer.
    pub before :
        (p c : ℕ)
        → p < n
        → 0 < calls tasks p c
        → 0 < count c order
        → position order p < position order c
    before p c lt e h = (IsOrdered-before tasks n order p c o.ordered o.once lt e h).1

    -- A complete order shows that the graph has no cycle.
    pub IsRank-of_complete : IsComplete order → IsRank tasks n (position order)
    IsRank-of_complete all p c hp hc e = before p c hp e (omega (arith, all c hc))
