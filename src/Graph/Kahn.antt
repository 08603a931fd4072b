-- ===== src/Graph/Kahn.antt =====
-- The loop that freeze() and run_serial() share (src/runtime/graph.cpp): a stack of ready tasks and
-- a table of open dependencies. The head of the list `ready` is the back of the vector.
pub mod Relax
pub mod Inv
pub mod Run
pub mod Order
use fast_llm.Prelude.{
  ℕ, zero, suc, ◌+◌, ◌-◌, Option, none, some, List, [], ◌∷◌, ◌==◌, if◌then◌else◌, update,
}
use fast_llm.Task.{Task}

-- `if (--deps[c] == 0) ready.push_back(c)` for each consumer. An entry that is 0 would go below
-- zero and never be pushed; it stays 0 here and is not pushed either.
unfoldable pub relax : List ℕ → (ℕ → ℕ) → List ℕ → (ℕ → ℕ) × List ℕ
relax [] deps ready = (deps, ready)
relax (c ∷ cs) deps ready =
    relax cs (update deps c (deps c - 1)) (if deps c == 1 then c ∷ ready else ready)

module _ (tasks : ℕ → Task) where
  unfoldable pub roots : ℕ → List ℕ
  roots zero = []
  roots (suc i) = if (tasks i).dep_init == 0 then i ∷ roots i else roots i

-- `visit` is what the loop's body does beside the bookkeeping; `none` means that the fuel ran out.
module _ {ℓ} {S : Type ℓ} (tasks : ℕ → Task) (visit : ℕ → S → S) where
  unfoldable pub drain : ℕ → (ℕ → ℕ) → List ℕ → S → Option S
  drain zero deps ready s = none
  drain (suc fuel) deps [] s = some s
  drain (suc fuel) deps (id ∷ ready) s =
      let (deps', ready') = relax (tasks id).consumers deps ready in
      drain fuel deps' ready' (visit id s)
