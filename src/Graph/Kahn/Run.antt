-- ===== src/Graph/Kahn/Run.antt =====
-- The whole loop: it ends within its fuel, and it is the fold of `visit` over one order of tasks.
use mathlib.Core.Option
use fast_llm.Prelude.{
  ℕ, zero, suc, ◌+◌, ◌<◌, ◌≡◌, refl, Option, some, List, [], ◌∷◌, ◌==◌, if◌then◌else◌, count,
  count-cons, ◌∙◌, ap, arith, dec_lt,
}
use fast_llm.Prelude.Sums.{total, total-bump, total-le}
use fast_llm.Task.{Task}
use fast_llm.Graph.Kahn.{relax, roots, drain}
use fast_llm.Graph.Kahn.Inv.{IsWired, Inv, Inv-step, Inv-start}

-- The visits of a list of finished tasks, the last element first.
unfoldable pub replay {ℓ} : {S : Type ℓ} → (ℕ → S → S) → S → List ℕ → S
replay visit s [] = s
replay visit s (x ∷ finished) = visit x (replay visit s finished)

module _ (tasks : ℕ → Task) where
  -- The loop that only records the order.
  pub drain_order : ℕ → (ℕ → ℕ) → List ℕ → List ℕ → Option (List ℕ)
  drain_order = drain tasks ◌∷◌

  pub drain-replay {ℓ} :
      {S : Type ℓ} (visit : ℕ → S → S) (s : S) (fuel : ℕ) (deps : ℕ → ℕ) (ready finished : List ℕ)
      → drain tasks visit fuel deps ready (replay visit s finished)
        ≡ Option.map (replay visit s) (drain_order fuel deps ready finished)
  unfolding drain drain_order replay
  drain-replay visit s zero deps ready finished = refl
  drain-replay visit s (suc fuel) deps [] finished = refl
  drain-replay visit s (suc fuel) deps (x ∷ ready) finished =
      drain-replay visit s fuel (relax (tasks x).consumers deps ready).0
        (relax (tasks x).consumers deps ready).1 (x ∷ finished)

module _ (tasks : ℕ → Task) (n : ℕ) (w : IsWired tasks n) where
  abbrev waiting : List ℕ → ℕ → ℕ
  waiting finished i = if count i finished == 0 then 1 else 0

  drain_order-Inv :
      (fuel : ℕ) (deps : ℕ → ℕ) (ready finished : List ℕ)
      → Inv tasks n deps ready finished
      → total n (waiting finished) < fuel
      → (order : List ℕ) × (drain_order tasks fuel deps ready finished ≡ some order)
        × (last : ℕ → ℕ) × Inv tasks n last [] order
  unfolding drain_order drain
  drain_order-Inv zero deps ready finished v h = absurd (omega arith)
  drain_order-Inv (suc fuel) deps [] finished v h = (finished, refl, deps, v)
  drain_order-Inv (suc fuel) deps (x ∷ ready) finished v h =
      drain_order-Inv fuel (relax (tasks x).consumers deps ready).0
        (relax (tasks x).consumers deps ready).1 (x ∷ finished)
        (Inv-step tasks n w deps x ready finished v) (omega (arith, fewer))
    where
      lt : x < n
      lt = elim (dec_lt x n) [
        | yes p ↦ p
        | no p ↦ absurd (ground (arith, v.outside x (omega arith), count-cons x x ready))
      ]

      fewer : total n (waiting finished) ≡ total n (waiting (x ∷ finished)) + 1
      fewer =
          total-bump n (waiting finished) (waiting (x ∷ finished)) x 1 lt
            (λ j p. ground (arith, count-cons j x finished, v.flags x lt, count-cons x x ready))

  -- The loop ends within `n + 1` rounds of fuel.
  pub order_exists :
      (order : List ℕ) × (drain_order tasks (n + 1) (λ i. (tasks i).dep_init) (roots tasks n) []
        ≡ some order)
      × (last : ℕ → ℕ) × Inv tasks n last [] order
  order_exists =
      drain_order-Inv (n + 1) (λ i. (tasks i).dep_init) (roots tasks n) [] (Inv-start tasks n w)
        (omega (arith, total-le n (waiting []) (λ i p. ground arith)))

  -- So whatever the rounds do beside the bookkeeping is the fold of `visit` over that order.
  pub drain_replays {ℓ} :
      {S : Type ℓ} (visit : ℕ → S → S) (s : S) (order : List ℕ)
      → drain_order tasks (n + 1) (λ i. (tasks i).dep_init) (roots tasks n) [] ≡ some order
      → drain tasks visit (n + 1) (λ i. (tasks i).dep_init) (roots tasks n) s
        ≡ some (replay visit s order)
  unfolding replay
  drain_replays visit s order e =
      drain-replay tasks visit s (n + 1) (λ i. (tasks i).dep_init) (roots tasks n) []
      ∙ ap (Option.map (replay visit s)) e
