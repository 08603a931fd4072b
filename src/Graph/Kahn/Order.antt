-- ===== src/Graph/Kahn/Order.antt =====
-- What the order of visits says of the graph: which tasks it holds, and when it holds all.
use fast_llm.Prelude.{
  ℕ, zero, suc, ◌≤◌, ◌<◌, ◌≡◌, List, [], ◌∷◌, ◌==◌, if◌then◌else◌, count, count-cons, count-nil,
  length, arith, dec_lt, ℕ_discrete,
}
use fast_llm.Prelude.Sums.{total, total-bump, total-zero, total-eq_zero, total-cong}
use fast_llm.Task.{Task}
use fast_llm.Graph.Kahn.Inv.{calls, open_calls, missing, IsOrdered, Inv}

-- A list of numbers below `n` is as long as the sum of their counts.
pub length-total :
    (n : ℕ) (l : List ℕ) → ((c : ℕ) → n ≤ c → count c l ≡ 0) → length l ≡ total n (λ i. count i l)
length-total n [] h =
    omega (arith, total-zero n, total-cong n (λ i. count i []) (λ _. 0) (λ i p. count-nil i))
length-total n (x ∷ l) h = omega (
  arith,
  length-total n l (λ c p. omega (arith, h c p, count-cons c x l)),
  total-bump n (λ i. count i (x ∷ l)) (λ i. count i l) x 1 lt
      (λ j p. ground (arith, count-cons j x l)),
)
  where
    lt : x < n
    lt = elim (dec_lt x n) [
      | yes p ↦ p
      | no p ↦ absurd (ground (arith, h x (omega arith), count-cons x x l))
    ]

-- The number of tasks finished before `i`.
pub position : List ℕ → ℕ → ℕ
position [] i = 0
position (x ∷ finished) i = if x == i then length finished else position finished i

pub position-head : (x : ℕ) (l : List ℕ) → position (x ∷ l) x ≡ length l
unfolding position
position-head x l = ground arith

pub position-lt-length : (l : List ℕ) (i : ℕ) → 0 < count i l → position l i < length l
unfolding position
position-lt-length [] i h = absurd (omega (arith, count-nil i))
position-lt-length (x ∷ l) i h = ground (arith, position-lt-length l i, count-cons i x l)

module _ (tasks : ℕ → Task) (n : ℕ) where
  -- Every edge leads to a higher rank: the graph has no cycle.
  abbrev pub IsRank : (ℕ → ℕ) → Type 0
  IsRank rank = (p c : ℕ) → p < n → c < n → 0 < calls tasks p c → rank p < rank c

  missing-zero :
      (finished : List ℕ) (p c : ℕ)
      → p < n
      → missing tasks n finished c ≡ 0
      → 0 < calls tasks p c
      → 0 < count p finished
  unfolding missing
  missing-zero finished p c lt e h =
      ground (arith, total-eq_zero n (open_calls tasks finished c) p lt e)

  -- Each producer of a finished task is finished, and earlier.
  pub IsOrdered-before :
      (l : List ℕ) (p c : ℕ)
      → IsOrdered tasks n l
      → ((i : ℕ) → count i l ≤ 1)
      → p < n
      → 0 < calls tasks p c
      → 0 < count c l
      → (0 < count p l) × (position l p < position l c)
  unfolding position
  IsOrdered-before [] p c o once lt e h = absurd (omega (arith, count-nil c))
  IsOrdered-before (x ∷ l) p c o once lt e h = elim (ℕ_discrete x c) [
    | yes q ↦
        let before : 0 < count p l = missing-zero l p c lt (rw q at o.0) e in
        ground (
          arith,
          before,
          position-lt-length l p before,
          count-cons p x l,
          count-cons c x l,
          once p,
          once x,
          count-cons x x l,
        )
    | no q ↦
        let (before, less) =
          IsOrdered-before l p c o.1 (λ i. omega (arith, once i, count-cons i x l)) lt e
            (ground (arith, count-cons c x l)) in
        ground (arith, before, less, count-cons p x l, once x, once p)
  ]

  closed-count :
      (rank : ℕ → ℕ) (order : List ℕ) (last : ℕ → ℕ)
      → IsRank rank
      → Inv tasks n last [] order
      → (i : ℕ) → i < n
      → ((p : ℕ) → p < n → rank p < rank i → count p order ≡ 1)
      → count i order ≡ 1
  unfolding missing
  closed-count rank order last r v i lt earlier =
      ground (arith, v.flags i lt, v.left i lt, closed, total-zero n, count-nil i)
    where
      closed : total n (open_calls tasks order i) ≡ total n (λ _. 0)
      closed =
          total-cong n (open_calls tasks order i) (λ _. 0)
            (λ p q. ground (arith, r p i q lt, earlier p q))

  -- Where some rank rises along every edge, no task is left out.
  pub order_complete :
      (rank : ℕ → ℕ) (order : List ℕ) (last : ℕ → ℕ)
      → IsRank rank
      → Inv tasks n last [] order
      → (k i : ℕ) → i < n
      → rank i < k
      → count i order ≡ 1
  unfolding missing
  order_complete rank order last r v zero i lt h = absurd (omega arith)
  order_complete rank order last r v (suc k) i lt h =
      closed-count rank order last r v i lt
        (λ p q h'. order_complete rank order last r v k p q (omega arith))
