-- ===== src/Graph/Kahn/Inv.antt =====
-- The invariant of the loop: what is open, what is ready and what is finished.
use fast_llm.Prelude.{
  ℕ, zero, suc, ◌+◌, ◌≤◌, ◌<◌, ◌≡◌, List, [], ◌∷◌, ◌==◌, if◌then◌else◌, count, count-cons,
  count-nil, ltb, arith, ◌∙◌, sym, dec_lt,
}
use fast_llm.Prelude.Sums.{total, total-bump, total-cong}
use fast_llm.Task.{Task}
use fast_llm.Graph.Kahn.{relax, roots}
use fast_llm.Graph.Kahn.Relax.{flag, Open, relax-Open}

module _ (tasks : ℕ → Task) where
  -- How many edges lead from `p` to `c`.
  abbrev pub calls : ℕ → ℕ → ℕ
  calls p c = count c (tasks p).consumers

  -- The edges from `p` to `c`, if `p` is not among the finished.
  abbrev pub open_calls : List ℕ → ℕ → ℕ → ℕ
  open_calls finished c p = if count p finished == 0 then calls p c else 0

module _ (tasks : ℕ → Task) (n : ℕ) where
  -- How many edges lead to `c` from tasks that are not finished.
  unfoldable pub missing : List ℕ → ℕ → ℕ
  missing finished c = total n (open_calls tasks finished c)

  -- Each task was finished after all its producers: the head of the list was finished last.
  abbrev pub IsOrdered : List ℕ → Type 0
  IsOrdered [] = Unit
  IsOrdered (x ∷ finished) = (missing finished x ≡ 0) × IsOrdered finished

  -- What `add` and `edge` establish.
  pub record IsWired : Type 0 where
    pub inside : (p c : ℕ) → p < n → 0 < calls tasks p c → c < n
    pub counted : (c : ℕ) → c < n → (tasks c).dep_init ≡ total n (λ p. calls tasks p c)

  pub record Inv (deps : ℕ → ℕ) (ready finished : List ℕ) : Type 0 where
    pub left : (c : ℕ) → c < n → deps c ≡ missing finished c
    pub flags : (c : ℕ) → c < n → count c ready + count c finished ≡ flag (deps c)
    pub outside : (c : ℕ) → n ≤ c → (count c ready ≡ 0) × (count c finished ≡ 0)
    pub ordered : IsOrdered finished

  pub missing-cons :
      (x : ℕ) (finished : List ℕ) (c : ℕ)
      → x < n
      → count x finished ≡ 0
      → missing finished c ≡ missing (x ∷ finished) c + calls tasks x c
  unfolding missing
  missing-cons x finished c lt fresh =
      total-bump n (open_calls tasks finished c) (open_calls tasks (x ∷ finished) c) x
        (calls tasks x c) lt (λ j p. ground (arith, count-cons j x finished))

  pub missing-nil : (c : ℕ) → missing [] c ≡ total n (λ p. calls tasks p c)
  unfolding missing
  missing-nil c =
      total-cong n (open_calls tasks [] c) (λ p. calls tasks p c)
        (λ p lt. ground (arith, count-nil p))

  pub Inv-step :
      IsWired
      → (deps : ℕ → ℕ) (x : ℕ) (ready finished : List ℕ) → Inv deps (x ∷ ready) finished
      → let (deps', ready') = relax (tasks x).consumers deps ready in
        Inv deps' ready' (x ∷ finished)
  Inv-step w deps x ready finished v = record {
    left = λ c p. ground (arith, after.left c p, count-nil c);
    flags = after.flags;
    outside = λ c p. (
      after.outside c p,
      ground (arith, v.outside c p, count-cons c x finished, count-cons c x ready),
    );
    ordered = (omega (arith, v.left x lt, done), v.ordered);
  }
    where
      lt : x < n
      lt = elim (dec_lt x n) [
        | yes p ↦ p
        | no p ↦ absurd (ground (arith, v.outside x (omega arith), count-cons x x ready))
      ]

      fresh : (count x finished ≡ 0) × (deps x ≡ 0)
      fresh = ground (arith, v.flags x lt, count-cons x x ready)

      done : deps x ≡ 0
      done = fresh.1

      after :
          Open n
            (missing (x ∷ finished))
            (λ c. count c (x ∷ finished))
            []
            (relax (tasks x).consumers deps ready).0
            (relax (tasks x).consumers deps ready).1
      after =
          relax-Open n (missing (x ∷ finished)) (λ c. count c (x ∷ finished)) (tasks x).consumers
            deps ready (λ c p. w.inside x c lt p)
            (record {
              left = λ c p. omega (arith, v.left c p, missing-cons x finished c lt fresh.0);
              flags =
                  λ c p. omega (arith, v.flags c p, count-cons c x ready, count-cons c x finished);
              outside = λ c p. ground (arith, v.outside c p, count-cons c x ready);
            })

  count-roots :
      (k c : ℕ) → count c (roots tasks k) ≡ (if ltb c k then flag (tasks c).dep_init else 0)
  unfolding roots
  count-roots zero c = ground (arith, count-nil c)
  count-roots (suc k) c = ground (arith, count-roots k c, count-cons c k (roots tasks k))

  -- Before the first round.
  pub Inv-start : IsWired → Inv (λ i. (tasks i).dep_init) (roots tasks n) []
  Inv-start w = record {
    left = λ c p. w.counted c p ∙ sym (missing-nil c);
    flags = λ c p. ground (arith, count-roots n c, count-nil c);
    outside = λ c p. ground (arith, count-roots n c, count-nil c);
    ordered = tt;
  }
