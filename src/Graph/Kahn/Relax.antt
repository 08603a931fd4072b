-- ===== src/Graph/Kahn/Relax.antt =====
-- What relaxing one task's consumers does to the open dependencies and to the ready stack.
use fast_llm.Prelude.{
  ℕ, ◌+◌, ◌-◌, ◌≤◌, ◌<◌, ◌≡◌, List, [], ◌∷◌, ◌==◌, if◌then◌else◌, update, count, count-cons, arith,
}
use fast_llm.Graph.Kahn.{relax}

-- 1 for a task that has been made ready, when it is ready as soon as nothing is open.
abbrev pub flag : ℕ → ℕ
flag d = if d == 0 then 1 else 0

-- `n` tasks; `m c` dependencies of `c` stay open, and `k c` counts `c` among the finished.
module _ (n : ℕ) (m k : ℕ → ℕ) where
  -- With `pending` still to relax.
  pub record Open (pending : List ℕ) (deps : ℕ → ℕ) (ready : List ℕ) : Type 0 where
    pub left : (c : ℕ) → c < n → deps c ≡ m c + count c pending
    pub flags : (c : ℕ) → c < n → count c ready + k c ≡ flag (deps c)
    pub outside : (c : ℕ) → n ≤ c → count c ready ≡ 0

  Open-step :
      (c : ℕ) (cs : List ℕ) (deps : ℕ → ℕ) (ready : List ℕ)
      → c < n
      → Open (c ∷ cs) deps ready
      → Open cs (update deps c (deps c - 1)) (if deps c == 1 then c ∷ ready else ready)
  Open-step c cs deps ready lt o = record {
    left = λ j p. ground (arith, o.left j p, o.left c lt, count-cons j c cs, count-cons c c cs);
    flags = λ j p.
        ground
          (arith, o.left c lt, o.flags j p, o.flags c lt, count-cons c c cs, count-cons j c ready);
    outside = λ j p. ground (arith, o.outside j p, count-cons j c ready);
  }

  pub relax-Open :
      (cs : List ℕ) (deps : ℕ → ℕ) (ready : List ℕ)
      → ((c : ℕ) → 0 < count c cs → c < n)
      → Open cs deps ready
      → Open [] (relax cs deps ready).0 (relax cs deps ready).1
  unfolding relax
  relax-Open [] deps ready inside o = o
  relax-Open (c ∷ cs) deps ready inside o =
      relax-Open cs (update deps c (deps c - 1)) (if deps c == 1 then c ∷ ready else ready)
        (λ j p. inside j (omega (arith, count-cons j c cs)))
        (Open-step c cs deps ready (inside c (ground (arith, count-cons c c cs))) o)
