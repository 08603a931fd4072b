-- ===== src/Graph/Sinks.antt =====
-- The scan of freeze() over the visited tasks: it counts them and their sinks.
use fast_llm.Prelude.{
  ℕ, ◌+◌, ◌<◌, ◌≡◌, List, [], ◌∷◌, count, count-cons, count-nil, length, arith, ℕ_discrete,
}
use fast_llm.Task.{Task}
use fast_llm.Graph.{Scan, scan_visit}
use fast_llm.Graph.Kahn.Run.{replay}

module _ (tasks : ℕ → Task) where
  -- A sink feeds no other task.
  abbrev pub IsSink : ℕ → Type 0
  IsSink i = length (tasks i).consumers ≡ 0

  unfoldable pub scanned : Scan → List ℕ → Scan
  scanned = replay (scan_visit tasks)

  pub seen-scanned : (s : Scan) (l : List ℕ) → (scanned s l).seen ≡ s.seen + length l
  unfolding scanned replay scan_visit
  seen-scanned s [] = omega arith
  seen-scanned s (x ∷ l) = ground (arith, seen-scanned s l)

  module _ (s : Scan) where
    -- The scan counts no sink: none was visited.
    pub no_sink :
        (l : List ℕ) (i : ℕ)
        → (scanned s l).sinks ≡ 0
        → 0 < count i l
        → 0 < length (tasks i).consumers
    unfolding scanned replay scan_visit
    no_sink [] i e h = absurd (omega (arith, count-nil i))
    no_sink (x ∷ l) i e h = ground (arith, no_sink l i, count-cons i x l)

    -- It counts one: that is `last_sink`, and the only one visited.
    pub one-IsSink :
        (l : List ℕ)
        → s.sinks ≡ 0
        → (scanned s l).sinks ≡ 1
        → (0 < count (scanned s l).last_sink l)
          × IsSink (scanned s l).last_sink
          × ((i : ℕ) → 0 < count i l → IsSink i → i ≡ (scanned s l).last_sink)
    unfolding scanned replay scan_visit
    one-IsSink [] z e = absurd (omega arith)
    one-IsSink (x ∷ l) z e = elim (ℕ_discrete (length (tasks x).consumers) 0) [
      | yes q ↦ (
        ground (arith, count-cons x x l),
        ground arith,
        λ i p k. ground (arith, no_sink l i, count-cons i x l),
      )
      | no q ↦
          let (m, k, only) = one-IsSink l z (ground arith) in
          (
            ground (arith, m, count-cons (scanned s l).last_sink x l),
            ground (arith, k),
            λ i p k'. ground (arith, only i, count-cons i x l),
          )
    ]

    -- The sinks visited are all `t`, which was not visited.
    pub sinks_none :
        (t : ℕ) (l : List ℕ)
        → s.sinks ≡ 0
        → ((i : ℕ) → 0 < count i l → IsSink i → i ≡ t)
        → count t l ≡ 0
        → (scanned s l).sinks ≡ 0
    unfolding scanned replay scan_visit
    sinks_none t [] z only h = z
    sinks_none t (x ∷ l) z only h = ground (
      arith,
      sinks_none t l z (λ i p. only i (omega (arith, count-cons i x l))),
      only x,
      count-cons x x l,
      count-cons t x l,
    )

    -- One sink, visited once: the scan counts it and remembers it.
    pub sinks_one :
        (t : ℕ) (l : List ℕ)
        → s.sinks ≡ 0
        → IsSink t
        → ((i : ℕ) → 0 < count i l → IsSink i → i ≡ t)
        → count t l ≡ 1
        → ((scanned s l).sinks ≡ 1) × ((scanned s l).last_sink ≡ t)
    unfolding scanned replay scan_visit
    sinks_one t [] z k only h = absurd (omega (arith, count-nil t))
    sinks_one t (x ∷ l) z k only h = ground (
      arith,
      sinks_one t l z k (λ i p. only i (omega (arith, count-cons i x l))),
      sinks_none t l z (λ i p. only i (omega (arith, count-cons i x l))),
      only x,
      count-cons x x l,
      count-cons t x l,
    )
