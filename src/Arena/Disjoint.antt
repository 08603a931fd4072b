-- ===== src/Arena/Disjoint.antt =====
-- The blocks of a sequence of allocations (src/runtime/arena.cpp) do not overlap.
use fast_llm.Prelude.{
  ℕ, zero, suc, ◌+◌, ◌-◌, ◌%◌, ◌≤◌, ◌<◌, ◌≡◌, refl, ◌∙◌, subst, List, [], ◌∷◌, some, get_elem?,
  arith,
}
use fast_llm.Prelude.Result.{ok, >>=-eq_ok, ok-injective}
use fast_llm.Arena.{Arena, alloc, alloc_all}
use fast_llm.Arena.Blocks.{IsSound, IsSane, IsBlock, alloc-IsBlock}

-- The requests of a client, all of them sane.
abbrev pub AllSane : List (ℕ × ℕ) → Type 0
AllSane [] = Unit
AllSane ((bytes, align) ∷ requests) = IsSane bytes align × AllSane requests

-- The blocks lie one behind the other from `lo` on, up to `hi`, each aligned from `base`.
abbrev pub Placed : ℕ → ℕ → List (ℕ × ℕ) → List ℕ → ℕ → Type 0
Placed base lo ((bytes, align) ∷ requests) (p ∷ ps) hi =
    (lo ≤ p) × ((p - base) % align ≡ 0) × Placed base (p + bytes) requests ps hi
Placed base lo [] [] hi = lo ≤ hi
Placed base lo _ _ hi = ⊥

-- The outcome of a sequence of calls that started in `a`.
abbrev IsLaid : Arena → List (ℕ × ℕ) → List ℕ × Arena → Type 0
IsLaid a requests out =
    Placed a.base (a.base + a.used) requests out.0 (out.1.base + out.1.used)
    × IsSound out.1
    × (out.1.base ≡ a.base)
    × (out.1.cap ≡ a.cap)

Placed-next :
    (a a1 : Arena) (bytes align p : ℕ) (requests : List (ℕ × ℕ)) (ps : List ℕ) (hi : ℕ)
    → IsBlock a a1 bytes align p
    → Placed a1.base (a1.base + a1.used) requests ps hi
    → Placed a.base (a.base + a.used) ((bytes, align) ∷ requests) (p ∷ ps) hi
Placed-next a a1 bytes align p requests ps hi b placed = (
  b.above,
  b.aligned,
  subst (λ (lo : ℕ). Placed a.base lo requests ps hi) end
      (subst (λ (base : ℕ). Placed base (a1.base + a1.used) requests ps hi) b.same.0 placed),
)
  where
    end : a1.base + a1.used ≡ p + bytes
    end = omega (arith, b.covered, b.same.0)

alloc_all-IsLaid :
    (a : Arena) (requests : List (ℕ × ℕ)) (out : List ℕ × Arena)
    → IsSound a
    → AllSane requests
    → alloc_all a requests ≡ ok out
    → IsLaid a requests out
unfolding alloc_all
alloc_all-IsLaid a [] out s q e = subst (IsLaid a []) (ok-injective e) (omega arith, s, refl, refl)
alloc_all-IsLaid a ((bytes, align) ∷ requests) out s q e =
    let ((p, a1), first, rest) = >>=-eq_ok (alloc a bytes align) _ e in
    let ((ps, a2), more, last) = >>=-eq_ok (alloc_all a1 requests) _ rest in
    let b : IsBlock a a1 bytes align p = alloc-IsBlock a bytes align s q.0 first in
    let (placed, sound, base, cap) = alloc_all-IsLaid a1 requests (ps, a2) b.sound q.1 more in
    subst (IsLaid a ((bytes, align) ∷ requests)) (ok-injective last) (
      Placed-next a a1 bytes align p requests ps (a2.base + a2.used) b placed,
      sound,
      base ∙ b.same.0,
      cap ∙ b.same.1,
    )

Placed-lo :
    (base lo hi : ℕ) (requests : List (ℕ × ℕ)) (ps : List ℕ) (j : ℕ) {q : ℕ}
    → Placed base lo requests ps hi
    → get_elem? ps j ≡ some q
    → lo ≤ q
Placed-lo base lo hi [] [] j h e = ground arith
Placed-lo base lo hi [] (p ∷ ps) j h e = absurd h
Placed-lo base lo hi ((b, al) ∷ requests) [] j h e = absurd h
Placed-lo base lo hi ((b, al) ∷ requests) (p ∷ ps) zero h e = ground (arith, h.0)
Placed-lo base lo hi ((b, al) ∷ requests) (p ∷ ps) (suc j) h e =
    omega (arith, h.0, Placed-lo base (p + b) hi requests ps j h.2 e)

Placed-hi :
    (base lo hi : ℕ) (requests : List (ℕ × ℕ)) (ps : List ℕ)
    → Placed base lo requests ps hi
    → lo ≤ hi
Placed-hi base lo hi [] [] h = h
Placed-hi base lo hi [] (p ∷ ps) h = absurd h
Placed-hi base lo hi ((b, al) ∷ requests) [] h = absurd h
Placed-hi base lo hi ((b, al) ∷ requests) (p ∷ ps) h =
    omega (arith, h.0, Placed-hi base (p + b) hi requests ps h.2)

-- A block stands between `lo` and `hi`, and before every later one.
Placed-block :
    (base lo hi : ℕ) (requests : List (ℕ × ℕ)) (ps : List ℕ) (i j : ℕ) (p q b al : ℕ)
    → Placed base lo requests ps hi
    → get_elem? requests i ≡ some (b, al)
    → get_elem? ps i ≡ some p
    → get_elem? ps j ≡ some q
    → (lo ≤ p) × ((p - base) % al ≡ 0) × (p + b ≤ hi) × (i < j → p + b ≤ q)
Placed-block base lo hi [] ps i j p q b al h r e f = cc
Placed-block base lo hi (r0 ∷ requests) [] i j p q b al h r e f = cc
Placed-block base lo hi ((b0, al0) ∷ requests) (p0 ∷ ps) zero zero p q b al h r e f =
    ground (arith, h, Placed-hi base (p0 + b0) hi requests ps h.2)
Placed-block base lo hi ((b0, al0) ∷ requests) (p0 ∷ ps) zero (suc j) p q b al h r e f = ground (
  arith,
  h,
  Placed-hi base (p0 + b0) hi requests ps h.2,
  Placed-lo base (p0 + b0) hi requests ps j h.2 f,
)
Placed-block base lo hi ((b0, al0) ∷ requests) (p0 ∷ ps) (suc i) zero p q b al h r e f =
    let (above, aligned, below, apart) =
      Placed-block base (p0 + b0) hi requests ps i i p p b al h.2 r e e in
    (omega (arith, h.0), aligned, below, λ lt. absurd (omega arith))
Placed-block base lo hi ((b0, al0) ∷ requests) (p0 ∷ ps) (suc i) (suc j) p q b al h r e f =
    let (above, aligned, below, apart) =
      Placed-block base (p0 + b0) hi requests ps i j p q b al h.2 r e f in
    (omega (arith, h.0), aligned, below, λ lt. apart (omega arith))

-- The blocks of a client's allocations, whatever their order and sizes, are aligned as they were
-- asked to be (from the base of the arena), lie inside the arena, and do not overlap: an earlier
-- block ends where a later one begins, or before. The requests are sane, and the calls succeed.
pub alloc_all_disjoint :
    (a : Arena) (requests : List (ℕ × ℕ)) (out : List ℕ × Arena)
    → IsSound a
    → AllSane requests
    → alloc_all a requests ≡ ok out
    → (i j p q bytes align : ℕ) → get_elem? requests i ≡ some (bytes, align)
    → get_elem? out.0 i ≡ some p
    → get_elem? out.0 j ≡ some q
    → (a.base + a.used ≤ p)
      × ((p - a.base) % align ≡ 0)
      × (p + bytes ≤ a.base + a.cap)
      × (i < j → p + bytes ≤ q)
alloc_all_disjoint a requests out s sane e i j p q bytes align r f g =
    let (placed, sound, base, cap) = alloc_all-IsLaid a requests out s sane e in
    let (above, aligned, below, apart) =
      Placed-block a.base (a.base + a.used) (out.1.base + out.1.used) requests out.0 i j p q bytes
        align placed r f g in
    (above, aligned, omega (arith, below, sound.within, base, cap), apart)
