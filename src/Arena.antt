-- ===== src/Arena.antt =====
-- src/runtime/arena.cpp: the bump allocator. The mutex makes each call one step, and the base
-- address comes from the system; the memory itself is zeroed by `Arena::create` and is not modelled.
pub mod Blocks
pub mod Disjoint
mod Tests
use fast_llm.Prelude.{ℕ, ◌+◌, ◌-◌, ◌*◌, ◌/◌, ◌^◌, bit_and, ltb, if◌then◌else◌, List, [], ◌∷◌}
use fast_llm.Prelude.Result.{Result, ok, err, ◌>>=◌}
use fast_llm.Prelude.Words.{u64, sub64, not64}

pub record Arena : Type 0 where
  pub base : ℕ
  pub cap : ℕ
  pub used : ℕ

pub data ArenaError : Type 0 where
  exhausted : ArenaError

unfoldable pub create : ℕ → ℕ → Arena
create base bytes = record { base = base; cap = bytes; used = 0 }

-- `(used_ + align - 1) & ~(align - 1)`
unfoldable pub aligned_offset : ℕ → ℕ → ℕ
aligned_offset used align = bit_and (sub64 (u64 (used + align)) 1) (not64 (sub64 align 1))

-- The address comes with the new state.
unfoldable pub alloc : Arena → ℕ → ℕ → Result ArenaError (ℕ × Arena)
alloc a bytes align =
    let off = aligned_offset a.used align in
    if ltb a.cap (u64 (off + bytes))
    then err exhausted
    else ok (u64 (a.base + off), record a { used = u64 (off + bytes) })

-- A client's calls in order; the result lists the addresses. The program stops at the first failure.
unfoldable pub alloc_all : Arena → List (ℕ × ℕ) → Result ArenaError (List ℕ × Arena)
alloc_all a [] = ok ([], a)
alloc_all a ((bytes, align) ∷ requests) = do
  (p, a') ← alloc a bytes align
  (ps, a'') ← alloc_all a' requests
  ok (p ∷ ps, a'')
