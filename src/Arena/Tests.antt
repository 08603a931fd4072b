-- ===== src/Arena/Tests.antt =====
-- The theorems about src/runtime/arena.cpp at a small arena.
use fast_llm.Prelude.{ℕ, ◌+◌, ◌-◌, ◌%◌, ◌^◌, ◌≤◌, ◌<◌, ◌≡◌, refl, List, [], ◌∷◌, arith}
use fast_llm.Prelude.Result.{ok}
use fast_llm.Arena.{Arena, alloc, aligned_offset, alloc_all}
use fast_llm.Arena.Blocks.{round_up, alloc_wraps}
use fast_llm.Arena.Disjoint.{AllSane, alloc_all_disjoint}

abbrev arena : Arena
arena = record { base = 0x10000; cap = 1024; used = 0 }

abbrev requests : List (ℕ × ℕ)
requests = (100, 128) ∷ (8, 2) ∷ (256, 128) ∷ []

alloc_all-requests :
    alloc_all arena requests ≡ ok (0x10000 ∷ 0x10064 ∷ 0x10080 ∷ [], record arena { used = 384 })
unfolding alloc_all alloc aligned_offset
alloc_all-requests = refl

requests-AllSane : AllSane requests
requests-AllSane = (
  record { k = 7; power = refl; small_align = omega arith; small = omega arith },
  (
    record { k = 1; power = refl; small_align = omega arith; small = omega arith },
    (record { k = 7; power = refl; small_align = omega arith; small = omega arith }, tt),
  ),
)

alloc_all_disjoint_example :
    (0x10000 ≤ 0x10000)
    × ((0x10000 - 0x10000) % 128 ≡ 0)
    × (0x10000 + 100 ≤ 0x10000 + 1024)
    × (0 < 2 → 0x10000 + 100 ≤ 0x10080)
alloc_all_disjoint_example =
    alloc_all_disjoint arena requests _ (omega arith) requests-AllSane alloc_all-requests 0 2
      0x10000 0x10080 100 128 refl refl refl

alloc_wraps_example :
    (p : ℕ) × (a' : Arena) × (alloc (record arena { used = 128 }) (2 ^ 64 - 64) 128 ≡ ok (p, a'))
    × (a'.used < round_up 128 7)
unfolding round_up
alloc_wraps_example =
    alloc_wraps (record arena { used = 128 }) (2 ^ 64 - 64) 57 7 refl (omega arith) (omega arith)
      (omega arith) (omega arith) (omega arith)
