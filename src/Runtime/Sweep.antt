-- ===== src/Runtime/Sweep.antt =====
-- The order in which a worker tries the rings of the blocks, with `FASTLLM_PERBLOCK_Q`: the CPU
-- thread of src/runtime/runtime.cpp, and the block of src/runtime/gpu_exec.cu.
use native.Mathlib.Nat.{mod-lt, mod-eq_of_lt, mod-add-mod, add-mod_right, zero-mod}
use fast_llm.Prelude.{
  ℕ, zero, suc, ◌+◌, ◌-◌, ◌%◌, ◌≤◌, ◌<◌, ◌≡◌, refl, ap, ◌∙◌, sym, ◌==◌, leb, ltb, if◌then◌else◌,
  List, [], ◌∷◌, length, count, count-nil, count-cons, arith, Bool-cases, inl, inr, Option, none,
  some,
}

-- The rings `(from + i) % nb`, for `i` below a bound.
unfoldable pub rings : ℕ → ℕ → ℕ → List ℕ
rings start zero nb = []
rings start (suc k) nb = start % nb ∷ rings (start + 1) k nb

-- The thread's `(rr + k) % nb`, with `k` from 0
unfoldable pub cpu_sweep : ℕ → ℕ → List ℕ
cpu_sweep rr nb = rings rr nb nb

-- The block's `(peer_rr + i) % nb`, with `i` from 1
unfoldable pub gpu_sweep : ℕ → ℕ → List ℕ
gpu_sweep peer_rr nb = rings (peer_rr + 1) (nb - 1) nb

-- The ring that the sweep takes a task from.
unfoldable pub first_full : (ℕ → List ℕ) → List ℕ → Option ℕ
first_full ring [] = none
first_full ring (b ∷ bs) = if ltb 0 (length (ring b)) then some b else first_full ring bs

mod-next : (x nb : ℕ) → 0 < nb → (x + 1) % nb ≡ (if x % nb + 1 == nb then 0 else x % nb + 1)
mod-next x nb pos = elim (Bool-cases (x % nb + 1 == nb)) [
  | inl q ↦ rw q (
      sym (mod-add-mod x nb 1)
      ∙ ap (λ (t : ℕ). t % nb) (ground arith)
      ∙ add-mod_right 0 nb
      ∙ zero-mod nb)
  | inr q ↦ rw q (
      sym (mod-add-mod x nb 1)
      ∙ mod-eq_of_lt {n = x % nb + 1} {m = nb} (ground (arith, mod-lt x {m = nb} pos)))
]

-- How far it is from ring `r` forward to ring `b`.
abbrev ahead : ℕ → ℕ → ℕ → ℕ
ahead nb r b = if leb r b then b - r else b + nb - r

count-rings :
    (start k nb b : ℕ)
    → b < nb
    → k ≤ nb
    → count b (rings start k nb) ≡ (if ltb (ahead nb (start % nb) b) k then 1 else 0)
unfolding rings
count-rings start zero nb b lt le = ground (arith, count-nil b)
count-rings start (suc k) nb b lt le = ground (
  arith,
  count-rings (start + 1) k nb b lt (omega arith),
  mod-next start nb (omega arith),
  mod-lt start {m = nb} (omega arith),
  mod-lt (start + 1) {m = nb} (omega arith),
  count-cons b (start % nb) (rings (start + 1) k nb),
)

abbrev pub Found : (ℕ → List ℕ) → List ℕ → Type 0
Found ring bs = (b : ℕ) × (first_full ring bs ≡ some b) × (0 < length (ring b))

first_full-cons :
    (ring : ℕ → List ℕ) (b d : ℕ) (bs : List ℕ)
    → 0 < count b (d ∷ bs)
    → 0 < length (ring b)
    → (0 < count b bs → Found ring bs)
    → Found ring (d ∷ bs)
unfolding first_full
first_full-cons ring b d bs h full later = elim (Bool-cases (ltb 0 (length (ring d)))) [
  | inl q ↦ (d, rw q refl, ground arith)
  | inr q ↦
      let (b', found, some_there) =
        later (ground (arith, count-cons b d bs, ap (λ i. length (ring i)) {x = d} {y = b})) in
      (b', rw q found, some_there)
]

first_full-some :
    (ring : ℕ → List ℕ) (b : ℕ) (bs : List ℕ) → 0 < count b bs → 0 < length (ring b) → Found ring bs
first_full-some ring b [] h full = absurd (omega (arith, count-nil b))
first_full-some ring b (d ∷ bs) h full =
    first_full-cons ring b d bs h full (λ later. first_full-some ring b bs later full)

-- A thread tries every block's ring once, from wherever it starts.
pub cpu_sweep_covers : (rr nb b : ℕ) → b < nb → count b (cpu_sweep rr nb) ≡ 1
unfolding cpu_sweep
cpu_sweep_covers rr nb b lt =
    ground (arith, count-rings rr nb nb b lt (omega arith), mod-lt rr {m = nb} (omega arith))

-- A block tries every ring once but one, the ring `peer_rr % nb`, which it leaves out: a block
-- starts at its right neighbour, and so does not try that neighbour's ring.
pub gpu_sweep_skips :
    (peer_rr nb b : ℕ)
    → b < nb
    → count b (gpu_sweep peer_rr nb) ≡ (if peer_rr % nb == b then 0 else 1)
unfolding gpu_sweep
gpu_sweep_skips peer_rr nb b lt = ground (
  arith,
  count-rings (peer_rr + 1) (nb - 1) nb b lt (omega arith),
  mod-next peer_rr nb (omega arith),
  mod-lt peer_rr {m = nb} (omega arith),
  mod-lt (peer_rr + 1) {m = nb} (omega arith),
)

-- A thread that tries the rings finds a task whenever some ring holds one.
pub cpu_sweep_finds :
    (ring : ℕ → List ℕ) (rr nb b : ℕ) → b < nb → 0 < length (ring b) → Found ring (cpu_sweep rr nb)
cpu_sweep_finds ring rr nb b lt full =
    first_full-some ring b (cpu_sweep rr nb) (omega (arith, cpu_sweep_covers rr nb b lt)) full
