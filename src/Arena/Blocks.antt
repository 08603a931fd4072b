-- ===== src/Arena/Blocks.antt =====
-- What the allocator (src/runtime/arena.cpp) promises of the blocks that it hands out.
use native.Mathlib.Nat.{mod-lt, div-add-mod', mul-mod_left, le_of_eq, add-suc, pow-suc}
use fast_llm.Prelude.{
  ℕ, zero, suc, ◌+◌, ◌-◌, ◌/◌, ◌%◌, ◌^◌, ◌≤◌, ◌<◌, ◌≡◌, refl, ◌∙◌, ap, sym, ap₂, ltb, if◌then◌else◌,
  arith, bit_and,
}
use fast_llm.Prelude.Bits.{two_pow-pos, bit_and_high}
use fast_llm.Prelude.Result.{ok, err}
use fast_llm.Prelude.Words.{u64, sub64, not64}
use fast_llm.Arena.{Arena, exhausted, aligned_offset, alloc}

-- The least multiple of `2 ^ k` that is not below `x`.
unfoldable pub round_up : ℕ → ℕ → ℕ
round_up x k = (x + 2 ^ k - 1) - (x + 2 ^ k - 1) % 2 ^ k

pub round_up_bounds :
    (x k : ℕ) → (x ≤ round_up x k) × (round_up x k < x + 2 ^ k) × (round_up x k % 2 ^ k ≡ 0)
unfolding round_up
round_up_bounds x k = (
  omega (arith, mod-lt (x + 2 ^ k - 1) (two_pow-pos k), two_pow-pos k),
  omega (arith, two_pow-pos k),
  ap (λ (t : ℕ). t % 2 ^ k) (omega (arith, div-add-mod' (x + 2 ^ k - 1) (2 ^ k)))
      ∙ mul-mod_left ((x + 2 ^ k - 1) / 2 ^ k) (2 ^ k),
)

aligned_offset-eq :
    (used d k : ℕ)
    → d + k ≡ 64
    → used + 2 ^ k ≤ 2 ^ 64
    → aligned_offset used (2 ^ k) ≡ round_up used k
unfolding aligned_offset round_up
aligned_offset-eq used d k e fit =
    ap₂ bit_and word mask
    ∙ bit_and_high d k (used + 2 ^ k - 1) (omega (arith, width, two_pow-pos k))
  where
    width : 2 ^ (d + k) ≡ 2 ^ 64
    width = ap (λ (n : ℕ). 2 ^ n) e

    word : sub64 (u64 (used + 2 ^ k)) 1 ≡ used + 2 ^ k - 1
    word = omega (arith, two_pow-pos k)

    mask : not64 (sub64 (2 ^ k) 1) ≡ 2 ^ (d + k) - 2 ^ k
    mask = omega (arith, width, two_pow-pos k)

-- With a power of two as the alignment, and sizes that do not wrap, `alloc` hands out the next
-- aligned block of the arena if it fits, and fails if it does not.
pub alloc_lem :
    (a : Arena) (bytes d k : ℕ)
    → d + k ≡ 64
    → a.used + 2 ^ k + bytes ≤ 2 ^ 64
    → alloc a bytes (2 ^ k) ≡ (
        if ltb a.cap (round_up a.used k + bytes)
        then err exhausted
        else ok (u64 (a.base + round_up a.used k), record a { used = round_up a.used k + bytes }))
unfolding alloc
alloc_lem a bytes d k e fit = rw (aligned_offset-eq a.used d k e (omega arith), small)
  where
    small : u64 (round_up a.used k + bytes) ≡ round_up a.used k + bytes
    small = omega (arith, round_up_bounds a.used k)

-- A request that cannot wrap: an alignment of `2 ^ k`, and at most 2^62 bytes.
pub record IsSane (bytes align : ℕ) : Type 0 where
  pub k : ℕ
  pub power : align ≡ 2 ^ k
  pub small_align : k ≤ 62
  pub small : bytes ≤ 2 ^ 62

pub record IsSound (a : Arena) : Type 0 where
  pub within : a.used ≤ a.cap
  pub small : a.cap ≤ 2 ^ 62
  pub mapped : a.base + a.cap < 2 ^ 64

pow-le : (k d : ℕ) → 2 ^ k ≤ 2 ^ (k + d)
pow-le k zero = le_of_eq (ap (λ (n : ℕ). 2 ^ n) (omega arith))
pow-le k (suc d) = omega (arith, pow-le k d, ap (λ (n : ℕ). 2 ^ n) (add-suc k d), pow-suc 2 (k + d))

-- A block that `alloc` hands out is aligned, starts where the used part ends or later, ends
-- inside the arena, and is covered by the used part from then on.
pub record IsBlock (a a' : Arena) (bytes align p : ℕ) : Type 0 where
  pub aligned : (p - a.base) % align ≡ 0
  pub above : a.base + a.used ≤ p
  pub covered : p + bytes ≡ a.base + a'.used
  pub sound : IsSound a'
  pub same : (a'.base ≡ a.base) × (a'.cap ≡ a.cap)

pow-le_62 : (k : ℕ) → k ≤ 62 → 2 ^ k ≤ 2 ^ 62
pow-le_62 k h =
    let sum : k + (62 - k) ≡ 62 = omega arith in
    omega (arith, pow-le k (62 - k), ap (λ (n : ℕ). 2 ^ n) sum)

alloc-eq_ok :
    (a : Arena) (bytes k : ℕ) {p : ℕ} {a' : Arena}
    → IsSound a
    → k ≤ 62
    → bytes ≤ 2 ^ 62
    → alloc a bytes (2 ^ k) ≡ ok (p, a')
    → (round_up a.used k + bytes ≤ a.cap)
      × (p ≡ a.base + round_up a.used k)
      × (a' ≡ record a { used = round_up a.used k + bytes })
alloc-eq_ok a bytes k s hk hb e = ground (
  arith,
  alloc_lem a bytes (64 - k) k (omega arith) (omega (arith, s.within, s.small, pow-le_62 k hk)),
  round_up_bounds a.used k,
  s.mapped,
)

pub alloc-IsBlock :
    (a : Arena) (bytes align : ℕ) {p : ℕ} {a' : Arena}
    → IsSound a
    → IsSane bytes align
    → alloc a bytes align ≡ ok (p, a')
    → IsBlock a a' bytes align p
alloc-IsBlock a bytes align {p} {a'} s q e =
    let (fits, at, new) =
      alloc-eq_ok a bytes q.k s q.small_align q.small (ap (alloc a bytes) (sym q.power) ∙ e) in
    let (up, near, multiple) = round_up_bounds a.used q.k in
    rw (new, at)
      (record {
        aligned = ap₂ ◌%◌ (offset (round_up a.used q.k)) q.power ∙ multiple;
        above = omega (arith, up);
        covered = omega arith;
        sound = record { within = fits; small = s.small; mapped = s.mapped };
        same = (refl, refl);
      })
  where
    offset : (r : ℕ) → a.base + r - a.base ≡ r
    offset r = omega arith

-- The check `off + bytes > cap_` wraps: a request so large that the sum passes 2^64 and comes down
-- inside the arena is granted, though it does not fit, and the used part shrinks below its end.
pub alloc_wraps :
    (a : Arena) (bytes d k : ℕ)
    → d + k ≡ 64
    → a.used + 2 ^ k ≤ 2 ^ 64
    → bytes < 2 ^ 64
    → a.cap < bytes
    → 2 ^ 64 ≤ round_up a.used k + bytes
    → round_up a.used k + bytes ≤ 2 ^ 64 + a.cap
    → (p : ℕ) × (a' : Arena) × (alloc a bytes (2 ^ k) ≡ ok (p, a')) × (a'.used < round_up a.used k)
unfolding alloc
alloc_wraps a bytes d k e fit small big lo hi = (
  u64 (a.base + round_up a.used k),
  record a { used = u64 (round_up a.used k + bytes) },
  rw (aligned_offset-eq a.used d k e fit) (ground arith),
  omega arith,
)
