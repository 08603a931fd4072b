-- ===== src/Shadow/Chunks.antt =====
-- The threads of `build_parallel` (src/runtime/shadow.cpp) share out the rows of a tensor.
use native.Mathlib.Nat.{mod-lt, mod-eq_of_lt, div-le_self, mul-le-mul_left, mul_comm, div-add-mod'}
use fast_llm.Prelude.{
  ℕ, zero, suc, ◌+◌, ◌-◌, ◌*◌, ◌/◌, ◌%◌, ◌^◌, ◌≤◌, ◌<◌, ◌≡◌, refl, ap, ◌∙◌, sym, bit_and, Bool,
  true, false, ◌&&◌, ltb, leb, ◌==◌, Option, none, some, some-injective, get_elem?, if◌then◌else◌,
  List, [], ◌∷◌, arith, Bool-cases, inl, inr,
}
use fast_llm.Prelude.Bits.{bit_and_low}
use fast_llm.Prelude.Words.{u64}
use fast_llm.Shadow.{
  threads, chunk_size, chunks_from, build_parallel, choose_layout, is_q4_k, TensorDesc,
}

-- How many of the chunks hold the row `r`.
abbrev pub holders : ℕ → List (ℕ × ℕ) → ℕ
holders r [] = 0
holders r ((r0, n) ∷ chunks) = (if leb r0 r && ltb r (r0 + n) then 1 else 0) + holders r chunks

-- Chunks begin at even rows, and hold an even number of rows.
abbrev pub AllEven : List (ℕ × ℕ) → Type 0
AllEven [] = Unit
AllEven ((r0, n) ∷ chunks) = (r0 % 2 ≡ 0) × (n % 2 ≡ 0) × AllEven chunks

next-mul : (i c : ℕ) → (i + 1) * c ≡ i * c + c
next-mul i c = omega arith

even-mul : (i c : ℕ) → c % 2 ≡ 0 → i * c % 2 ≡ 0
even-mul zero c e = omega arith
even-mul (suc i) c e = omega (arith, even-mul i c e)

module _ (rows chunk : ℕ) (small : rows + chunk < 2 ^ 63) where
  exact : (i : ℕ) → i * chunk ≤ rows + chunk → u64 (i * chunk) ≡ i * chunk
  exact i lt = mod-eq_of_lt {n = i * chunk} {m = 2 ^ 64} (omega arith)

  -- Each row from the start of thread `i` to the end of thread `i + k` is in one chunk.
  holders-chunks_from :
      (k i r : ℕ)
      → i * chunk ≤ rows + chunk
      → r < rows
      → rows ≤ (i + k) * chunk
      → holders r (chunks_from rows chunk k i) ≡ (if leb (i * chunk) r then 1 else 0)
  unfolding chunks_from
  holders-chunks_from zero i r start lt enough = ground arith
  holders-chunks_from (suc k) i r start lt enough =
      rw (exact i start) (elim (Bool-cases (leb rows (i * chunk))) [
        | inl q ↦ rw q (ground arith)
        | inr q ↦ rw q (
            ground (
              arith,
              next-mul i chunk,
              holders-chunks_from k (i + 1) r (ground (arith, next-mul i chunk)) lt (
                  omega (arith, ap (λ j. j * chunk) {x = i + suc k} {y = i + 1 + k} (omega arith))),
            ))
      ])

  AllEven-chunks_from :
      (k i : ℕ)
      → chunk % 2 ≡ 0
      → rows % 2 ≡ 0
      → i * chunk ≤ rows + chunk
      → AllEven (chunks_from rows chunk k i)
  unfolding chunks_from
  AllEven-chunks_from zero i e e' start = tt
  AllEven-chunks_from (suc k) i e e' start =
      rw (exact i start) (elim (Bool-cases (leb rows (i * chunk))) [
        | inl q ↦ rw q tt
        | inr q ↦ rw q (
          even-mul i chunk e,
          ground (arith, even-mul i chunk e),
          AllEven-chunks_from k (i + 1) e e' (ground (arith, next-mul i chunk)),
        )
      ])

-- The size of a chunk, and what it comes to over all threads.
chunk_size_lem :
    (rows nt : ℕ)
    → 0 < nt
    → rows + nt < 2 ^ 62
    → (chunk_size rows nt % 2 ≡ 0)
      × (chunk_size rows nt ≤ rows + nt)
      × (rows ≤ nt * chunk_size rows nt)
unfolding chunk_size
chunk_size_lem rows nt pos small =
    rw exact (rw low (rw whole (omega arith, omega (arith, small_q), omega (arith, covers))))
  where
    exact : u64 (rows + nt - 1) ≡ rows + nt - 1
    exact = omega arith

    q : ℕ
    q = (rows + nt - 1) / nt

    low : bit_and q 1 ≡ q % 2
    low = bit_and_low q 1

    small_q : q ≤ rows + nt - 1
    small_q = div-le_self (rows + nt - 1) nt

    whole : u64 (q + q % 2) ≡ q + q % 2
    whole = mod-eq_of_lt {n = q + q % 2} {m = 2 ^ 64} (omega (arith, small_q))

    scaled : nt * q ≤ nt * (q + q % 2)
    scaled = mul-le-mul_left nt (omega arith)

    covers : rows ≤ nt * (q + q % 2)
    covers =
        omega (
          arith,
          div-add-mod' (rows + nt - 1) nt,
          mod-lt (rows + nt - 1) pos,
          scaled,
          mul_comm q nt,
        )

-- Every row of the tensor is built by exactly one thread.
pub build_parallel_covers :
    (rows concurrency r : ℕ)
    → rows < 2 ^ 61
    → concurrency < 2 ^ 32
    → r < rows
    → holders r (build_parallel rows concurrency) ≡ 1
unfolding build_parallel
build_parallel_covers rows concurrency r few_rows few_threads lt =
    let nt = threads concurrency in
    let (even, le, covers) = chunk_size_lem rows nt (omega arith) (omega arith) in
    holders-chunks_from rows (chunk_size rows nt) (omega (arith, le)) nt 0 r (omega arith) lt
      (omega (arith, covers))
    ∙ ground arith

build_parallel-AllEven :
    (rows concurrency : ℕ)
    → rows < 2 ^ 61
    → concurrency < 2 ^ 32
    → rows % 2 ≡ 0
    → AllEven (build_parallel rows concurrency)
unfolding build_parallel
build_parallel-AllEven rows concurrency few_rows few_threads even_rows =
    let nt = threads concurrency in
    let (even, le, covers) = chunk_size_lem rows nt (omega arith) (omega arith) in
    AllEven-chunks_from rows (chunk_size rows nt) (omega (arith, le)) nt 0 even even_rows
      (omega arith)

choose_layout-false : (ts : List TensorDesc) → choose_layout false ts ≡ false
unfolding choose_layout
choose_layout-false [] = refl
choose_layout-false (t ∷ ts) = choose_layout-false ts

-- Where the paired layout is chosen, every tensor that is stored in it has an even number of rows.
choose_layout-even :
    (ts : List TensorDesc) (smmla : Bool) (i : ℕ) (t : TensorDesc)
    → choose_layout smmla ts ≡ true
    → get_elem? ts i ≡ some t
    → is_q4_k t.fmt ≡ true
    → t.rows_total % 2 ≡ 0
unfolding choose_layout
choose_layout-even [] smmla i t chosen at q4 = absurd (none-ne at)
  where
    none-ne : ¬ (◌≡◌ {A = Option TensorDesc} none (some t))
    none-ne e = cc
choose_layout-even (t0 ∷ ts) false i t chosen at q4 =
    absurd (clash (sym (choose_layout-false ts) ∙ chosen))
  where
    clash : ¬ (false ≡ true)
    clash e = cc
choose_layout-even (t0 ∷ ts) true zero t chosen at q4 =
    let same : t0 ≡ t = some-injective at in
    elim (Bool-cases (is_q4_k t0.fmt && bit_and t0.rows_total 1 == 1)) [
      | inl q ↦ absurd (clash (sym (choose_layout-false ts) ∙ (rw q at chosen)))
      | inr q ↦ rw⁻¹ same (even_of (ap (λ (x : TensorDesc). is_q4_k x.fmt) same ∙ q4) q)
    ]
  where
    clash : ¬ (false ≡ true)
    clash e = cc

    low : bit_and t0.rows_total 1 ≡ t0.rows_total % 2
    low = bit_and_low t0.rows_total 1

    even_of :
        is_q4_k t0.fmt ≡ true
        → (is_q4_k t0.fmt && bit_and t0.rows_total 1 == 1) ≡ false
        → t0.rows_total % 2 ≡ 0
    even_of yes' q = ground (arith, low, yes', q)
choose_layout-even (t0 ∷ ts) true (suc i) t chosen at q4 =
    choose_layout-even ts (if is_q4_k t0.fmt && bit_and t0.rows_total 1 == 1 then false else true) i
      t chosen at q4

-- No thread gets half of a pair of rows: where the paired layout is chosen for the tensors, the chunks of
-- each tensor that is stored in it begin at even rows and hold even numbers of rows.
pub choose_layout-AllEven :
    (ts : List TensorDesc) (smmla : Bool) (concurrency i : ℕ) (t : TensorDesc)
    → choose_layout smmla ts ≡ true
    → get_elem? ts i ≡ some t
    → is_q4_k t.fmt ≡ true
    → t.rows_total < 2 ^ 61
    → concurrency < 2 ^ 32
    → AllEven (build_parallel t.rows_total concurrency)
choose_layout-AllEven ts smmla concurrency i t chosen at q4 few_rows few_threads =
    build_parallel-AllEven t.rows_total concurrency few_rows few_threads
      (choose_layout-even ts smmla i t chosen at q4)
