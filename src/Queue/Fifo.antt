-- ===== src/Queue/Fifo.antt =====
-- The queue of src/runtime/queue.h is a bounded first-in first-out list.
use native.Mathlib.Nat.{
  mod-lt, mod-eq_of_lt, mod-add-mod, mod-eq-sub-mod, add-mod_right, mod-mod_of_dvd, dvd_refl,
  dvd-mul_right_of_dvd, pow-suc, pow-le-pow_right,
}
use Prim.Native.Nat.{◌∣◌}
use fast_llm.Prelude.{
  ℕ, zero, suc, ◌+◌, ◌-◌, ◌*◌, ◌^◌, ◌%◌, ◌≤◌, ◌<◌, ◌≡◌, refl, ap, ◌∙◌, sym, subst, bit_and, true,
  false, ltb, leb, ◌==◌, if◌then◌else◌, some, List, [], ◌∷◌, ◌++◌, update, length, length-append,
  get_or, arith, Bool-cases, inl, inr,
}
use fast_llm.Prelude.Bits.{bit_and_low}
use fast_llm.Prelude.Words.{u32, sub32}
use fast_llm.Queue.{Queue, push, push_from}

-- The remainder of a sum whose second part is small.
mod-add_small :
    (x d m : ℕ) → d < m → (x + d) % m ≡ (if ltb (x % m + d) m then x % m + d else x % m + d - m)
mod-add_small x d m lt = elim (Bool-cases (ltb (x % m + d) m)) [
  | inl q ↦ rw q (sym (mod-add-mod x m d) ∙ mod-eq_of_lt {n = x % m + d} {m = m} (ground arith))
  | inr q ↦ rw q (
      sym (mod-add-mod x m d)
      ∙ mod-eq-sub-mod (ground arith)
      ∙ mod-eq_of_lt {n = x % m + d - m} {m = m} (omega (arith, mod-lt x {m = m} (omega arith))))
]

pub cell-injective : (t i j m : ℕ) → i < m → j < m → (t + i) % m ≡ (t + j) % m → i ≡ j
cell-injective t i j m hi hj e =
    ground (arith, mod-add_small t i m hi, mod-add_small t j m hj, mod-lt t {m = m} (omega arith))

two_pow-dvd : (k d : ℕ) → 2 ^ k ∣ 2 ^ (k + d)
two_pow-dvd k zero = subst (λ i. 2 ^ k ∣ 2 ^ i) {x = k} (omega arith) (dvd_refl (2 ^ k))
two_pow-dvd k (suc d) =
    subst (λ i. 2 ^ k ∣ i) {x = 2 ^ (k + d) * 2}
      (sym (ap (λ i. 2 ^ i) {y = suc (k + d)} (omega arith) ∙ pow-suc 2 (k + d)))
      (dvd-mul_right_of_dvd (2 ^ k) (two_pow-dvd k d) 2)

-- A 32-bit cursor and its mask give the cell of the full position.
pub cell_of : (k p : ℕ) → k ≤ 32 → bit_and (u32 p) (2 ^ k - 1) ≡ p % 2 ^ k
cell_of k p le =
    bit_and_low (u32 p) k
    ∙ mod-mod_of_dvd (2 ^ k) p (
        subst (λ i. 2 ^ k ∣ 2 ^ i) {x = k + (32 - k)} {y = 32} (omega arith)
          (two_pow-dvd k (32 - k)))

get_or-append :
    (l : List ℕ) (x i : ℕ)
    → get_or (l ++ (x ∷ [])) i 0 ≡ (if i == length l then x else get_or l i 0)
get_or-append [] x zero = refl
get_or-append [] x (suc i) = ground arith
get_or-append (y ∷ l) x zero = ground arith
get_or-append (y ∷ l) x (suc i) = get_or-append l x i ∙ ground arith

-- The cells and the head stand for the list `l`, whose first element has the position `t`.
pub record Holds (k : ℕ) (q : Queue) (t : ℕ) (l : List ℕ) : Type 0 where
  pub mask : q.mask ≡ 2 ^ k - 1
  pub head : q.head ≡ u32 (t + length l)
  pub small : length l ≤ 2 ^ k
  pub filled :
      (i : ℕ)
      → i < length l
      → (q.seq ((t + i) % 2 ^ k) ≡ u32 (t + i + 1)) × (q.val ((t + i) % 2 ^ k) ≡ get_or l i 0)
  pub free : (i : ℕ) → length l ≤ i → i < 2 ^ k → q.seq ((t + i) % 2 ^ k) ≡ u32 (t + i)

-- The tail has no part in it.
pub Holds-tail :
    (k : ℕ) (q : Queue) (t : ℕ) (l : List ℕ) (tail : ℕ)
    → Holds k q t l
    → Holds k (record q { tail = tail }) t l
Holds-tail k q t l tail v = record {
  mask = v.mask;
  head = v.head;
  small = v.small;
  filled = v.filled;
  free = v.free;
}

module _ (k : ℕ) (some_cells : 1 ≤ k) (few_cells : k ≤ 31) where
  pub cap-bounds : (2 ≤ 2 ^ k) × (2 ^ k ≤ 2 ^ 31)
  cap-bounds = (
    pow-le-pow_right (omega arith) {i = 1} {j = k} some_cells,
    pow-le-pow_right (omega arith) {i = k} {j = 31} few_cells,
  )

  module _ (q : Queue) (t : ℕ) (l : List ℕ) (v : Holds k q t l) where
    head_cell : bit_and q.head q.mask ≡ (t + length l) % 2 ^ k
    head_cell = rw v.head (rw v.mask (cell_of k (t + length l) (omega arith)))

    abbrev pub pushed : ℕ → Queue
    pushed x = record q {
      head = u32 (q.head + 1);
      val = update q.val ((t + length l) % 2 ^ k) x;
      seq = update q.seq ((t + length l) % 2 ^ k) (u32 (q.head + 1));
    }

    pub pushed-Holds : (x : ℕ) → length l < 2 ^ k → Holds k (pushed x) t (l ++ (x ∷ []))
    pushed-Holds x lt = record {
      mask = v.mask;
      head = omega (arith, v.head, length-append l (x ∷ []));
      small = omega (arith, length-append l (x ∷ []));
      filled = λ i p. ground (
        arith,
        v.filled i,
        v.head,
        length-append l (x ∷ []),
        get_or-append l x i,
        cell-injective t (length l) i (2 ^ k) lt (omega (arith, length-append l (x ∷ []))),
        ap (λ j. (t + j) % 2 ^ k) {x = length l} {y = i},
      );
      free = λ i p p'.
          ground (
            arith,
            v.free i,
            length-append l (x ∷ []),
            cell-injective t (length l) i (2 ^ k) lt p',
          );
    }

    -- A push to a queue that is not full appends; a push to a full queue changes nothing and says so.
    pub push_lem :
        (fuel x : ℕ)
        → push (suc fuel) q x
          ≡ (if ltb (length l) (2 ^ k) then some (true, pushed x) else some (false, q))
    unfolding push push_from
    push_lem fuel x = elim (Bool-cases (ltb (length l) (2 ^ k))) [
      | inl q' ↦
          let same : (sub32 (q.seq ((t + length l) % 2 ^ k)) q.head == 0) ≡ true =
            ground (arith, v.free (length l) (omega arith) (ground arith), v.head) in
          let won : (q.head == q.head) ≡ true = ground arith in
          rw q' (rw head_cell (rw same (rw won refl)))
      | inr q' ↦
          let filled : 0 < length l = ground (arith, cap-bounds) in
          let wraps : length l ≡ 2 ^ k = ground (arith, v.small) in
          let index : (t + length l) % 2 ^ k ≡ (t + 0) % 2 ^ k =
            ap (λ n. (t + n) % 2 ^ k) wraps
            ∙ add-mod_right t (2 ^ k)
            ∙ ap (λ n. n % 2 ^ k) {x = t} {y = t + 0} (omega arith) in
          let full : sub32 (q.seq ((t + length l) % 2 ^ k)) q.head ≡ 2 ^ 32 + 1 - 2 ^ k =
            omega (arith, ap q.seq index, (v.filled 0 filled).0, v.head, cap-bounds, wraps) in
          let busy : (2 ^ 32 + 1 - 2 ^ k == 0) ≡ false = ground (arith, cap-bounds) in
          let negative : leb (2 ^ 31) (2 ^ 32 + 1 - 2 ^ k) ≡ true = ground (arith, cap-bounds) in
          rw q' (rw head_cell (rw full (rw busy (rw negative refl))))
    ]
