-- ===== src/Queue/Pop.antt =====
-- `pop` and `pop_bulk` of src/runtime/queue.h take from the front of the list.
use native.Mathlib.Nat.{add-mod_right}
use fast_llm.Prelude.{
  ℕ, zero, suc, ◌+◌, ◌-◌, ◌^◌, ◌%◌, ◌≤◌, ◌<◌, ◌≡◌, refl, ap, ap₂, ◌∙◌, sym, subst, bit_and, min,
  true, false, ◌==◌, Option, none, some, List, [], ◌∷◌, update, length, take, drop, arith, dec_lt,
  ℕ_discrete,
}
use fast_llm.Prelude.Words.{u32, sub32}
use fast_llm.Queue.{Queue, pop, pop_from, pop_bulk, ready, take_cells}
use fast_llm.Queue.Fifo.{Holds, Holds-tail, cell-injective, cell_of, cap-bounds}

module _ (k : ℕ) (some_cells : 1 ≤ k) (few_cells : k ≤ 31) where
  module _ (q : Queue) (t : ℕ) where
    abbrev pub released : Queue
    released = record q { seq = update q.seq (t % 2 ^ k) (u32 (u32 t + q.mask + 1)) }

    pub released-Holds : (x : ℕ) (l : List ℕ) → Holds k q t (x ∷ l) → Holds k released (t + 1) l
    released-Holds x l v = record {
      mask = v.mask;
      head = v.head ∙ ap u32 (omega arith);
      small = omega (arith, v.small);
      filled = λ i p. ground (
        arith,
        next i,
        v.filled (suc i) (omega arith),
        cell-injective t 0 (suc i) (2 ^ k) (omega (arith, v.small)) (omega (arith, v.small)),
        ap (λ j. j % 2 ^ k) {x = t + 0} {y = t} (omega arith),
      );
      free = λ i p p'. elim (ℕ_discrete (suc i) (2 ^ k)) [
        | yes e ↦ ground (
          arith,
          next i ∙ ap (λ j. (t + j) % 2 ^ k) e ∙ add-mod_right t (2 ^ k),
          v.mask,
          cap-bounds k some_cells few_cells,
        )
        | no ne ↦ ground (
          arith,
          next i,
          v.free (suc i) (omega arith) (omega arith),
          cell-injective t 0 (suc i) (2 ^ k) (omega arith) (omega arith),
          ap (λ j. j % 2 ^ k) {x = t + 0} {y = t} (omega arith),
        )
      ];
    }
      where
        next : (i : ℕ) → (t + 1 + i) % 2 ^ k ≡ (t + suc i) % 2 ^ k
        next i = ap (λ j. j % 2 ^ k) (omega arith)

    front : (l : List ℕ) → Holds k q t l → bit_and (u32 t) q.mask ≡ t % 2 ^ k
    front l v = rw v.mask (cell_of k t (omega arith))

    first_cell : (t + 0) % 2 ^ k ≡ t % 2 ^ k
    first_cell = ap (λ j. j % 2 ^ k) (omega arith)

    -- A pop takes the first element; a pop of an empty queue changes nothing and says so.
    pub pop-cons :
        (fuel x : ℕ) (l : List ℕ)
        → Holds k q t (x ∷ l)
        → q.tail ≡ u32 t
        → pop (suc fuel) q ≡ some (some x, record released { tail = u32 (u32 t + 1) })
    unfolding pop pop_from
    pop-cons fuel x l v e =
        let here : q.seq (t % 2 ^ k) ≡ u32 (t + 1) =
          omega (arith, ap q.seq first_cell, (v.filled 0 (omega arith)).0) in
        let value : q.val (t % 2 ^ k) ≡ x =
          ap q.val (sym first_cell) ∙ (v.filled 0 (omega arith)).1 in
        let same : (sub32 (q.seq (t % 2 ^ k)) (u32 (u32 t + 1)) == 0) ≡ true =
          ground (arith, here) in
        let won : (u32 t == u32 t) ≡ true = ground arith in
        rw e (rw (front (x ∷ l) v) (rw same (rw won (rw value refl))))

    pub pop-nil : (fuel : ℕ) → Holds k q t [] → q.tail ≡ u32 t → pop (suc fuel) q ≡ some (none, q)
    unfolding pop pop_from
    pop-nil fuel v e =
        let here : q.seq (t % 2 ^ k) ≡ u32 t = omega (
          arith,
          ap q.seq first_cell,
          v.free 0 (omega arith) (omega (arith, cap-bounds k some_cells few_cells)),
        ) in
        let dif : sub32 (q.seq (t % 2 ^ k)) (u32 (u32 t + 1)) ≡ 2 ^ 32 - 1 = omega (arith, here) in
        rw e (rw (front [] v) (rw dif refl))

    -- The cells that are ready are those of the list.
    ready_at :
        (l : List ℕ) (m i : ℕ)
        → Holds k q t l
        → i ≤ length l
        → ready q (u32 (t + i)) m ≡ min m (length l - i)
    unfolding ready
    ready_at l zero i v le = omega arith
    ready_at l (suc m) i v le = rw cell (elim (dec_lt i (length l)) [
      | yes p ↦
          let same : (sub32 (q.seq ((t + i) % 2 ^ k)) (u32 (u32 (t + i) + 1)) == 0) ≡ true =
            ground (arith, v.filled i p) in
          let next : u32 (u32 (t + i) + 1) ≡ u32 (t + (i + 1)) = omega arith in
          rw same
            (omega (arith, ap (λ pos. ready q pos m) next, ready_at l m (i + 1) v (omega arith)))
      | no p ↦
          let other : (sub32 (q.seq ((t + i) % 2 ^ k)) (u32 (u32 (t + i) + 1)) == 0) ≡ false =
            elim (dec_lt i (2 ^ k)) [
              | yes q' ↦ ground (arith, v.free i (omega arith) q')
              | no q' ↦
                  let wraps : i ≡ 2 ^ k = omega (arith, v.small) in
                  ground (
                    arith,
                    ap q.seq (
                        ap (λ j. (t + j) % 2 ^ k) wraps ∙ add-mod_right t (2 ^ k) ∙ sym first_cell),
                    v.filled 0 (omega (arith, cap-bounds k some_cells few_cells)),
                    cap-bounds k some_cells few_cells,
                    wraps,
                  )
            ] in
          rw other (omega arith)
    ])
      where
        cell : bit_and (u32 (t + i)) q.mask ≡ (t + i) % 2 ^ k
        cell = rw v.mask (cell_of k (t + i) (omega arith))

  pub ready_lem :
      (q : Queue) (t : ℕ) (l : List ℕ) (m : ℕ)
      → Holds k q t l
      → ready q (u32 t) m ≡ min m (length l)
  ready_lem q t l m v =
      ap (λ p. ready q (u32 p) m) (omega arith)
      ∙ ready_at q t l m 0 v (omega arith)
      ∙ ap (min m) (omega arith)

  -- The loop over the claimed cells hands out the front of the list in order, and leaves the rest.
  pub take_cells_lem :
      (q : Queue) (t : ℕ) (l : List ℕ) (m : ℕ)
      → Holds k q t l
      → m ≤ length l
      → ((take_cells q (u32 t) m).0 ≡ take m l)
        × Holds k (take_cells q (u32 t) m).1 (t + m) (drop m l)
        × ((take_cells q (u32 t) m).1.tail ≡ q.tail)
  unfolding take_cells
  take_cells_lem q t l zero v le =
      (refl, subst (λ i. Holds k q i l) {y = t + 0} (omega arith) v, refl)
  take_cells_lem q t [] (suc m) v le = absurd (omega arith)
  take_cells_lem q t (x ∷ l) (suc m) v le =
      let rest =
        take_cells_lem (released q t) (t + 1) l m (released-Holds q t x l v) (omega arith) in
      rw (front q t (x ∷ l) v) (
        rw next (
          ap₂ (λ (y : ℕ) (ys : List ℕ). y ∷ ys) value rest.0,
          subst (λ i. Holds k (take_cells (released q t) (u32 (t + 1)) m).1 i (drop m l))
              {x = t + 1 + m} {y = t + suc m} (omega arith) rest.1,
          rest.2,
        ))
    where
      next : u32 (u32 t + 1) ≡ u32 (t + 1)
      next = omega arith

      value : q.val (t % 2 ^ k) ≡ x
      value = ap q.val (sym (first_cell q t)) ∙ (v.filled 0 (omega arith)).1

  -- What a bulk pop of `n` elements does.
  abbrev pub Takes : Queue → ℕ → List ℕ → ℕ → Option (List ℕ × Queue) → Type 0
  Takes q t l n result =
      (q' : Queue) × (result ≡ some (take n l, q'))
      × Holds k q' (t + n) (drop n l)
      × (q'.tail ≡ u32 (t + n))

  bulk-nil :
      (q : Queue) (t fuel m : ℕ)
      → Holds k q t []
      → q.tail ≡ u32 t
      → Takes q t [] 0 (pop_bulk (suc fuel) q m)
  unfolding pop_bulk ready
  bulk-nil q t fuel m v e =
      let none_ready : ready q (u32 t) m ≡ 0 = omega (arith, ready_lem q t [] m v) in
      let free : q.seq (t % 2 ^ k) ≡ u32 t = omega (
        arith,
        ap q.seq (first_cell q t),
        v.free 0 (omega arith) (omega (arith, cap-bounds k some_cells few_cells)),
      ) in
      let dif : sub32 (q.seq (t % 2 ^ k)) (u32 (u32 t + 1)) ≡ 2 ^ 32 - 1 = omega (arith, free) in
      let same : t ≡ t + 0 = omega arith in
      (
        q,
        rw e (rw none_ready (rw (front q t [] v) (rw dif refl))),
        subst (λ i. Holds k q i []) same v,
        e ∙ ap u32 same,
      )

  bulk-cons :
      (q : Queue) (t fuel m n : ℕ) (l : List ℕ)
      → Holds k q t l
      → q.tail ≡ u32 t
      → n ≡ min m (length l)
      → 0 < n
      → Takes q t l n (pop_bulk (suc fuel) q m)
  unfolding pop_bulk ready take_cells
  bulk-cons q t fuel m n l v e size pos =
      let q0 : Queue = record q { tail = u32 (u32 t + n) } in
      let v0 : Holds k q0 t l = Holds-tail k q t l (u32 (u32 t + n)) v in
      let (taken, holds, tail) = take_cells_lem q0 t l n v0 (omega arith) in
      let found : ready q (u32 t) m ≡ n = ready_lem q t l m v ∙ sym size in
      let some_ready : (n == 0) ≡ false = ground arith in
      (
        (take_cells q0 (u32 t) n).1,
        rw e (
            rw found
              (rw some_ready (ap (λ (vs : List ℕ). some (vs, (take_cells q0 (u32 t) n).1)) taken))),
        holds,
        tail ∙ omega arith,
      )

  -- A bulk pop takes as many elements as it may and there are.
  pub pop_bulk_lem :
      (q : Queue) (t fuel m : ℕ) (l : List ℕ)
      → Holds k q t l
      → q.tail ≡ u32 t
      → 0 < m
      → Takes q t l (min m (length l)) (pop_bulk (suc fuel) q m)
  pop_bulk_lem q t fuel m [] v e pos =
      subst (λ n. Takes q t [] n (pop_bulk (suc fuel) q m)) {x = 0} (omega arith)
        (bulk-nil q t fuel m v e)
  pop_bulk_lem q t fuel m (x ∷ l) v e pos =
      bulk-cons q t fuel m (min m (length (x ∷ l))) (x ∷ l) v e refl (omega arith)
