-- ===== src/Queue.antt =====
-- The ready queue of src/runtime/queue.h, one call after the other: the cells with their sequence
-- numbers, and 32-bit cursors that wrap. A cell's index is below the capacity; `seq` and `val` are the
-- fields of the cells. `pop_bulk` and `pop_bulk_light` differ in their fences alone.
pub mod Fifo
pub mod Pop
pub mod Refines
mod Tests
use fast_llm.Prelude.{
  ℕ, zero, suc, ◌+◌, ◌-◌, ◌^◌, bit_and, Bool, true, false, leb, ◌==◌, if◌then◌else◌, Option, none,
  some, List, [], ◌∷◌, update,
}
use fast_llm.Prelude.Words.{u32, sub32}

pub record Queue : Type 0 where
  pub seq : ℕ → ℕ
  pub val : ℕ → ℕ
  pub mask : ℕ
  pub head : ℕ
  pub tail : ℕ

-- `kQueueEmpty`
abbrev pub queue_empty : ℕ
queue_empty = 4294967295

unfoldable pub init : ℕ → Queue
init capacity = record {
  seq = λ i. u32 i;
  val = λ i. queue_empty;
  mask = u32 (capacity + 4294967295);
  head = 0;
  tail = 0;
}

-- `(int32_t)d < 0`
abbrev pub is_negative : ℕ → Bool
is_negative d = leb (2 ^ 31) d

-- The loop of `push`, from the cursor `pos`. `none` means that the fuel ran out.
unfoldable pub push_from : ℕ → Queue → ℕ → ℕ → Option (Bool × Queue)
push_from zero q pos v = none
push_from (suc fuel) q pos v =
    let retry = push_from fuel q q.head v in
    let c = bit_and pos q.mask in
    let dif = sub32 (q.seq c) pos in
    if dif == 0
    then (if q.head == pos
        then some (
          true,
          record q {
            head = u32 (pos + 1);
            val = update q.val c v;
            seq = update q.seq c (u32 (pos + 1));
          },
        )
        else retry)
    else if is_negative dif
    then some (false, q)
    else retry

unfoldable pub push : ℕ → Queue → ℕ → Option (Bool × Queue)
push fuel q v = push_from fuel q q.head v

unfoldable pub pop_from : ℕ → Queue → ℕ → Option (Option ℕ × Queue)
pop_from zero q pos = none
pop_from (suc fuel) q pos =
    let retry = pop_from fuel q q.tail in
    let c = bit_and pos q.mask in
    let dif = sub32 (q.seq c) (u32 (pos + 1)) in
    if dif == 0
    then (if q.tail == pos
        then some (
          some (q.val c),
          record q { tail = u32 (pos + 1); seq = update q.seq c (u32 (pos + q.mask + 1)) },
        )
        else retry)
    else if is_negative dif
    then some (none, q)
    else retry

unfoldable pub pop : ℕ → Queue → Option (Option ℕ × Queue)
pop fuel q = pop_from fuel q q.tail

-- How many cells from `pos` on are ready, at most so many.
unfoldable pub ready : Queue → ℕ → ℕ → ℕ
ready q pos zero = 0
ready q pos (suc maxn) =
    let rest = ready q (u32 (pos + 1)) maxn in
    if sub32 (q.seq (bit_and pos q.mask)) (u32 (pos + 1)) == 0 then suc rest else 0

-- The loop that takes the claimed cells: their values, and the cells given back.
unfoldable pub take_cells : Queue → ℕ → ℕ → List ℕ × Queue
take_cells q pos zero = ([], q)
take_cells q pos (suc m) =
    let c = bit_and pos q.mask in
    let q' = record q { seq = update q.seq c (u32 (pos + q.mask + 1)) } in
    let (vs, q'') = take_cells q' (u32 (pos + 1)) m in (q.val c ∷ vs, q'')

unfoldable pub pop_bulk : ℕ → Queue → ℕ → Option (List ℕ × Queue)
pop_bulk zero q maxn = none
pop_bulk (suc fuel) q maxn =
    let retry = pop_bulk fuel q maxn in
    let pos = q.tail in
    let m = ready q pos maxn in
    if m == 0
    then (if is_negative (sub32 (q.seq (bit_and pos q.mask)) (u32 (pos + 1)))
        then some ([], q)
        else retry)
    else some (take_cells (record q { tail = u32 (pos + m) }) pos m)
