-- ===== src/Gguf.antt =====
-- The cursor of src/model/gguf.cpp and its walk over metadata values. `byte` is the mapped file, and a
-- position counts from its start; `end` is the file's size.
pub mod Bounds
mod Tests
use fast_llm.Prelude.{
  ℕ, zero, suc, ◌+◌, ◌-◌, ◌*◌, ◌^◌, Bool, true, false, ◌||◌, ltb, ◌==◌, if◌then◌else◌,
}
use fast_llm.Prelude.Result.{Result, ok, err, ◌>>=◌, ◌>>◌, die_if}
use fast_llm.Prelude.Words.{u64}

pub data GgufError : Type 0 where
  truncated bad_kv_type : GgufError
  no_fuel : GgufError  -- the model's own

-- `GV_STR` and `GV_ARR`
abbrev pub gv_str : ℕ
gv_str = 8

abbrev pub gv_arr : ℕ
gv_arr = 9

unfoldable pub scalar_size : ℕ → ℕ
scalar_size t =
    if t == 0 || (t == 1 || t == 7)
    then 1
    else if t == 2 || t == 3
    then 2
    else if t == 4 || (t == 5 || t == 6)
    then 4
    else if t == 10 || (t == 11 || t == 12)
    then 8
    else 0

abbrev pub is_unsigned : ℕ → Bool
is_unsigned t = t == 0 || (t == 2 || (t == 4 || t == 10))

-- A loop that calls `f` so many times, each time from where the last call left the cursor.
unfoldable pub times : ℕ → (ℕ → Result GgufError ℕ) → ℕ → Result GgufError ℕ
times zero f p = ok p
times (suc n) f p = do p' ← f p; times n f p'

module _ (byte : ℕ → ℕ) (end : ℕ) where
  -- A little-endian number of so many bytes.
  unfoldable pub number : ℕ → ℕ → ℕ
  number zero p = 0
  number (suc w) p = byte p + 256 * number w (p + 1)

  unfoldable pub skip : ℕ → ℕ → Result GgufError ℕ
  skip n p = die_if (ltb (end - p) n) truncated >> ok (p + n)

  unfoldable pub get : ℕ → ℕ → Result GgufError (ℕ × ℕ)
  get w p = do p' ← skip w p; ok (number w p, p')

  unfoldable pub str : ℕ → Result GgufError ℕ
  str p = do (n, p') ← get 8 p; skip n p'

  -- The rest of an array, after its element type and its length.
  abbrev pub elements : (ℕ → Result GgufError ℕ) → ℕ → ℕ → ℕ → Result GgufError ℕ
  elements nested et n p =
      if et == gv_str
      then times n str p
      else if et == gv_arr
      then times n nested p
      else skip (u64 (n * scalar_size et)) p

  -- `skip_value` of an array; the fuel bounds how deep arrays lie in one another.
  unfoldable pub skip_array : ℕ → ℕ → Result GgufError ℕ
  skip_array zero p = err no_fuel
  skip_array (suc fuel) p = do
    (et, p1) ← get 4 p
    (n, p2) ← get 8 p1
    elements (skip_array fuel) et n p2

  -- The value comes with the new position.
  unfoldable pub skip_value : ℕ → ℕ → ℕ → Result GgufError (ℕ × ℕ)
  skip_value fuel t p =
      if t == gv_str
      then (do p' ← str p; ok (0, p'))
      else if t == gv_arr
      then (do p' ← skip_array fuel p; ok (0, p'))
      else (do
        die_if (scalar_size t == 0) bad_kv_type
        (v, p') ← get (scalar_size t) p
        ok (if is_unsigned t then v else 0, p'))
