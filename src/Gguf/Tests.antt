-- ===== src/Gguf/Tests.antt =====
-- A file of twelve bytes: an array that says it has 2^61 elements of eight bytes.
use fast_llm.Prelude.{ℕ, ◌^◌, ◌≡◌, refl, if◌then◌else◌, ◌==◌, arith}
use fast_llm.Prelude.Result.{ok}
use fast_llm.Gguf.{number, skip_array, skip_value}
use fast_llm.Gguf.Bounds.{Forward, position, skip_value-Forward, skip_array_wraps}

abbrev long_array : ℕ → ℕ
long_array i = if i == 0 then 10 else if i == 11 then 32 else 0

type-number : number long_array 12 4 0 ≡ 10
unfolding number
type-number = refl

count-number : number long_array 12 8 4 ≡ 2 ^ 61
unfolding number
count-number = refl

skip_array_wraps_example : skip_array long_array 12 1 0 ≡ ok 12
skip_array_wraps_example = skip_array_wraps long_array 12 0 0 (omega arith) type-number count-number

skip_value-Forward_example : Forward 12 0 (position long_array 12 (skip_value long_array 12 2 9 0))
skip_value-Forward_example = skip_value-Forward long_array 12 2 9 0 (omega arith) (omega arith)
