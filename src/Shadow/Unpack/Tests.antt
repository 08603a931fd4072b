-- ===== src/Shadow/Unpack/Tests.antt =====
-- Two packed rows, unpacked into memory that is not empty, over bits in the place of floats.
use fast_llm.Prelude.{ℕ, ◌+◌, ◌*◌, ◌/◌, ◌%◌, ◌^◌, ◌<◌, ◌≡◌, refl, arith, ltb}
use fast_llm.Prelude.Int.{pos, pos_part, neg_part}
use mathlib.Core.HLevel.{Σ_prop_path}
use native.Mathlib.Bridge.{le_prop}
use fast_llm.Prelude.Loops.{loop}
use fast_llm.Prelude.Writes.{write}
use fast_llm.Quants.Half.{half2float, half_bits, renormalize}
use fast_llm.Floats.{Float}
use fast_llm.Quants.Blocks.{Bytes, at, q5_0_high, q5_0_low}
use fast_llm.Quants.Activations.{BlkQ81, BlkQ8k}
use fast_llm.Quants.IntDots.{dot_i8k_q4_k, dot_i8_q5_0}
use fast_llm.Shadow.Unpack.{
  build_block_q50, build_rows_q4k, build_rows_q50, dot_i8k_q4_k_shadow, dot_i8_q5_0_shadow,
}
use fast_llm.Shadow.Unpack.Equal.{Stores, unpacked_same}

-- Words of 32 bits, of which `of_bits` takes the lowest; they add and multiply as numbers.
abbrev words : Float
words = record {
  F = (n : ℕ) × (n < 2 ^ 32);
  of_bits = λ n. (n % 2 ^ 32, omega arith);
  to_bits = λ x. x.0;
  of_int = λ n. ((pos_part n + neg_part n) % 2 ^ 32, omega arith);
  to_int = λ x. pos x.0;
  add = λ x y. ((x.0 + y.0) % 2 ^ 32, omega arith);
  sub = λ x y. x;
  mul = λ x y. (x.0 * y.0 % 2 ^ 32, omega arith);
  div = λ x y. x;
  neg = λ x. x;
  fma = λ x y z. ((x.0 * y.0 + z.0) % 2 ^ 32, omega arith);
  fabs = λ x. x;
  round = λ x. x;
  lt = λ x y. ltb x.0 y.0;
}

words-Stores : Stores words
words-Stores = record {
  to_bits-lt = λ x. x.1;
  of_bits-to_bits = λ x. Σ_prop_path (λ n. le_prop) (stored x.0 x.1);
}
  where
    stored : (n : ℕ) → n < 2 ^ 32 → n % 2 ^ 32 ≡ n
    stored n h = omega arith

abbrev packed : Bytes
packed i = i * 37 % 256

abbrev old : Bytes
old i = 255

unpacked_same_example :
    ((xk : ℕ → BlkQ8k words.F)
      → dot_i8k_q4_k_shadow words
          (at (build_rows_q4k words packed 2 512 old) (1 * (512 / 256 * 280)))
          xk
          512
        ≡ dot_i8k_q4_k words (at packed (1 * (512 / 256 * 144))) xk 512)
    × ((xq : ℕ → BlkQ81)
        → dot_i8_q5_0_shadow words
            (at (build_rows_q50 words packed 2 512 old) (1 * (512 / 32 * 40)))
            xq
            512
          ≡ dot_i8_q5_0 words (at packed (1 * (512 / 32 * 22))) xq 512)
unpacked_same_example =
    unpacked_same words words-Stores packed 2 512 old 1 (λ i. omega arith) (omega arith)

last_weight : build_rows_q50 words packed 1 32 old 35 ≡ q5_0_high packed 15
unfolding build_rows_q50 build_block_q50 write loop q5_0_high q5_0_low half2float half_bits
    renormalize
last_weight = refl
