-- ===== src/Floats.antt =====
-- The `float` of the source: its type and operations are a parameter of every definition that computes
-- with it. A literal is written by its bits.
use fast_llm.Prelude.{ℕ, Bool}
use fast_llm.Prelude.Int.{ℤ}

pub record Float : Type 1 where
  pub F : Type 0
  -- `memcpy` of a 32-bit pattern to a float and back
  pub of_bits : ℕ → F
  pub to_bits : F → ℕ
  -- `(float)n` and `(int)x`
  pub of_int : ℤ → F
  pub to_int : F → ℤ
  pub add : F → F → F
  pub sub : F → F → F
  pub mul : F → F → F
  pub div : F → F → F
  pub neg : F → F
  pub fma : F → F → F → F
  pub fabs : F → F
  pub round : F → F
  -- `x < y`
  pub lt : F → F → Bool

-- The `double` of the source; a literal is written by its 64 bits.
pub record Double : Type 1 where
  pub F : Type 0
  pub of_bits : ℕ → F
  pub of_int : ℤ → F
  pub add : F → F → F
  pub sub : F → F → F
  pub mul : F → F → F
  pub div : F → F → F
  -- `x < y` and `x >= y`
  pub lt : F → F → Bool
  pub ge : F → F → Bool
