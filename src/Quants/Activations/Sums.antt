-- ===== src/Quants/Activations/Sums.antt =====
-- The bytes that the q8_K quantizer writes, and the sums of their groups.
use fast_llm.Prelude.{ℕ, ◌+◌, ◌*◌, ◌<◌, ◌≡◌, false, Bool-cases, inl, inr, arith}
use fast_llm.Prelude.Int.{ℤ, pos, negsuc}
use fast_llm.Prelude.IntSums.{total_ℤ}
use fast_llm.Prelude.IntBounds.{Within, Within-total}
use fast_llm.Floats.{Float}
use fast_llm.Quants.Activations.{
  BlkQ8k, int16, abs_max, inverse_of, quantize_one, quantize_q8_k_block,
}

-- What the quantizer relies on: how integers convert to floats and back between -127 and 127, and how
-- such a bound compares, for a float that is a number and no NaN.
pub record Converts (float : Float) : Type 1 where
  pub IsNumber : float.F → Type 0
  pub to_int_within :
      (q : float.F)
      → IsNumber q
      → float.lt (float.of_int (pos 127)) q ≡ false
      → float.lt q (float.of_int (negsuc 126)) ≡ false
      → Within 127 (float.to_int q)
  pub to_int_of_int : (n : ℤ) → Within 127 n → float.to_int (float.of_int n) ≡ n
  pub lt_bounds : float.lt (float.of_int (pos 127)) (float.of_int (negsuc 126)) ≡ false

int16_lem : (n : ℤ) → Within 2032 n → int16 n ≡ n
unfolding int16
int16_lem n h = ground arith

-- The sums that the block holds are those of its bytes.
abbrev pub HoldsSums : {F : Type 0} → BlkQ8k F → Type 0
HoldsSums xk = (g : ℕ) → g < 16 → xk.bsums g ≡ total_ℤ 16 (λ i. xk.qs (g * 16 + i))

module _ (float : Float) (c : Converts float) where
  open float use {F, to_int, of_int, lt, mul, round}

  quantize_one-Within :
      (inv x : F) → c.IsNumber (round (mul x inv)) → Within 127 (to_int (quantize_one float inv x))
  unfolding quantize_one
  quantize_one-Within inv x number = elim (Bool-cases (lt (of_int (pos 127)) (round (mul x inv)))) [
    | inl big ↦ rw (big, c.lt_bounds, c.to_int_of_int (pos 127) (omega arith)) (omega arith)
    | inr small ↦ elim (Bool-cases (lt (round (mul x inv)) (of_int (negsuc 126)))) [
      | inl less ↦ rw (small, less, c.to_int_of_int (negsuc 126) (omega arith)) (omega arith)
      | inr more ↦ rw (small, more) (c.to_int_within _ number small more)
    ]
  ]

  -- No scaled activation of the block is a NaN.
  abbrev pub Clean : (ℕ → F) → Type 0
  Clean x =
      (i : ℕ) → i < 256 → c.IsNumber (round (mul (x i) (inverse_of float (abs_max float 256 x))))

  pub quantize-Within :
      (x : ℕ → F) → Clean x → (i : ℕ) → i < 256 → Within 127 ((quantize_q8_k_block float x).qs i)
  unfolding quantize_q8_k_block
  quantize-Within x clean i h =
      quantize_one-Within (inverse_of float (abs_max float 256 x)) (x i) (clean i h)

  pub quantize-HoldsSums : (x : ℕ → F) → Clean x → HoldsSums (quantize_q8_k_block float x)
  unfolding quantize_q8_k_block
  quantize-HoldsSums x clean g h = int16_lem _ (
      Within-total 16 127 (λ i. (quantize_q8_k_block float x).qs (g * 16 + i))
        (λ i p. quantize-Within x clean (g * 16 + i) (omega arith)))
