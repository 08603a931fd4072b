-- ===== src/Gguf/Bounds.antt =====
-- The cursor of src/model/gguf.cpp moves forward and stays inside the file.
use fast_llm.Prelude.{
  ℕ, zero, suc, ◌+◌, ◌-◌, ◌*◌, ◌^◌, ◌≤◌, ◌<◌, ◌≡◌, ◌≢◌, ap, Bool, false, ltb, ◌==◌, if◌then◌else◌,
  arith, Bool-cases, inl, inr,
}
use fast_llm.Prelude.Result.{Result, ok, err, ◌>>=◌}
use fast_llm.Prelude.Words.{u64}
use fast_llm.Gguf.{
  GgufError, truncated, bad_kv_type, no_fuel, gv_str, gv_arr, is_unsigned, scalar_size, times,
  number, skip, get, str, elements, skip_array, skip_value,
}

-- A call that, from a position inside the file, leaves the cursor inside the file, and no further back;
-- and that does not run out of fuel.
abbrev pub Forward : ℕ → ℕ → Result GgufError ℕ → Type 0
Forward end p (ok p') = (p ≤ p') × (p' ≤ end)
Forward end p (err e) = e ≢ no_fuel

abbrev IsForward : ℕ → (ℕ → Result GgufError ℕ) → ℕ → Type 0
IsForward end f from = (p : ℕ) → from ≤ p → p ≤ end → Forward end p (f p)

Forward-weaken : (end p q : ℕ) (r : Result GgufError ℕ) → p ≤ q → Forward end q r → Forward end p r
Forward-weaken end p q (err e) le h = h
Forward-weaken end p q (ok p') le h = (omega (arith, h.0), h.1)

bind-Forward :
    (end p : ℕ) (m : Result GgufError ℕ) (f : ℕ → Result GgufError ℕ)
    → Forward end p m
    → ((p' : ℕ) → p ≤ p' → p' ≤ end → Forward end p' (f p'))
    → Forward end p (m >>= f)
bind-Forward end p (err e) f h next = h
bind-Forward end p (ok p') f h next = Forward-weaken end p p' (f p') h.0 (next p' h.0 h.1)

-- With a zero as its value.
zero-Forward :
    (end p : ℕ) (r : Result GgufError ℕ)
    → Forward end p r
    → Forward end p (r >>= (λ p'. ok (zero, p')) >>= (λ (x : ℕ × ℕ). ok x.1))
zero-Forward end p (err e) h = h
zero-Forward end p (ok p') h = h

times-Forward :
    (end n p : ℕ) (f : ℕ → Result GgufError ℕ)
    → p ≤ end
    → IsForward end f p
    → Forward end p (times n f p)
unfolding times
times-Forward end zero p f le h = (omega arith, le)
times-Forward end (suc n) p f le h =
    bind-Forward end p (f p) (times n f) (h p (omega arith) le)
      (λ p' ge le'. times-Forward end n p' f le' (λ q ge' leq. h q (omega arith) leq))

bad_type-ne : bad_kv_type ≢ no_fuel
bad_type-ne e = cc

truncated-ne : truncated ≢ no_fuel
truncated-ne e = cc

module _ (byte : ℕ → ℕ) (end : ℕ) where
  skip-Forward : (n p : ℕ) → p ≤ end → Forward end p (skip byte end n p)
  unfolding skip
  skip-Forward n p le = elim (Bool-cases (ltb (end - p) n)) [
    | inl q ↦ rw q truncated-ne
    | inr q ↦ rw q (omega arith, ground arith)
  ]

  get-Forward :
      (w p : ℕ) (k : ℕ × ℕ → Result GgufError ℕ)
      → p ≤ end
      → ((v : ℕ) → p + w ≤ end → Forward end (p + w) (k (v, p + w)))
      → Forward end p (get byte end w p >>= k)
  unfolding get skip
  get-Forward w p k le next = elim (Bool-cases (ltb (end - p) w)) [
    | inl q ↦ rw q truncated-ne
    | inr q ↦ rw q (
        Forward-weaken end p (p + w) (k (number byte end w p, p + w)) (omega arith)
          (next (number byte end w p) (ground arith)))
  ]

  str-Forward : (p : ℕ) → p ≤ end → Forward end p (str byte end p)
  unfolding str
  str-Forward p le =
      get-Forward 8 p (λ (n, p'). skip byte end n p') le (λ n le'. skip-Forward n (p + 8) le')

  elements-Forward :
      (nested : ℕ → Result GgufError ℕ) (et n p : ℕ)
      → p ≤ end
      → IsForward end nested p
      → Forward end p (elements byte end nested et n p)
  elements-Forward nested et n p le h = elim (Bool-cases (et == gv_str)) [
    | inl q ↦ rw q (times-Forward end n p (str byte end) le (λ p' ge le'. str-Forward p' le'))
    | inr q ↦ rw q (elim (Bool-cases (et == gv_arr)) [
      | inl q' ↦ rw q' (times-Forward end n p nested le h)
      | inr q' ↦ rw q' (skip-Forward (u64 (n * scalar_size et)) p le)
    ])
  ]

  skip_array-Forward :
      (fuel p : ℕ) → p ≤ end → end - p < 12 * fuel → Forward end p (skip_array byte end fuel p)
  unfolding skip_array
  skip_array-Forward zero p le enough = absurd (omega arith)
  skip_array-Forward (suc fuel) p le enough =
      get-Forward 4 p
        (λ (et, p1).
          get byte end 8 p1 >>= (λ (n, p2). elements byte end (skip_array byte end fuel) et n p2))
        le
        (λ et le1.
          get-Forward 8 (p + 4) (λ (n, p2). elements byte end (skip_array byte end fuel) et n p2)
            le1
            (λ n le2.
              elements-Forward (skip_array byte end fuel) et n (p + 4 + 8) le2
                (λ q ge leq. skip_array-Forward fuel q leq (omega arith))))

  -- Where a value's walk leaves the cursor.
  abbrev pub position : Result GgufError (ℕ × ℕ) → Result GgufError ℕ
  position r = r >>= (λ (v, p'). ok p')

  scalar-Forward :
      (w p : ℕ) (unsigned : Bool)
      → p ≤ end
      → Forward end p (
          get byte end w p
          >>= (λ (x : ℕ × ℕ). ok (if unsigned then x.0 else 0, x.1))
          >>= (λ (x : ℕ × ℕ). ok x.1))
  unfolding get skip
  scalar-Forward w p unsigned le = elim (Bool-cases (ltb (end - p) w)) [
    | inl q ↦ rw q truncated-ne
    | inr q ↦ rw q (omega arith, ground arith)
  ]

  -- Walking over a metadata value, of whatever type and however its arrays lie in one another, moves the
  -- cursor forward and leaves it inside the file, or reports a truncated file or a bad type; fuel for
  -- every twelve bytes that are left is enough.
  pub skip_value-Forward :
      (fuel t p : ℕ)
      → p ≤ end
      → end - p < 12 * fuel
      → Forward end p (position (skip_value byte end fuel t p))
  unfolding skip_value
  skip_value-Forward fuel t p le enough = elim (Bool-cases (t == gv_str)) [
    | inl q ↦ rw q (zero-Forward end p (str byte end p) (str-Forward p le))
    | inr q ↦ rw q (elim (Bool-cases (t == gv_arr)) [
      | inl q' ↦
          rw q'
            (zero-Forward end p (skip_array byte end fuel p) (skip_array-Forward fuel p le enough))
      | inr q' ↦ rw q' (elim (Bool-cases (scalar_size t == 0)) [
        | inl z ↦ rw z bad_type-ne
        | inr z ↦ rw z (scalar-Forward (scalar_size t) p (is_unsigned t) le)
      ])
    ])
  ]

abbrev at_position : ℕ → Result GgufError ℕ
at_position p = ok p

-- The size of an array of numbers is computed modulo 2^64: an array that says it has 2^61 elements of
-- eight bytes is walked over as if it had none, wherever twelve bytes are left in the file.
pub skip_array_wraps :
    (byte : ℕ → ℕ) (end fuel p : ℕ)
    → p + 12 ≤ end
    → number byte end 4 p ≡ 10
    → number byte end 8 (p + 4) ≡ 2 ^ 61
    → skip_array byte end (suc fuel) p ≡ ok (p + 12)
unfolding skip_array get skip scalar_size
skip_array_wraps byte end fuel p le type count =
    let first : ltb (end - p) 4 ≡ false = ground arith in
    let second : ltb (end - (p + 4)) 8 ≡ false = ground arith in
    let third : ltb (end - (p + 4 + 8)) 0 ≡ false = ground arith in
    rw first (
      rw second (
        rw type
          (rw count (rw third (ap at_position {x = p + 4 + 8 + 0} {y = p + 12} (omega arith))))))
