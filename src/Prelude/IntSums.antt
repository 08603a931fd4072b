-- ===== src/Prelude/IntSums.antt =====
-- Sums of integers in a loop, and the laws of multiplication that move a factor through them.
use Prim.Native.Nat.{ℕ, zero, suc, ◌+◌, ◌*◌, ◌<◌}
use mathlib.Core.Path.{◌≡◌, refl, ap, ap₂, ◌∙◌}
use native.Mathlib.Omega.{arith}
use fast_llm.Prelude.Int.{
  ℤ, pos, pos_part, neg_part, ◌+ℤ◌, ◌-ℤ◌, ◌*ℤ◌, +ℤ_parts, -ℤ_parts, *ℤ_parts, eq_of_parts, int_laws,
}
use fast_llm.Prelude.Loops.{loop, loop-cong, loop-add, loop-mul}

pub mul-add : (c a b : ℤ) → c *ℤ (a +ℤ b) ≡ c *ℤ a +ℤ c *ℤ b
mul-add c a b = eq_of_parts _ _ (
    omega (
      arith,
      *ℤ_parts c (a +ℤ b),
      *ℤ_parts c a,
      *ℤ_parts c b,
      +ℤ_parts (c *ℤ a) (c *ℤ b),
      ap (λ (t : ℕ). pos_part c * t) (+ℤ_parts a b),
      ap (λ (t : ℕ). neg_part c * t) (+ℤ_parts a b),
    ))

pub mul-sub : (c a b : ℤ) → c *ℤ (a -ℤ b) ≡ c *ℤ a -ℤ c *ℤ b
mul-sub c a b = eq_of_parts _ _ (
    omega (
      arith,
      *ℤ_parts c (a -ℤ b),
      *ℤ_parts c a,
      *ℤ_parts c b,
      -ℤ_parts (c *ℤ a) (c *ℤ b),
      ap (λ (t : ℕ). pos_part c * t) (-ℤ_parts a b),
      ap (λ (t : ℕ). neg_part c * t) (-ℤ_parts a b),
    ))

pub mul_comm : (a b : ℤ) → a *ℤ b ≡ b *ℤ a
mul_comm a b = eq_of_parts _ _ (omega (arith, *ℤ_parts a b, *ℤ_parts b a))

pub sub-mul : (a b c : ℤ) → (a -ℤ b) *ℤ c ≡ a *ℤ c -ℤ b *ℤ c
sub-mul a b c = mul_comm (a -ℤ b) c ∙ mul-sub c a b ∙ ap₂ ◌-ℤ◌ (mul_comm c a) (mul_comm c b)

pub mul_assoc : (a b c : ℤ) → a *ℤ b *ℤ c ≡ a *ℤ (b *ℤ c)
mul_assoc a b c = eq_of_parts _ _ (
    omega (
      arith,
      *ℤ_parts (a *ℤ b) c,
      *ℤ_parts a (b *ℤ c),
      ap (λ (t : ℕ). t * pos_part c) (*ℤ_parts a b),
      ap (λ (t : ℕ). t * neg_part c) (*ℤ_parts a b),
      ap (λ (t : ℕ). pos_part a * t) (*ℤ_parts b c),
      ap (λ (t : ℕ). neg_part a * t) (*ℤ_parts b c),
    ))

-- The sum of the first `n` values.
abbrev pub total_ℤ : ℕ → (ℕ → ℤ) → ℤ
total_ℤ n f = loop n (λ i s. s +ℤ f i) (pos 0)

-- A sum that starts somewhere.
pub total_from : (n : ℕ) (f : ℕ → ℤ) (s : ℤ) → loop n (λ i s. s +ℤ f i) s ≡ s +ℤ total_ℤ n f
unfolding loop
total_from zero f s = omega int_laws
total_from (suc n) f s = ap (λ (t : ℤ). t +ℤ f n) (total_from n f s) ∙ omega int_laws

sub_interchange : (a x b y : ℤ) → a +ℤ x -ℤ (b +ℤ y) ≡ a -ℤ b +ℤ (x -ℤ y)
sub_interchange a x b y = omega int_laws

add_interchange : (a b x y : ℤ) → a +ℤ b +ℤ (x +ℤ y) ≡ a +ℤ x +ℤ (b +ℤ y)
add_interchange a b x y = omega int_laws

pub total-sub : (n : ℕ) (f g : ℕ → ℤ) → total_ℤ n f -ℤ total_ℤ n g ≡ total_ℤ n (λ i. f i -ℤ g i)
unfolding loop
total-sub zero f g = omega int_laws
total-sub (suc n) f g =
    sub_interchange (total_ℤ n f) (f n) (total_ℤ n g) (g n)
    ∙ ap (λ (t : ℤ). t +ℤ (f n -ℤ g n)) (total-sub n f g)

pub mul-total : (n : ℕ) (c : ℤ) (f : ℕ → ℤ) → c *ℤ total_ℤ n f ≡ total_ℤ n (λ i. c *ℤ f i)
unfolding loop
mul-total zero c f = eq_of_parts _ _ (omega (arith, *ℤ_parts c (pos 0)))
mul-total (suc n) c f =
    mul-add c (total_ℤ n f) (f n) ∙ ap (λ (t : ℤ). t +ℤ c *ℤ f n) (mul-total n c f)

pub total_cong : (n : ℕ) (f g : ℕ → ℤ) → ((i : ℕ) → i < n → f i ≡ g i) → total_ℤ n f ≡ total_ℤ n g
total_cong n f g h = loop-cong n _ _ (pos 0) (λ i s p. ap (λ (t : ℤ). s +ℤ t) (h i p))

pub total_pairs : (n : ℕ) (f g : ℕ → ℤ) → total_ℤ n (λ i. f i +ℤ g i) ≡ total_ℤ n f +ℤ total_ℤ n g
unfolding loop
total_pairs zero f g = omega int_laws
total_pairs (suc n) f g =
    ap (λ (t : ℤ). t +ℤ (f n +ℤ g n)) (total_pairs n f g)
    ∙ add_interchange (total_ℤ n f) (total_ℤ n g) (f n) (g n)

-- A sum in two parts, and a sum of sums.
pub total_cut :
    (m n : ℕ) (f : ℕ → ℤ) → total_ℤ (m + n) f ≡ total_ℤ m f +ℤ total_ℤ n (λ i. f (m + i))
total_cut m n f = loop-add m n _ _ ∙ total_from n (λ i. f (m + i)) (total_ℤ m f)

pub total_nest :
    (n m : ℕ) (f : ℕ → ℤ) → total_ℤ (n * m) f ≡ total_ℤ n (λ i. total_ℤ m (λ j. f (i * m + j)))
total_nest n m f =
    loop-mul n m _ _ ∙ loop-cong n _ _ _ (λ i s p. total_from m (λ j. f (i * m + j)) s)

-- Two sums in one loop.
pub total_both :
    (n : ℕ) (f g : ℕ → ℤ)
    → loop n (λ i (acc : ℤ × ℤ). (acc.0 +ℤ f i, acc.1 +ℤ g i)) (pos 0, pos 0)
      ≡ (total_ℤ n f, total_ℤ n g)
unfolding loop
total_both zero f g = refl
total_both (suc n) f g = ap (λ (acc : ℤ × ℤ). (acc.0 +ℤ f n, acc.1 +ℤ g n)) (total_both n f g)
