-- ===== src/Prelude/Loops.antt =====
-- `for (i = 0; i < n; ++i) s = step(i, s);`, and how such loops nest and follow one another.
use Prim.Native.Nat.{ℕ, zero, suc, ◌+◌, ◌*◌, ◌<◌}
use mathlib.Core.Path.{◌≡◌, refl, ap, ◌∙◌}
use native.Mathlib.Omega.{arith}

module _ {ℓ} {S : Type ℓ} where
  unfoldable pub loop : ℕ → (ℕ → S → S) → S → S
  loop zero step s = s
  loop (suc n) step s = step n (loop n step s)

  pub loop-cong :
      (n : ℕ) (f g : ℕ → S → S) (s : S)
      → ((i : ℕ) (s : S) → i < n → f i s ≡ g i s)
      → loop n f s ≡ loop n g s
  unfolding loop
  loop-cong zero f g s h = refl
  loop-cong (suc n) f g s h =
      ap (f n) (loop-cong n f g s (λ i t p. h i t (omega arith))) ∙ h n (loop n g s) (omega arith)

  -- A loop cut in two.
  pub loop-add :
      (m n : ℕ) (f : ℕ → S → S) (s : S) → loop (m + n) f s ≡ loop n (λ i. f (m + i)) (loop m f s)
  unfolding loop
  loop-add m zero f s = ap (λ (t : ℕ). loop t f s) (omega arith)
  loop-add m (suc n) f s =
      ap (λ (t : ℕ). loop t f s) {y = suc (m + n)} (omega arith) ∙ ap (f (m + n)) (loop-add m n f s)

  -- A loop cut in rounds of `m`.
  pub loop-mul :
      (n m : ℕ) (f : ℕ → S → S) (s : S)
      → loop (n * m) f s ≡ loop n (λ i. loop m (λ j. f (i * m + j))) s
  unfolding loop
  loop-mul zero m f s = ap (λ (t : ℕ). loop t f s) {y = 0} (omega arith)
  loop-mul (suc n) m f s =
      ap (λ (t : ℕ). loop t f s) {y = n * m + m} (omega arith)
      ∙ loop-add (n * m) m f s
      ∙ ap (loop m (λ j. f (n * m + j))) (loop-mul n m f s)

  -- What a step keeps.
  pub loop_inv {κ} :
      (P : ℕ → S → Type κ) (f : ℕ → S → S)
      → ((i : ℕ) (s : S) → P i s → P (suc i) (f i s))
      → (n : ℕ) (s : S) → P zero s
      → P n (loop n f s)
  unfolding loop
  loop_inv P f keep zero s h = h
  loop_inv P f keep (suc n) s h = keep n (loop n f s) (loop_inv P f keep n s h)

  -- One loop as two in a row, and as one loop in another, up to the way their steps are written.
  pub loop_cut :
      (m n : ℕ) (f g h : ℕ → S → S) (s : S)
      → ((i : ℕ) (s : S) → i < m → f i s ≡ g i s)
      → ((i : ℕ) (s : S) → i < n → f (m + i) s ≡ h i s)
      → loop (m + n) f s ≡ loop n h (loop m g s)
  loop_cut m n f g h s p q =
      loop-add m n f s
      ∙ loop-cong n (λ i. f (m + i)) h (loop m f s) q
      ∙ ap (loop n h) (loop-cong m f g s p)

  pub loop_nest :
      (n m : ℕ) (f : ℕ → S → S) (g : ℕ → ℕ → S → S) (s : S)
      → ((i j : ℕ) (s : S) → i < n → j < m → f (i * m + j) s ≡ g i j s)
      → loop (n * m) f s ≡ loop n (λ i. loop m (g i)) s
  loop_nest n m f g s p =
      loop-mul n m f s
      ∙ loop-cong n _ (λ i. loop m (g i)) s
          (λ i t q. loop-cong m (λ j. f (i * m + j)) (g i) t (λ j u r. p i j u q r))

  pub loop_quarters :
      (n : ℕ) (f g₀ g₁ g₂ g₃ : ℕ → S → S) (s : S)
      → ((i : ℕ) (s : S) → i < n → f i s ≡ g₀ i s)
      → ((i : ℕ) (s : S) → i < n → f (n + i) s ≡ g₁ i s)
      → ((i : ℕ) (s : S) → i < n → f (n + n + i) s ≡ g₂ i s)
      → ((i : ℕ) (s : S) → i < n → f (n + n + n + i) s ≡ g₃ i s)
      → loop (n + n + n + n) f s ≡ loop n g₃ (loop n g₂ (loop n g₁ (loop n g₀ s)))
  loop_quarters n f g₀ g₁ g₂ g₃ s p₀ p₁ p₂ p₃ =
      loop_cut (n + n + n) n f f g₃ s (λ _ _ _. refl) p₃
      ∙ ap (loop n g₃) (
          loop_cut (n + n) n f f g₂ s (λ _ _ _. refl) p₂
          ∙ ap (loop n g₂) (loop_cut n n f g₀ g₁ s p₀ p₁))

  pub loop_two : (f : ℕ → S → S) (s : S) → loop 2 f s ≡ f 1 (f 0 s)
  unfolding loop
  loop_two f s = refl
