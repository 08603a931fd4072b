-- ===== src/Prelude/Stores.antt =====
-- Code that writes what a table says, place by place: it keeps the places that are right, and sets some.
use Prim.Native.Nat.{ℕ, zero, suc, ◌<◌}
use mathlib.Core.Path.{◌≡◌, ◌∙◌, subst, ap}
use mathlib.Core.Logic.{inl, inr}
use native.Mathlib.Omega.{arith}
use fast_llm.Prelude.Tests.{◌==◌, ==_iff, Bool-cases, if_of_true, if_of_false}
use fast_llm.Prelude.Lists.{update}
use fast_llm.Prelude.Loops.{loop}

module _ {ℓ} {A : Type ℓ} (w : ℕ → A) (i : ℕ) where
  abbrev pub Keeps : ((ℕ → A) → ℕ → A) → Type ℓ
  Keeps f = (m : ℕ → A) → m i ≡ w i → f m i ≡ w i

  abbrev pub Sets : ((ℕ → A) → ℕ → A) → Type ℓ
  Sets f = (m : ℕ → A) → f m i ≡ w i

  pub update-Keeps : (a : ℕ) (v : A) → v ≡ w a → Keeps (λ m. update m a v)
  update-Keeps a v e m h = elim (Bool-cases (a == i)) [
    | inl q ↦ if_of_true _ _ q ∙ e ∙ ap w ((==_iff a i).0 q)
    | inr q ↦ if_of_false _ _ q ∙ h
  ]

  pub update-Sets : (a : ℕ) (v : A) → v ≡ w a → a ≡ i → Sets (λ m. update m a v)
  update-Sets a v e same m = if_of_true _ _ ((==_iff a i).1 same) ∙ e ∙ ap w same

  pub loop-Keeps :
      (n : ℕ) (f : ℕ → (ℕ → A) → ℕ → A) → ((j : ℕ) → j < n → Keeps (f j)) → Keeps (loop n f)
  unfolding loop
  loop-Keeps zero f k m h = h
  loop-Keeps (suc n) f k m h =
      k n (omega arith) (loop n f m) (loop-Keeps n f (λ j p. k j (omega (arith, p))) m h)

  -- One round sets the place, and the others keep it.
  pub loop-Sets :
      (n : ℕ) (f : ℕ → (ℕ → A) → ℕ → A) (r : ℕ)
      → r < n
      → ((j : ℕ) → j < n → Keeps (f j))
      → Sets (f r)
      → Sets (loop n f)
  unfolding loop
  loop-Sets zero f r h k s m = absurd (omega (arith, h))
  loop-Sets (suc n) f r h k s m = elim (Bool-cases (r == n)) [
    | inl q ↦ subst (λ j. f j (loop n f m) i ≡ w i) ((==_iff r n).0 q) (s (loop n f m))
    | inr q ↦
        k n (omega arith) (loop n f m)
          (loop-Sets n f r (ground (arith, h, q)) (λ j p. k j (omega (arith, p))) s m)
  ]

  -- One write after another
  pub update_next :
      (f : (ℕ → A) → ℕ → A) (a : ℕ) (v : A) → v ≡ w a → Keeps f → Keeps (λ m. update (f m) a v)
  update_next f a v e k m h = update-Keeps a v e (f m) (k m h)

  pub Sets-next :
      (f : (ℕ → A) → ℕ → A) (a : ℕ) (v : A) → v ≡ w a → Sets f → Sets (λ m. update (f m) a v)
  Sets-next f a v e s m = update-Keeps a v e (f m) (s m)
