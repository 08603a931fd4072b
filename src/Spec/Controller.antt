-- ===== src/Spec/Controller.antt =====
-- src/spec/spec_controller.h: the controller of the draft length, over doubles as a parameter.
pub mod Choice
pub mod Rounds
mod Tests
use fast_llm.Prelude.{
  ℕ, zero, suc, ◌+◌, ◌-◌, Bool, leb, ltb, min, ◌&&◌, ◌==◌, if◌then◌else◌, update,
}
use fast_llm.Prelude.Int.{ℤ, pos, negsuc}
use fast_llm.Floats.{Double}
use fast_llm.Decode.{Policy}

-- `kMaxN`
abbrev pub max_n : ℕ
max_n = 15

-- `bucket`, of a length that is not negative
abbrev pub bucket : ℕ → ℕ
bucket n = min n max_n

module _ (R : Double) where
  open R use {F, of_bits, of_int, add, sub, mul, div, lt, ge}

  pub record Cfg : Type 0 where
    pub n_max : ℕ
    pub alpha0 : F
    pub alpha_decay : F
    pub lat_decay : F
    pub probe_iv : ℕ
    pub probe_n : ℕ
    pub seed_slope : F

  pub record SpecController : Type 0 where
    pub alpha : F
    pub lat_ms : ℕ → F
    pub zero_streak : ℕ

  unfoldable pub init_controller : Cfg → SpecController
  init_controller c = record { alpha = c.alpha0; lat_ms = λ b. of_int (negsuc 0); zero_streak = 0 }

  -- The loop of `lat_est`, with the rounds left and `d`
  unfoldable pub nearest : Cfg → (ℕ → F) → ℕ → ℕ → ℕ → F
  nearest c lat_ms b zero d = of_int (pos 1)
  nearest c lat_ms b (suc rounds) d =
      let farther = nearest c lat_ms b rounds (d + 1) in
      let factor = add (of_int (pos 1)) (mul c.seed_slope (of_int (pos d))) in
      if leb d b && ge (lat_ms (b - d)) (of_int (pos 0))
      then mul (lat_ms (b - d)) factor
      else if leb (b + d) max_n && ge (lat_ms (b + d)) (of_int (pos 0))
      then div (lat_ms (b + d)) factor
      else farther

  unfoldable pub lat_est : Cfg → SpecController → ℕ → F
  lat_est c k n =
      let b = bucket n in
      if ge (k.lat_ms b) (of_int (pos 0)) then k.lat_ms b else nearest c k.lat_ms b max_n 1

  -- The loop of `expected_emitted`, with the rounds left, `e` and `p`
  unfoldable pub emitted_from : F → ℕ → F → F → F
  emitted_from alpha zero e p = e
  emitted_from alpha (suc rounds) e p = emitted_from alpha rounds (add e p) (mul p alpha)

  unfoldable pub expected_emitted : SpecController → ℕ → F
  expected_emitted k n = emitted_from k.alpha (n + 1) (of_int (pos 0)) (of_int (pos 1))

  -- The rate of a length; that of no draft is `1.0 / lat_est(0)`.
  unfoldable pub rate : Cfg → SpecController → ℕ → F
  rate c k zero = div (of_int (pos 1)) (lat_est c k 0)
  rate c k (suc n) = div (expected_emitted k (suc n)) (lat_est c k (suc n))

  -- The loop of `choose` over the lengths, with the rounds left, `n`, `best_n` and `best_rate`
  unfoldable pub best_from : (ℕ → F) → ℕ → ℕ → ℕ → F → ℕ
  best_from r zero n best_n best_rate = best_n
  best_from r (suc rounds) n best_n best_rate =
      let better = best_from r rounds (n + 1) n (r n) in
      let same = best_from r rounds (n + 1) best_n best_rate in
      if lt best_rate (r n) then better else same

  unfoldable pub best : Cfg → SpecController → ℕ
  best c k = best_from (rate c k) c.n_max 1 0 (rate c k 0)

  unfoldable pub choose : Cfg → SpecController → ℕ × SpecController
  choose c k =
      let best_n = best c k in
      if lt (k.lat_ms 0) (of_int (pos 0))
      then (c.n_max, k)
      else if best_n == 0
      then (if leb c.probe_iv (k.zero_streak + 1)
          then (c.probe_n, record (k) { zero_streak = 0 })
          else (best_n, record (k) { zero_streak = k.zero_streak + 1 }))
      else (best_n, record (k) { zero_streak = 0 })

  -- `if (alpha_ < 0.02) alpha_ = 0.02; if (alpha_ > 0.98) alpha_ = 0.98;`
  unfoldable pub clamp : F → F
  clamp a =
      let low = of_bits 4581421828931458171 in
      let high = of_bits 4607002274814922588 in
      let b = if lt a low then low else a in if lt high b then high else b

  unfoldable pub observe : Cfg → SpecController → ℕ → ℕ → F → SpecController
  observe c k n_drafted n_accepted pass_ms =
      let b = bucket n_drafted in
      let one = of_int (pos 1) in
      let old = k.lat_ms b in
      let lat =
        if lt old (of_int (pos 0))
        then pass_ms
        else add (mul c.lat_decay old) (mul (sub one c.lat_decay) pass_ms) in
      let frac = div (of_int (pos n_accepted)) (of_int (pos n_drafted)) in
      let alpha =
        if ltb 0 n_drafted
        then clamp (add (mul c.alpha_decay k.alpha) (mul (sub one c.alpha_decay) frac))
        else k.alpha in
      record { alpha = alpha; lat_ms = update k.lat_ms b lat; zero_streak = k.zero_streak }

  -- The controller as the policy of the generation loops, where the pass number `i` takes `pass_ms i`.
  abbrev pub policy : Cfg → (ℕ → F) → Policy
  policy c pass_ms = record {
    State = SpecController × ℕ;
    start = (init_controller c, 0);
    choose = λ s. let (n, k) = choose c s.0 in (n, (k, s.1));
    observe = λ s n_drafted n_accepted. (observe c s.0 n_drafted n_accepted (pass_ms s.1), s.1 + 1);
  }
