-- ===== src/Spec/Controller/Tests.antt =====
-- The controller over thousandths in place of doubles, with one that is no number, in a few rounds.
use fast_llm.Prelude.{
  Option, some, none, Bool, false, true, ap, sym, ◌∙◌, zero, suc, ℕ, ◌+◌, ◌-◌, ◌*◌, ◌/◌, ◌<◌, ◌≡◌,
  refl, ltb, leb, arith, ◌==◌, if◌then◌else◌,
}
use fast_llm.Prelude.Int.{ℤ, pos, negsuc}
use fast_llm.Floats.{Double}
use fast_llm.Spec.Controller.{
  Cfg, SpecController, init_controller, nearest, lat_est, emitted_from, expected_emitted, rate,
  best_from, best, choose, observe, clamp,
}
use fast_llm.Spec.Controller.Choice.{IsOrdered, AreNumbers, IsChoice, choose-IsChoice}
use fast_llm.Spec.Controller.Rounds.{stay, round, probe_due, cold_start}

-- Thousandths, shifted up by one: 0 is -1, and n is n - 1 thousandths. What is no number is `none`.
abbrev of_ints : ℤ → ℕ
of_ints (pos n) = 1000 * n + 1
of_ints (negsuc n) = 0

abbrev lift : (ℕ → ℕ → Option ℕ) → Option ℕ → Option ℕ → Option ℕ
lift f (some x) (some y) = f x y
lift f (some x) none = none
lift f none y = none

abbrev holds : (ℕ → ℕ → Bool) → Option ℕ → Option ℕ → Bool
holds test (some x) (some y) = test x y
holds test (some x) none = false
holds test none y = false

abbrev thousandths : Double
thousandths = record {
  F = Option ℕ;
  of_bits = λ bits. some (if leb bits 4581421828931458171 then 21 else 981);
  of_int = λ n. some (of_ints n);
  add = lift (λ x y. some (x + y - 1));
  sub = lift (λ x y. some (x + 1 - y));
  mul = lift (λ x y. some ((x - 1) * (y - 1) / 1000 + 1));
  div = lift (λ x y. if leb y 1 then none else some ((x - 1) * 1000 / (y - 1) + 1));
  lt = holds ltb;
  ge = holds (λ x y. leb y x);
}

irrefl : (x : Option ℕ) → holds ltb x x ≡ false
irrefl (some x) = ground arith
irrefl none = refl

trans : (x y z : Option ℕ) → holds ltb x y ≡ true → holds ltb y z ≡ true → holds ltb x z ≡ true
trans (some x) (some y) (some z) h k = ground (arith, h, k)
trans (some x) (some y) none h k = ground (arith, k)
trans (some x) none z h k = ground (arith, h)
trans none y z h k = ground (arith, h)

not_trans :
    (x : Option ℕ) (n : ℕ) (z : Option ℕ)
    → holds ltb x (some n) ≡ false
    → holds ltb (some n) z ≡ false
    → holds ltb x z ≡ false
not_trans (some x) n (some z) h k = ground (arith, h, k)
not_trans (some x) n none h k = refl
not_trans none n z h k = refl

abbrev thousandths-IsOrdered : IsOrdered thousandths
thousandths-IsOrdered = record {
  IsNumber = λ x. (n : ℕ) × (x ≡ some n);
  lt_irrefl = irrefl;
  lt_trans = trans;
  not_lt_trans = λ x y z number h k.
      not_trans x number.0 z (ap (holds ltb x) (sym number.1) ∙ h)
        (ap (λ t. holds ltb t z) (sym number.1) ∙ k);
}

abbrev cfg : Cfg thousandths
cfg = record {
  n_max = 3;
  alpha0 = some 751;
  alpha_decay = some 901;
  lat_decay = some 801;
  probe_iv = 2;
  probe_n = 2;
  seed_slope = some 151;
}

-- A pass without a draft took 10 ms.
abbrev warm : SpecController thousandths
warm = observe thousandths cfg (init_controller thousandths cfg) 0 0 (some 10001)

choose-warm : (choose thousandths cfg warm).0 ≡ 3
unfolding choose best best_from rate expected_emitted emitted_from lat_est nearest observe
    init_controller clamp
choose-warm = refl

is_warm : thousandths.lt (warm.lat_ms 0) (thousandths.of_int (pos 0)) ≡ false
unfolding observe init_controller
is_warm = refl

are_numbers : AreNumbers thousandths thousandths-IsOrdered cfg warm
unfolding rate expected_emitted emitted_from lat_est nearest observe init_controller clamp
are_numbers zero h = (_, refl)
are_numbers (suc zero) h = (_, refl)
are_numbers (suc (suc zero)) h = (_, refl)
are_numbers (suc (suc (suc zero))) h = (_, refl)
are_numbers (suc (suc (suc (suc m)))) h = absurd (omega (arith, h))

choose-IsChoice_example :
    IsChoice thousandths thousandths-IsOrdered cfg warm (choose thousandths cfg warm).0
choose-IsChoice_example =
    choose-IsChoice thousandths thousandths-IsOrdered cfg warm is_warm are_numbers

-- Little is accepted, and a draft slows the pass down: nothing is drafted then.
abbrev slow : SpecController thousandths
slow = record {
  alpha = some 21;
  lat_ms = λ b. if b == 0 then some 1001 else some 50001;
  zero_streak = 0;
}

choose-slow : (choose thousandths cfg slow).0 ≡ 0
unfolding choose best best_from rate expected_emitted emitted_from lat_est
choose-slow = refl

-- The next round: the second without a draft would come, and it is the probe.
abbrev still_slow : SpecController thousandths
still_slow = observe thousandths cfg (choose thousandths cfg slow).1 0 0 (some 1001)

is_timed : thousandths.lt (still_slow.lat_ms 0) (thousandths.of_int (pos 0)) ≡ false
unfolding observe choose best best_from rate expected_emitted emitted_from lat_est
is_timed = refl

probe_due_example : (1 < 2) × ((choose thousandths cfg still_slow).0 ≡ 2)
unfolding observe choose best best_from rate expected_emitted emitted_from lat_est
probe_due_example =
    probe_due thousandths cfg 1 slow still_slow (omega arith) (omega arith) (omega arith) refl
      (round 0 slow slow 0 0 (some 1001) (stay slow) choose-slow) is_timed

cold_start_example :
    (choose thousandths cfg (
      observe thousandths cfg
        (choose thousandths cfg (init_controller thousandths cfg)).1
        3
        0
        (some 90001))).0
    ≡ 3
cold_start_example = cold_start thousandths cfg 1 _ refl (
    round 0 (init_controller thousandths cfg) (init_controller thousandths cfg) 3 0 (some 90001)
      (stay (init_controller thousandths cfg)) (omega arith))
