-- ===== src/Runtime/Dedup.antt =====
-- The consumers of a batch of executed tasks, with how often each is to be released:
-- the epilogue of src/runtime/gpu_exec.cu, and the loop of src/runtime/runtime.cpp.
use fast_llm.Prelude.{
  ℕ, suc, ◌+◌, ◌≤◌, ◌<◌, ◌≡◌, refl, List, [], ◌∷◌, ◌++◌, ◌==◌, if◌then◌else◌, count, length,
  length-append, count-nil, count-cons, count-append, Bool-cases, inl, inr, arith,
}
use fast_llm.Task.{Task}

-- The consumer arrays of a batch, one behind the other.
unfoldable pub consumers_of : (ℕ → Task) → List ℕ → List ℕ
consumers_of tasks [] = []
consumers_of tasks (x ∷ ids) = (tasks x).consumers ++ consumers_of tasks ids

-- `ucid`/`ucnt`: counts `c` in its slot, or opens a new one at the end.
unfoldable pub bump : ℕ → List (ℕ × ℕ) → List (ℕ × ℕ)
bump c [] = (c, 1) ∷ []
bump c ((d, m) ∷ slots) = if d == c then (d, m + 1) ∷ slots else (d, m) ∷ bump c slots

unfoldable pub tally : List (ℕ × ℕ) → List ℕ → List (ℕ × ℕ)
tally slots [] = slots
tally slots (c ∷ cs) = tally (bump c slots) cs

-- The CPU releases one edge at a time.
unfoldable pub one_by_one : List ℕ → List (ℕ × ℕ)
one_by_one [] = []
one_by_one (c ∷ cs) = (c, 1) ∷ one_by_one cs

-- How much is to be released of `c`.
abbrev pub weight : ℕ → List (ℕ × ℕ) → ℕ
weight c [] = 0
weight c ((d, m) ∷ slots) = (if d == c then m else 0) + weight c slots

-- No slot is empty.
abbrev pub AllPos : List (ℕ × ℕ) → Type 0
AllPos [] = Unit
AllPos ((d, m) ∷ slots) = (0 < m) × AllPos slots

weight-bump :
    (c d : ℕ) (slots : List (ℕ × ℕ))
    → weight c (bump d slots) ≡ weight c slots + (if d == c then 1 else 0)
unfolding bump
weight-bump c d [] = omega arith
weight-bump c d ((e, m) ∷ slots) = ground (arith, weight-bump c d slots)

AllPos-bump : (d : ℕ) (slots : List (ℕ × ℕ)) → AllPos slots → AllPos (bump d slots)
unfolding bump
AllPos-bump d [] h = omega arith
AllPos-bump d ((e, m) ∷ slots) h = elim (Bool-cases (e == d)) [
  | inl q ↦ rw q (omega arith, h.1)
  | inr q ↦ rw q (h.0, AllPos-bump d slots h.1)
]

-- Counting a batch's consumers in slots loses no edge and invents none.
pub weight-tally :
    (c : ℕ) (slots : List (ℕ × ℕ)) (cs : List ℕ)
    → weight c (tally slots cs) ≡ weight c slots + count c cs
unfolding tally
weight-tally c slots [] = omega (arith, count-nil c)
weight-tally c slots (d ∷ cs) =
    omega (arith, weight-tally c (bump d slots) cs, weight-bump c d slots, count-cons c d cs)

pub AllPos-tally : (slots : List (ℕ × ℕ)) (cs : List ℕ) → AllPos slots → AllPos (tally slots cs)
unfolding tally
AllPos-tally slots [] h = h
AllPos-tally slots (d ∷ cs) h = AllPos-tally (bump d slots) cs (AllPos-bump d slots h)

pub weight-one_by_one : (c : ℕ) (cs : List ℕ) → weight c (one_by_one cs) ≡ count c cs
unfolding one_by_one
weight-one_by_one c [] = omega (arith, count-nil c)
weight-one_by_one c (d ∷ cs) = omega (arith, weight-one_by_one c cs, count-cons c d cs)

pub AllPos-one_by_one : (cs : List ℕ) → AllPos (one_by_one cs)
unfolding one_by_one
AllPos-one_by_one [] = tt
AllPos-one_by_one (d ∷ cs) = (omega arith, AllPos-one_by_one cs)

pub count-consumers_of-append :
    (tasks : ℕ → Task) (c x : ℕ) (ids : List ℕ)
    → count c (consumers_of tasks (ids ++ (x ∷ [])))
      ≡ count c (consumers_of tasks ids) + count c (tasks x).consumers
unfolding consumers_of
count-consumers_of-append tasks c x [] =
    omega (arith, count-append c (tasks x).consumers [], count-nil c)
count-consumers_of-append tasks c x (y ∷ ids) = omega (
  arith,
  count-consumers_of-append tasks c x ids,
  count-append c (tasks y).consumers (consumers_of tasks ids),
  count-append c (tasks y).consumers (consumers_of tasks (ids ++ (x ∷ []))),
)

length-bump : (c : ℕ) (slots : List (ℕ × ℕ)) → length (bump c slots) ≤ suc (length slots)
unfolding bump
length-bump c [] = omega arith
length-bump c ((d, m) ∷ slots) = elim (Bool-cases (d == c)) [
  | inl q ↦ rw q (omega arith)
  | inr q ↦ rw q (omega (arith, length-bump c slots))
]

pub length-tally :
    (slots : List (ℕ × ℕ)) (cs : List ℕ) → length (tally slots cs) ≤ length slots + length cs
unfolding tally
length-tally slots [] = omega arith
length-tally slots (c ∷ cs) = omega (arith, length-tally (bump c slots) cs, length-bump c slots)

pub length-one_by_one : (cs : List ℕ) → length (one_by_one cs) ≡ length cs
unfolding one_by_one
length-one_by_one [] = refl
length-one_by_one (c ∷ cs) = omega (arith, length-one_by_one cs)

pub length-consumers_of-append :
    (tasks : ℕ → Task) (x : ℕ) (ids : List ℕ)
    → length (consumers_of tasks (ids ++ (x ∷ [])))
      ≡ length (consumers_of tasks ids) + length (tasks x).consumers
unfolding consumers_of
length-consumers_of-append tasks x [] = omega (arith, length-append (tasks x).consumers [])
length-consumers_of-append tasks x (y ∷ ids) = omega (
  arith,
  length-consumers_of-append tasks x ids,
  length-append (tasks y).consumers (consumers_of tasks ids),
  length-append (tasks y).consumers (consumers_of tasks (ids ++ (x ∷ []))),
)
