-- ===== src/Spec/Suffix.antt =====
-- The suffix index of src/spec/suffix_index.h. A token is the 32 bits of an `int32_t`; the vectors
-- are tables that are read below `size`, and -1 in `prev_` is `none`.
pub mod Chain
pub mod Match
pub mod Reference
pub mod Draft
pub mod Sound
mod Tests
use fast_llm.Prelude.{
  ℕ, zero, suc, ◌+◌, ◌-◌, ◌*◌, ◌/◌, ◌^◌, Bool, true, false, not, ◌&&◌, ◌||◌, ltb, leb, ◌==◌,
  if◌then◌else◌, Option, none, some, List, [], ◌∷◌, update, bit_xor,
}
use fast_llm.Prelude.Words.{u64}

pub record Index : Type 0 where
  pub chain_cap : ℕ
  pub min_match : ℕ
  pub toks : ℕ → ℕ
  pub size : ℕ
  pub prev : ℕ → Option ℕ
  pub head : ℕ → Option ℕ

-- The length of a gram, `H`
abbrev pub gram : ℕ
gram = 3

unfoldable pub create : ℕ → ℕ → Index
create chain_cap min_match = record {
  chain_cap = chain_cap;
  min_match = min_match;
  toks = λ _. 0;
  size = 0;
  prev = λ _. none;
  head = λ _. none;
}

-- One round of `gram_hash`
unfoldable pub mix : ℕ → ℕ → ℕ
mix x t = bit_xor x (u64 (t + 11400714819323198485 + u64 (x * 2 ^ 6) + x / 2 ^ 2))

unfoldable pub gram_hash : (ℕ → ℕ) → ℕ → ℕ
gram_hash toks i = mix (mix (mix 11400714819323198485 (toks i)) (toks (i + 1))) (toks (i + 2))

unfoldable pub gram_eq : (ℕ → ℕ) → ℕ → ℕ → Bool
gram_eq toks a b =
    toks a == toks b && (toks (a + 1) == toks (b + 1) && toks (a + 2) == toks (b + 2))

unfoldable pub push : Index → ℕ → Index
push ix t =
    let n = ix.size + 1 in
    let toks = update ix.toks ix.size t in
    let prev = update ix.prev ix.size none in
    if ltb n gram
    then record ix { toks = toks; prev = prev; size = n }
    else let h = gram_hash toks (n - gram) in
      record ix {
        toks = toks;
        size = n;
        prev = update prev (n - 1) (ix.head h);
        head = update ix.head h (some (n - 1));
      }

unfoldable pub reset : Index → Index
reset ix = create ix.chain_cap ix.min_match

-- The inner loop of `draft`: how far the match that ends at `e` reaches back. The fuel `e + 1` bounds it.
unfoldable pub extend : (ℕ → ℕ) → ℕ → ℕ → ℕ → ℕ → ℕ
extend toks n e zero len = len
extend toks n e (suc fuel) len =
    let longer = extend toks n e fuel (len + 1) in
    if ltb len (e + 1) && (ltb len (n - 1) && toks (e - len) == toks (n - 1 - len))
    then longer
    else len

-- The local variables of `draft`, and what it counts for `Diag`.
pub record Best : Type 0 where
  pub best_end : Option ℕ
  pub best_len : ℕ
  pub cands : ℕ
  pub walked : ℕ

-- The body of the outer loop.
unfoldable pub visit : (ℕ → ℕ) → ℕ → ℕ → Best → Best
visit toks n e b =
    if e == n - 1 || not (gram_eq toks (e + 1 - gram) (n - gram))
    then b
    else let len = extend toks n e (e + 1) gram in
      if ltb b.best_len len
      then record b { best_end = some e; best_len = len; cands = b.cands + 1 }
      else record b { cands = b.cands + 1 }

-- The outer loop, for at most so many more candidates.
unfoldable pub walk : Index → ℕ → Option ℕ → Best → Best
walk ix zero e b = b
walk ix (suc cap) none b = b
walk ix (suc cap) (some e) b =
    let b' = visit ix.toks ix.size e b in
    walk ix cap (ix.prev e) (record b' { walked = b'.walked + 1 })

-- The last loop: the tokens from `p` on, at most `cnt` of them.
unfoldable pub copy_from : (ℕ → ℕ) → ℕ → ℕ → ℕ → List ℕ
copy_from toks n p zero = []
copy_from toks n p (suc cnt) =
    let rest = copy_from toks n (p + 1) cnt in if ltb p n then toks p ∷ rest else []

pub record Diag : Type 0 where
  pub gram_seen : Bool
  pub cands : ℕ
  pub best_len : ℕ
  pub walked : ℕ

abbrev pub no_diag : Diag
no_diag = record { gram_seen = false; cands = 0; best_len = 0; walked = 0 }

abbrev pub no_best : Best
no_best = record { best_end = none; best_len = 0; cands = 0; walked = 0 }

-- The end of `draft`.
unfoldable pub propose : Index → ℕ → Best → List ℕ × Diag
propose ix n_max b = (
  elim b.best_end [
    | none ↦ []
    | some e ↦ if ltb b.best_len ix.min_match then [] else copy_from ix.toks ix.size (e + 1) n_max
  ],
  record { gram_seen = true; cands = b.cands; best_len = b.best_len; walked = b.walked },
)

-- The tokens that `draft` writes, and its `Diag`. A negative `n_max` is 0 here.
unfoldable pub draft : Index → ℕ → List ℕ × Diag
draft ix n_max =
    if ltb ix.size gram || leb n_max 0
    then ([], no_diag)
    else let h = gram_hash ix.toks (ix.size - gram) in
      elim (ix.head h) [
        | none ↦ ([], no_diag)
        | some e ↦ propose ix n_max (walk ix ix.chain_cap (some e) no_best)
      ]
