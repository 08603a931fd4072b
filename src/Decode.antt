-- ===== src/Decode.antt =====
-- tools/decode_main.cpp: the generation loops of run_once(), plain and speculative, over the interface
-- of src/model/decoder.h and over any policy that chooses how much to draft.
pub mod Feeding
pub mod Greedy
pub mod Passes
pub mod Lossless
pub mod Repeats
mod Tests
use fast_llm.Prelude.{
  ℕ, zero, suc, ◌+◌, ◌-◌, ◌≤◌, min, Bool, true, false, ltb, leb, ◌==◌, if◌then◌else◌, Option, none,
  some, List, [], ◌∷◌, ◌++◌, length, get_or, take, drop,
}
use fast_llm.Spec.Suffix
use fast_llm.Spec.Suffix.{Index, draft}
use fast_llm.Spec.Suffix.Chain.{push_all}

-- What the loops call of a decoder. `low_margin s p` is `approx_tau > 0` and `last_margins()[p]` at most
-- `approx_tau`, after a pass that left the state `s`.
pub record Decoder : Type 1 where
  pub State : Type 0
  pub reset : State
  pub n_past : State → ℕ
  pub step_batch : State → List ℕ → State × List ℕ
  pub low_margin : State → ℕ → Bool
  pub rewind_to : State → ℕ → State
  pub max_batch : ℕ

-- How many tokens to draft, and what is told about a pass: the tokens drafted and accepted, with the
-- time of the pass in the policy's own state.
pub record Policy : Type 1 where
  pub State : Type 0
  pub start : State
  pub choose : State → ℕ × State
  pub observe : State → ℕ → ℕ → State

-- How many drafted tokens agree with the decoder's, from the first on
unfoldable pub accepted : List ℕ → List ℕ → ℕ
accepted (o ∷ outs) (x ∷ xs) = let more = accepted outs xs in if o == x then suc more else 0
accepted _ _ = 0

-- `for (p = 1; p < a; ++p) if (low(p)) ...`, with the rounds left and `p`
unfoldable pub first_low : (ℕ → Bool) → ℕ → ℕ → Option ℕ
first_low low zero p = none
first_low low (suc rounds) p =
    let later = first_low low rounds (p + 1) in if low p then some p else later

-- How many accepted tokens the gate leaves, and `trunc`
unfoldable pub trusted : ℕ → Option ℕ → ℕ × Bool
trusted a none = (a, false)
trusted a (some p) = (p, true)

module _ (D : Decoder) where
  open D use {reset, n_past, step_batch, low_margin, rewind_to, max_batch}

  -- `DecoderImpl::step`
  unfoldable pub step : D.State → ℕ → D.State × ℕ
  step s t = let (s', outs) = step_batch s (t ∷ []) in (s', get_or outs 0 0)

  -- The prompt, token by token, and in batches; the rounds are at least as many as the tokens.
  unfoldable pub feed : D.State → ℕ → List ℕ → D.State × ℕ
  feed s next_tok [] = (s, next_tok)
  feed s next_tok (t ∷ ids) = let (s', next') = step s t in feed s' next' ids

  unfoldable pub feed_batches : ℕ → D.State → ℕ → List ℕ → D.State × ℕ
  feed_batches zero s next_tok ids = (s, next_tok)
  feed_batches (suc rounds) s next_tok [] = (s, next_tok)
  feed_batches (suc rounds) s next_tok (t ∷ ids) =
      let m = min (length (t ∷ ids)) max_batch in
      let (s', outs) = step_batch s (take m (t ∷ ids)) in
      feed_batches rounds s' (get_or outs (m - 1) 0) (drop m (t ∷ ids))

  -- `for (i = 0; i < n_gen; ++i)`, with the rounds left
  unfoldable pub plain_loop : ℕ → D.State → ℕ → List ℕ → List ℕ
  plain_loop zero s next_tok out = out
  plain_loop (suc rounds) s next_tok out =
      let (s', next') = step s next_tok in plain_loop rounds s' next' (out ++ next_tok ∷ [])

  -- run_once(), by `spec`: without and with speculation
  unfoldable pub run_plain : ℕ → List ℕ → List ℕ
  run_plain n_gen ids = let (s, next_tok) = feed reset 0 ids in plain_loop n_gen s next_tok []

module _ (D : Decoder) (P : Policy) where
  open D use {n_past, step_batch, low_margin, rewind_to}

  pub record Loop : Type 0 where
    pub s : D.State
    pub idx : Index
    pub ctrl : P.State
    pub next_tok : ℕ
    pub out : List ℕ

  -- After a pass at `base` that drafted `d` and accepted `a` of it, cut short or not
  unfoldable pub settle : ℕ → Loop → ℕ → List ℕ → List ℕ → ℕ → Bool → Loop
  settle n_gen st base d outs a trunc =
      let emitted = take (min a (n_gen - length st.out)) d in
      record {
        s = rewind_to st.s (if trunc then base + a else base + a + 1);
        idx = push_all st.idx emitted;
        ctrl = P.observe st.ctrl (length d) a;
        next_tok = if trunc then get_or d (a - 1) 0 else get_or outs a 0;
        out = st.out ++ emitted;
      }

  -- What is drafted behind `next_tok`, and what the decoder answers to both
  unfoldable pub drafted : ℕ → Loop → List ℕ
  drafted spec_max st =
      let want = min (P.choose st.ctrl).0 spec_max in
      if want == 0 then [] else (draft (Suffix.push st.idx st.next_tok) want).0

  abbrev pub answer : ℕ → Loop → D.State × List ℕ
  answer spec_max st = step_batch st.s (st.next_tok ∷ drafted spec_max st)

  -- One pass of the speculative loop, from the emission of `next_tok` on
  unfoldable pub pass : ℕ → ℕ → Loop → Loop
  pass spec_max n_gen st =
      let t = st.next_tok in
      let idx = Suffix.push st.idx t in
      let (wish, ctrl) = P.choose st.ctrl in
      let d = drafted spec_max st in
      let base = n_past st.s in
      let (s, outs) = answer spec_max st in
      let a = accepted outs d in
      let st' : Loop = record {
        s = s;
        idx = idx;
        ctrl = ctrl;
        next_tok = t;
        out = st.out ++ t ∷ [];
      } in
      let (a', trunc) = trusted a (first_low (low_margin s) (a - 1) 1) in
      settle n_gen st' base d outs a' trunc

  -- `while (out.size() < n_gen)`, with the break after the emission
  unfoldable pub spec_loop : ℕ → ℕ → ℕ → Loop → List ℕ
  spec_loop spec_max n_gen zero st = st.out
  spec_loop spec_max n_gen (suc fuel) st =
      let rest = spec_loop spec_max n_gen fuel (pass spec_max n_gen st) in
      if ltb (length st.out) n_gen
      then (if leb n_gen (length (st.out ++ st.next_tok ∷ []))
          then st.out ++ st.next_tok ∷ []
          else rest)
      else st.out

  unfoldable pub run_spec : ℕ → ℕ → ℕ → ℕ → List ℕ → List ℕ
  run_spec spec_min spec_chain spec_max n_gen ids =
      let (s, next_tok) = feed_batches D (length ids) D.reset 0 ids in
      spec_loop spec_max n_gen (n_gen + 1) (record {
        s = s;
        idx = push_all (Suffix.create spec_chain spec_min) ids;
        ctrl = P.start;
        next_tok = next_tok;
        out = [];
      })
