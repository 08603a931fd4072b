-- ===== src/Spec/Suffix/Tests.antt =====
-- The suffix index on a short stream, and the theorems about it there.
use fast_llm.Prelude.{ℕ, ◌≤◌, ◌≡◌, refl, List, [], ◌∷◌, length, arith}
use fast_llm.Spec.Suffix.{
  create, push, draft, gram_hash, mix, walk, visit, gram_eq, extend, propose, copy_from,
}
use fast_llm.Spec.Suffix.Chain.{push_all}
use fast_llm.Spec.Suffix.Reference.{ref_draft}
use fast_llm.Spec.Suffix.Draft.{draft-push_all}
use fast_llm.Spec.Suffix.Sound.{IsProposal, draft-IsProposal}

abbrev stream : List ℕ
stream = 1 ∷ 2 ∷ 3 ∷ 4 ∷ 5 ∷ 2 ∷ 3 ∷ 4 ∷ []

draft-stream : (draft (push_all (create 64 3) stream) 2).0 ≡ 5 ∷ 2 ∷ []
unfolding create push_all push draft gram_hash mix walk visit gram_eq extend propose copy_from
draft-stream = refl

draft-push_all_example :
    let ix = push_all (create 64 3) stream in (draft ix 2).0 ≡ ref_draft ix.toks 8 3 2
draft-push_all_example = draft-push_all 64 3 stream 2 (omega arith) (omega arith)

draft-IsProposal_example :
    let ix = push_all (create 1 3) stream in
    IsProposal ix 2 (draft ix 2).0 × (length (draft ix 2).0 ≤ 2)
draft-IsProposal_example = draft-IsProposal 1 3 stream 2
