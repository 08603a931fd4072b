-- ===== src/Decode/Feeding.antt =====
-- tools/decode_main.cpp, run_once(): the state and the next token that the prompt leaves behind, fed
-- token by token or in batches, over a decoder that keeps to its promises.
use fast_llm.Prelude.{
  ℕ, zero, suc, ◌+◌, ◌-◌, ◌≤◌, ◌≡◌, ◌∙◌, refl, sym, ap, ap₂, min, arith, List, [], ◌∷◌, ◌++◌,
  length, length-append, get_or, take, drop,
}
use fast_llm.Decode.{Decoder, step, feed, feed_batches}
use fast_llm.Decode.Greedy.{predictions, IsGreedy, append-nil, append_assoc}

pub length-take {ℓ} : {A : Type ℓ} (n : ℕ) (xs : List A) → n ≤ length xs → length (take n xs) ≡ n
length-take zero xs h = refl
length-take (suc n) [] h = absurd (omega (arith, h))
length-take (suc n) (x ∷ xs) h = ap suc (length-take n xs (omega (arith, h)))

pub take-drop {ℓ} : {A : Type ℓ} (n : ℕ) (xs : List A) → take n xs ++ drop n xs ≡ xs
take-drop zero xs = refl
take-drop (suc n) [] = refl
take-drop (suc n) (x ∷ xs) = ap (λ l. x ∷ l) (take-drop n xs)

length-drop {ℓ} : {A : Type ℓ} (n : ℕ) (xs : List A) → length (drop n xs) ≡ length xs - n
length-drop zero xs = omega arith
length-drop (suc n) [] = omega arith
length-drop (suc n) (x ∷ xs) = omega (arith, length-drop n xs)

module _ (predict : List ℕ → ℕ) where
  -- The greedy choice behind a prompt, or `t` if there is none
  abbrev pub choice_after : List ℕ → ℕ → List ℕ → ℕ
  choice_after c t [] = t
  choice_after c t (x ∷ xs) = predict (c ++ x ∷ xs)

  choice_after_next :
      (c : List ℕ) (t x : ℕ) (xs : List ℕ)
      → choice_after (c ++ x ∷ []) (predict (c ++ x ∷ [])) xs ≡ choice_after c t (x ∷ xs)
  choice_after_next c t x [] = refl
  choice_after_next c t x (y ∷ ys) = ap predict (append_assoc c (x ∷ []) (y ∷ ys))

  choice_after_batch :
      (c b : List ℕ) (t x : ℕ) (xs : List ℕ)
      → choice_after (c ++ x ∷ xs) (predict (c ++ x ∷ xs)) b ≡ choice_after c t ((x ∷ xs) ++ b)
  choice_after_batch c [] t x xs = ap (λ l. predict (c ++ x ∷ l)) (sym (append-nil xs))
  choice_after_batch c (y ∷ ys) t x xs = ap predict (append_assoc c (x ∷ xs) (y ∷ ys))

  last_prediction :
      (c : List ℕ) (x : ℕ) (xs : List ℕ)
      → get_or (predictions predict c (x ∷ xs)) (length xs) 0 ≡ predict (c ++ x ∷ xs)
  unfolding predictions
  last_prediction c x [] = refl
  last_prediction c x (y ∷ ys) =
      last_prediction (c ++ x ∷ []) y ys ∙ ap predict (append_assoc c (x ∷ []) (y ∷ ys))

module _ (D : Decoder) (I : IsGreedy D) where
  open I use {fed, predict, max_kv, step_batch-fed, step_batch-outs, batch_pos}

  module _ (s : D.State) (t : ℕ) (room : length (fed s) + 1 ≤ max_kv) where
    pub step-fed : fed (step D s t).0 ≡ fed s ++ t ∷ []
    unfolding step
    step-fed = step_batch-fed s (t ∷ []) (omega arith) batch_pos room

    pub step-next : (step D s t).1 ≡ predict (fed s ++ t ∷ [])
    unfolding step predictions
    step-next =
        ap (λ outs. get_or outs 0 0) (step_batch-outs s (t ∷ []) (omega arith) batch_pos room)

    -- One token less is left to feed, and there is still room for the rest.
    pub step-room :
        (n : ℕ) → length (fed s) + suc n ≤ max_kv → length (fed (step D s t).0) + n ≤ max_kv
    step-room n h = omega (arith, h, ap length step-fed, length-append (fed s) (t ∷ []))

  pub feed-feeds :
      (ids : List ℕ) (s : D.State) (t : ℕ)
      → length (fed s) + length ids ≤ max_kv
      → (fed (feed D s t ids).0 ≡ fed s ++ ids)
        × ((feed D s t ids).1 ≡ choice_after predict (fed s) t ids)
  unfolding feed
  feed-feeds [] s t h = (sym (append-nil (fed s)), refl)
  feed-feeds (x ∷ ids) s t h =
      let room : length (fed s) + 1 ≤ max_kv = omega (arith, h) in
      let (all, last) = feed-feeds ids _ _ (step-room s x room (length ids) h) in
      (
        all ∙ ap (λ c. c ++ ids) (step-fed s x room) ∙ append_assoc (fed s) (x ∷ []) ids,
        last
            ∙ ap₂ (λ c n. choice_after predict c n ids) (step-fed s x room) (step-next s x room)
            ∙ choice_after_next predict (fed s) t x ids,
      )

  -- What more of the prompt has room in a batch that starts with its next token
  more : List ℕ → ℕ
  more ids = min (length ids) (D.max_batch - 1)

  batch_size : (ids : List ℕ) → min (suc (length ids)) D.max_batch ≡ suc (more ids)
  unfolding more
  batch_size ids = omega (arith, batch_pos)

  more_fits : (ids : List ℕ) → more ids ≤ length ids
  unfolding more
  more_fits ids = omega arith

  length-batch : (x : ℕ) (ids : List ℕ) → length (x ∷ take (more ids) ids) ≡ suc (more ids)
  length-batch x ids = ap suc (length-take (more ids) ids (more_fits ids))

  batch_small : (x : ℕ) (ids : List ℕ) → length (x ∷ take (more ids) ids) ≤ D.max_batch
  batch_small x ids = omega (arith, batch_pos, batch_size ids, length-batch x ids)

  batch : D.State → ℕ → List ℕ → D.State × List ℕ
  batch s x ids = D.step_batch s (x ∷ take (more ids) ids)

  batch_next : D.State → ℕ → List ℕ → ℕ
  batch_next s x ids = get_or (batch s x ids).1 (more ids) 0

  feed_batches-batch :
      (rounds : ℕ) (x : ℕ) (ids : List ℕ) (s : D.State) (t : ℕ)
      → feed_batches D (suc rounds) s t (x ∷ ids)
        ≡ feed_batches D rounds (batch s x ids).0 (batch_next s x ids) (drop (more ids) ids)
  unfolding batch batch_next feed_batches
  feed_batches-batch rounds x ids s t =
      let less_one : suc (more ids) - 1 ≡ more ids = omega arith in
      rw (batch_size ids, less_one) refl

  module _ (s : D.State) (x : ℕ) (ids : List ℕ)
      (h : length (fed s) + suc (length ids) ≤ max_kv) where
    batch_room : length (fed s) + length (x ∷ take (more ids) ids) ≤ max_kv
    batch_room = omega (arith, h, length-batch x ids, more_fits ids)

    batch-fed : fed (batch s x ids).0 ≡ fed s ++ x ∷ take (more ids) ids
    unfolding batch
    batch-fed = step_batch-fed s _ (omega arith) (batch_small x ids) batch_room

    batch_next-predict : batch_next s x ids ≡ predict (fed s ++ x ∷ take (more ids) ids)
    unfolding batch batch_next
    batch_next-predict =
        ap₂ (λ outs n. get_or outs n 0)
          (step_batch-outs s (x ∷ take (more ids) ids) (omega arith) (batch_small x ids) batch_room)
          (sym (length-take (more ids) ids (more_fits ids)))
        ∙ last_prediction predict (fed s) x (take (more ids) ids)

    rest_room : length (fed (batch s x ids).0) + length (drop (more ids) ids) ≤ max_kv
    rest_room = omega (
      arith,
      h,
      ap length batch-fed,
      length-append (fed s) (x ∷ take (more ids) ids),
      length-batch x ids,
      length-drop (more ids) ids,
      more_fits ids,
    )

  whole : (x : ℕ) (ids : List ℕ) → (x ∷ take (more ids) ids) ++ drop (more ids) ids ≡ x ∷ ids
  whole x ids = ap (λ l. x ∷ l) (take-drop (more ids) ids)

  -- The batches feed what the tokens one by one do, and in as many rounds as there are tokens, if not
  -- fewer, all of them are fed.
  pub feed_batches-feeds :
      (rounds : ℕ) (ids : List ℕ) (s : D.State) (t : ℕ)
      → length ids ≤ rounds
      → length (fed s) + length ids ≤ max_kv
      → (fed (feed_batches D rounds s t ids).0 ≡ fed s ++ ids)
        × ((feed_batches D rounds s t ids).1 ≡ choice_after predict (fed s) t ids)
  unfolding feed_batches
  feed_batches-feeds zero [] s t h room = (sym (append-nil (fed s)), refl)
  feed_batches-feeds zero (x ∷ ids) s t h room = absurd (omega (arith, h))
  feed_batches-feeds (suc rounds) [] s t h room = (sym (append-nil (fed s)), refl)
  feed_batches-feeds (suc rounds) (x ∷ ids) s t h room =
      let rest = drop (more ids) ids in
      let shorter : length rest ≤ rounds = omega (arith, length-drop (more ids) ids, h) in
      let (all, last) =
        feed_batches-feeds rounds rest (batch s x ids).0 (batch_next s x ids) shorter
          (rest_room s x ids room) in
      let open_batch = feed_batches-batch rounds x ids s t in
      (
        ap (λ r. fed r.0) open_batch
            ∙ all
            ∙ ap (λ c. c ++ rest) (batch-fed s x ids room)
            ∙ append_assoc (fed s) (x ∷ take (more ids) ids) rest
            ∙ ap (λ l. fed s ++ l) (whole x ids),
        ap (λ r. r.1) open_batch
            ∙ last
            ∙ ap₂ (λ c n. choice_after predict c n rest) (batch-fed s x ids room)
                (batch_next-predict s x ids room)
            ∙ choice_after_batch predict (fed s) rest t x (take (more ids) ids)
            ∙ ap (λ l. choice_after predict (fed s) t l) (whole x ids),
      )
