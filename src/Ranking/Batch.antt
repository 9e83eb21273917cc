-- ===== src/Ranking/Batch.antt =====
-- What `rank_batch` keeps, and what it never looks at.
use ai_inference_gateway_pla.Base.{
  ℕ, zero, suc, ◌≤◌, ◌≡◌, refl, sym, ap, ◌∙◌, true, List, [], ◌∷◌, Text, All, keep-All, arith, map,
  take, keep, leb,
}
use ai_inference_gateway_pla.Ranking.{Scored, scored_item, sort, rank, rank_batch}
use ai_inference_gateway_pla.Ranking.Sorting.{
  IsDescending, level, sort-lem, keep-IsDescending, level-keep,
}

module _ {A : Type 0} (score_item : A → ℕ × Text) where
  at_least :
      (n : ℕ) (xs : List (Scored A))
      → All (λ (s : Scored A). leb n s.score ≡ true) xs
      → All (λ (s : Scored A). n ≤ s.score) xs
  at_least n [] h = tt
  at_least n (x ∷ xs) h = let head = h.0 in (ground arith, at_least n xs h.1)

  -- The batch is sorted by falling score, has no score below 0.3, and of each score from 0.3 on it
  -- has the scored items among the first `max_items`, all of them and in their order.
  pub rank_batch-IsDescending :
      (items : List A) (max_items : ℕ)
      → IsDescending (λ (s : Scored A). s.score) (rank_batch score_item items max_items)
        × All (λ (s : Scored A). 30 ≤ s.score) (rank_batch score_item items max_items)
        × ((n : ℕ)
            → 30 ≤ n
            → level (λ (s : Scored A). s.score) n (rank_batch score_item items max_items)
              ≡ level
                  (λ (s : Scored A). s.score)
                  n
                  (map (scored_item score_item) (take max_items items)))
  unfolding rank_batch rank
  rank_batch-IsDescending items max_items =
      let scored = map (scored_item score_item) (take max_items items) in
      let by = λ (s : Scored A). s.score in
      let (descending, levels) = sort-lem by scored in
      let passes = λ (s : Scored A). leb 30 s.score in
      (
        keep-IsDescending by passes (sort by scored) descending,
        at_least 30 (keep passes (sort by scored)) (keep-All passes (sort by scored)),
        λ n h. level-keep by passes n (sort by scored) (λ s e. ground arith) ∙ levels n,
      )

  take-take : (n : ℕ) (xs : List A) → take n (take n xs) ≡ take n xs
  take-take zero xs = refl
  take-take (suc n) [] = refl
  take-take (suc n) (x ∷ xs) = ap (◌∷◌ x) (take-take n xs)

  -- The batch is cut before it is ranked: items behind the first `max_items` have no chance, however
  -- relevant they are.
  pub rank_batch-take :
      (items : List A) (max_items : ℕ)
      → rank_batch score_item items max_items
        ≡ rank_batch score_item (take max_items items) max_items
  unfolding rank_batch
  rank_batch-take items max_items =
      ap (λ l. keep (λ (s : Scored A). leb 30 s.score) (rank score_item l))
        (sym (take-take max_items items))
