-- ===== src/Ranking/Tests.antt =====
-- Three items of which two have the same score, in a batch that leaves the fourth out.
use ai_inference_gateway_pla.Base.{ℕ, ◌≤◌, ◌≡◌, refl, List, [], ◌∷◌, Text, All, map, take}
use ai_inference_gateway_pla.Ranking.{Scored, scored_item, rank, rank_batch}
use ai_inference_gateway_pla.Ranking.Sorting.{IsDescending, level}
use ai_inference_gateway_pla.Ranking.Batch.{rank_batch-IsDescending}

abbrev items : List (ℕ × ℕ)
items = (1, 40) ∷ (2, 20) ∷ (3, 70) ∷ (4, 40) ∷ (5, 99) ∷ []

abbrev score_item : ℕ × ℕ → ℕ × Text
score_item item = (item.1, [])

numbers : map (λ (s : Scored (ℕ × ℕ)). s.item.0) (rank_batch score_item items 4) ≡ 3 ∷ 1 ∷ 4 ∷ []
unfolding rank_batch rank
numbers = refl

rank_batch-IsDescending_example :
    IsDescending (λ (s : Scored (ℕ × ℕ)). s.score) (rank_batch score_item items 4)
    × All (λ (s : Scored (ℕ × ℕ)). 30 ≤ s.score) (rank_batch score_item items 4)
    × ((n : ℕ)
        → 30 ≤ n
        → level (λ (s : Scored (ℕ × ℕ)). s.score) n (rank_batch score_item items 4)
          ≡ level (λ (s : Scored (ℕ × ℕ)). s.score) n (map (scored_item score_item) (take 4 items)))
rank_batch-IsDescending_example = rank_batch-IsDescending score_item items 4
