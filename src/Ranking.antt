-- ===== src/Ranking.antt =====
-- apps/agents/services/ranking/service.py. A score is a number of hundredths, as `round(..., 2)`
-- leaves it. The score of an item and its explanation, from keywords and a language model, are a
-- parameter. Python's sort is stable, also with `reverse=True`.
use ai_inference_gateway_pla.Base.{
  ℕ, ◌≡◌, Bool, List, [], ◌∷◌, Text, map, take, keep, ltb, leb, if◌then◌else◌,
}
pub mod Sorting
pub mod Batch
mod Tests

module _ {A : Type 0} (score : A → ℕ) where
  -- In front of what has the same score or less.
  abbrev pub insert : A → List A → List A
  insert x [] = x ∷ []
  insert x (y ∷ ys) =
      let later = y ∷ insert x ys in if ltb (score x) (score y) then later else x ∷ y ∷ ys

  -- `sort(key=score, reverse=True)`
  abbrev pub sort : List A → List A
  sort [] = []
  sort (x ∷ xs) = insert x (sort xs)

-- `(item, score, explanation)`
pub record Scored (A : Type 0) : Type 0 where
  pub item : A
  pub score : ℕ
  pub explanation : Text

module _ {A : Type 0} (score_item : A → ℕ × Text) where
  abbrev pub scored_item : A → Scored A
  scored_item item =
      let (score, explanation) = score_item item in
      record { item = item; score = score; explanation = explanation }

  -- `rank`
  unfoldable pub rank : List A → List (Scored A)
  rank items = sort (λ (s : Scored A). s.score) (map scored_item items)

  -- `rank_batch`
  unfoldable pub rank_batch : List A → ℕ → List (Scored A)
  unfolding rank
  rank_batch items max_items = keep (λ (s : Scored A). leb 30 s.score) (rank (take max_items items))
