-- ===== src/Pipelines/Selected.antt =====
-- Which items the pipelines choose.
use mathlib.Core.Option.{some-injective}
use ai_inference_gateway_pla.Base.{
  ℕ, zero, suc, ◌≤◌, ◌≡◌, refl, ap, subst, inl, inr, Bool-cases, Option, Option-cases, none, some,
  List, [], ◌∷◌, All, arith, length, length-take, length-map, length-keep, take, map, keep, leb,
}
use ai_inference_gateway_pla.Chunker.{is_empty}
use ai_inference_gateway_pla.Dedup.{SourceItem}
use ai_inference_gateway_pla.Ranking.{Scored, insert, sort, rank, rank_batch, scored_item}
use ai_inference_gateway_pla.Ranking.Sorting.{IsDescending, sort-lem, keep-IsDescending}
use ai_inference_gateway_pla.Ranking.Batch.{rank_batch-IsDescending}
use ai_inference_gateway_pla.Pipelines.{
  Agent, Env, unranked, job_ranking, with_cosines, first_or, relevant_items, zero_cosine,
  scored_items, ranked_by, research_ranking,
}

abbrev Items : Type 0
Items = List (Scored SourceItem)

abbrev by_score : Scored SourceItem → ℕ
by_score s = s.score

length-insert :
    {A : Type 0} (score : A → ℕ) (x : A) (ys : List A)
    → length (insert score x ys) ≡ suc (length ys)
length-insert score x [] = refl
length-insert score x (y ∷ ys) = ground (arith, length-insert score x ys)

length-sort : {A : Type 0} (score : A → ℕ) (xs : List A) → length (sort score xs) ≡ length xs
length-sort score [] = refl
length-sort score (x ∷ xs) =
    omega (arith, length-insert score x (sort score xs), length-sort score xs)

constant-IsDescending :
    (f : SourceItem → Scored SourceItem) (n : ℕ) (items : List SourceItem)
    → ((i : SourceItem) → (f i).score ≡ n)
    → IsDescending by_score (map f items)
constant-IsDescending f n [] h = tt
constant-IsDescending f n (i ∷ items) h = (below items, constant-IsDescending f n items h)
  where
    below :
        (xs : List SourceItem) → All (λ (s : Scored SourceItem). s.score ≤ (f i).score) (map f xs)
    below [] = tt
    below (x ∷ xs) = (omega (arith, h x, h i), below xs)

take-IsDescending :
    (n : ℕ) (xs : Items) → IsDescending by_score xs → IsDescending by_score (take n xs)
take-IsDescending zero xs d = tt
take-IsDescending (suc n) [] d = tt
take-IsDescending (suc n) (x ∷ xs) d = (head n xs d.0, take-IsDescending n xs d.1)
  where
    head :
        (m : ℕ) (ys : Items)
        → All (λ (y : Scored SourceItem). y.score ≤ x.score) ys
        → All (λ (y : Scored SourceItem). y.score ≤ x.score) (take m ys)
    head zero ys h = tt
    head (suc m) [] h = tt
    head (suc m) (y ∷ ys) h = (h.0, head m ys h.1)

module _ (env : Env) (agent : Agent) where
  -- At most as many as the agent wants, by falling score.
  abbrev pub IsSelection : Items → Type 0
  IsSelection chosen = (length chosen ≤ agent.max_results) × IsDescending by_score chosen

  job-IsSelection : (items : List SourceItem) → IsSelection (job_ranking env agent items)
  unfolding job_ranking rank_batch rank
  job-IsSelection [] = (omega arith, tt)
  job-IsSelection (i ∷ is) = elim (Bool-cases env.rank_raises) [
    | inl e ↦ rw e (
      omega (
        arith,
        length-map (unranked env) (take agent.max_results (i ∷ is)),
        length-take agent.max_results (i ∷ is),
      ),
      constant-IsDescending (unranked env) 50 (take agent.max_results (i ∷ is)) (λ x. refl),
    )
    | inr e ↦
        let scored =
          map (scored_item (env.score_item agent.instructions)) (take agent.max_results (i ∷ is)) in
        rw e (
          omega (
            arith,
            length-keep (λ (s : Scored SourceItem). leb 30 s.score) (sort by_score scored),
            length-sort by_score scored,
            length-map (scored_item (env.score_item agent.instructions))
                (take agent.max_results (i ∷ is)),
            length-take agent.max_results (i ∷ is),
          ),
          (rank_batch-IsDescending (env.score_item agent.instructions) (i ∷ is)
              agent.max_results).0,
        )
  ]

  relevant-IsDescending :
      (scored : Items)
      → IsDescending by_score scored
      → IsDescending by_score (relevant_items env scored)
  relevant-IsDescending scored d =
      choice (keep (λ (s : Scored SourceItem). leb 1200 s.score) scored)
        (keep-IsDescending by_score (λ s. leb 1200 s.score) scored d)
    where
      choice :
          (kept : Items)
          → IsDescending by_score kept
          → IsDescending by_score (first_or env kept scored)
      choice [] k = take-IsDescending 1 scored d
      choice (x ∷ xs) k = k

  ranked-IsSelection :
      (items : List SourceItem) (o : Option Items)
      → ((scored : Items) → o ≡ some scored → IsDescending by_score scored)
      → IsSelection (ranked_by env agent items o)
  ranked-IsSelection items none d = (
    omega (
      arith,
      length-map (zero_cosine env) (take agent.max_results items),
      length-take agent.max_results items,
    ),
    constant-IsDescending (zero_cosine env) 1000 (take agent.max_results items) (λ x. refl),
  )
  ranked-IsSelection items (some scored) d = (
    omega (arith, length-take agent.max_results (relevant_items env scored)),
    take-IsDescending agent.max_results (relevant_items env scored)
        (relevant-IsDescending scored (d scored refl)),
  )

  scored-IsDescending :
      (items : List SourceItem) (scored : Items)
      → scored_items env agent items ≡ some scored
      → IsDescending by_score scored
  scored-IsDescending [] scored h = cc
  scored-IsDescending (i ∷ is) scored h = elim (Bool-cases (is_empty agent.instructions)) [
    | inl e ↦ let never : none ≡ some scored = rw e at h in cc
    | inr e ↦ elim (Option-cases (env.cosines agent.instructions (i ∷ is))) [
      | inl f ↦ let never : none ≡ some scored = rw (e, f) at h in cc
      | inr (cosines, f) ↦
          let sorted = sort by_score (with_cosines env (i ∷ is) cosines) in
          let same : sorted ≡ scored = some-injective sorted scored (rw (e, f) at h) in
          subst (IsDescending by_score) same
            (sort-lem by_score (with_cosines env (i ∷ is) cosines)).0
    ]
  ]

  -- Both pipelines choose at most as many items as the agent wants, by falling score, whether or not
  -- the scoring fails.
  pub rankings-IsSelection :
      (items : List SourceItem)
      → IsSelection (job_ranking env agent items) × IsSelection (research_ranking env agent items)
  unfolding research_ranking
  rankings-IsSelection items = (
    job-IsSelection items,
    ranked-IsSelection items (scored_items env agent items) (scored-IsDescending items),
  )

  length-relevant : (scored : Items) → 1 ≤ length scored → 1 ≤ length (relevant_items env scored)
  length-relevant scored h = choice (keep (λ (s : Scored SourceItem). leb 1200 s.score) scored)
    where
      choice : (kept : Items) → 1 ≤ length (first_or env kept scored)
      choice [] = omega (arith, length-take 1 scored)
      choice (x ∷ xs) = omega arith

  length-ranked :
      (items : List SourceItem) (o : Option Items)
      → 1 ≤ agent.max_results
      → 1 ≤ length items
      → ((scored : Items) → o ≡ some scored → 1 ≤ length scored)
      → 1 ≤ length (ranked_by env agent items o)
  length-ranked items none wanted full h = omega (
    arith,
    length-map (zero_cosine env) (take agent.max_results items),
    length-take agent.max_results items,
  )
  length-ranked items (some scored) wanted full h = omega (
    arith,
    length-take agent.max_results (relevant_items env scored),
    length-relevant scored (h scored refl),
  )

  length-scored :
      (items : List SourceItem) (scored : Items)
      → 1 ≤ length items
      → ((cosines : List ℕ)
          → env.cosines agent.instructions items ≡ some cosines
          → length cosines ≡ length items)
      → scored_items env agent items ≡ some scored
      → 1 ≤ length scored
  length-scored [] scored full fits h = cc
  length-scored (i ∷ is) scored full fits h = elim (Bool-cases (is_empty agent.instructions)) [
    | inl e ↦ let never : none ≡ some scored = rw e at h in cc
    | inr e ↦ elim (Option-cases (env.cosines agent.instructions (i ∷ is))) [
      | inl f ↦ let never : none ≡ some scored = rw (e, f) at h in cc
      | inr (cosines, f) ↦
          let sorted = sort by_score (with_cosines env (i ∷ is) cosines) in
          let same : sorted ≡ scored = some-injective sorted scored (rw (e, f) at h) in
          omega (
            arith,
            ap length same,
            length-sort by_score (with_cosines env (i ∷ is) cosines),
            some_cosines cosines (fits cosines f),
          )
    ]
  ]
    where
      some_cosines :
          (cosines : List ℕ)
          → length cosines ≡ suc (length is)
          → 1 ≤ length (with_cosines env (i ∷ is) cosines)
      some_cosines [] k = absurd (omega arith)
      some_cosines (c ∷ cs) k = omega arith

  -- The research filter never drops all items: with an item to choose from and one wanted it leaves
  -- one, also where none is relevant enough. This takes that there is an embedding for each item.
  pub research_ranking-some :
      (items : List SourceItem)
      → 1 ≤ agent.max_results
      → 1 ≤ length items
      → ((cosines : List ℕ)
          → env.cosines agent.instructions items ≡ some cosines
          → length cosines ≡ length items)
      → 1 ≤ length (research_ranking env agent items)
  unfolding research_ranking
  research_ranking-some items wanted full fits =
      length-ranked items (scored_items env agent items) wanted full
        (λ scored. length-scored items scored full fits)
