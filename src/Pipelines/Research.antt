-- ===== src/Pipelines/Research.antt =====
-- apps/agents/services/pipelines/research.py.
use ai_inference_gateway_pla.Base.{
  ℕ, zero, suc, ◌+◌, Option, none, some, List, [], ◌∷◌, map, Text, codes, take, keep, leb, text_eq,
  if◌then◌else◌,
}
use ai_inference_gateway_pla.Base.Effect.{◌>>◌}
use ai_inference_gateway_pla.Chunker.{is_empty}
use ai_inference_gateway_pla.Dedup.{SourceItem}
use ai_inference_gateway_pla.Ranking.{Scored, sort}
use ai_inference_gateway_pla.Pipelines.Stages.{
  Agent, AgentResult, Env, text_or, or_empty, Run, collected, create_all, publish,
}

module _ (env : Env) where
  -- `zip(deduped_items, item_embs)` with the cosine of each
  abbrev pub with_cosines : List SourceItem → List ℕ → List (Scored SourceItem)
  with_cosines [] cosines = []
  with_cosines (item ∷ items) [] = []
  with_cosines (item ∷ items) (c ∷ cosines) =
      record { item = item; score = c; explanation = [] } ∷ with_cosines items cosines

  -- `relevant = scored_items[:1]` where nothing is above the threshold
  abbrev pub first_or :
      List (Scored SourceItem) → List (Scored SourceItem) → List (Scored SourceItem)
  first_or [] scored = take 1 scored
  first_or (s ∷ ss) scored = s ∷ ss

  abbrev pub relevant_items : List (Scored SourceItem) → List (Scored SourceItem)
  relevant_items scored =
      first_or (keep (λ (s : Scored SourceItem). leb 1200 s.score) scored) scored

  abbrev pub zero_cosine : SourceItem → Scored SourceItem
  zero_cosine item = record { item = item; score = 1000; explanation = [] }

  -- `scored_items`, or none where the filter is skipped or fails
  abbrev pub scored_items : Agent → List SourceItem → Option (List (Scored SourceItem))
  scored_items agent [] = none
  scored_items agent (item ∷ items) =
      if is_empty agent.instructions
      then none
      else elim (env.cosines agent.instructions (item ∷ items)) [
        | none ↦ none
        | some cosines ↦
            some (sort (λ (s : Scored SourceItem). s.score) (with_cosines (item ∷ items) cosines))
      ]

  abbrev pub ranked_by :
      Agent → List SourceItem → Option (List (Scored SourceItem)) → List (Scored SourceItem)
  ranked_by agent items none = map zero_cosine (take agent.max_results items)
  ranked_by agent items (some scored) = take agent.max_results (relevant_items scored)

  -- `ranked_items`, each with its cosine
  unfoldable pub research_ranking : Agent → List SourceItem → List (Scored SourceItem)
  research_ranking agent items = ranked_by agent items (scored_items agent items)

  -- `key = item.url or item.title`
  abbrev pub key_of : SourceItem → Text
  key_of item = text_or item.url item.title

  -- `relevance_score`: of the first scored item with the key, or 0.0
  abbrev pub relevance_score : List (Scored SourceItem) → SourceItem → ℕ
  relevance_score [] item = 1000
  relevance_score (s ∷ ss) item =
      let later = relevance_score ss item in
      if text_eq (key_of s.item) (key_of item) then s.score else later

  abbrev pub research_result : List (Scored SourceItem) → Text → SourceItem → AgentResult
  research_result scored summary item = record {
    title = item.title;
    url = item.url;
    source = item.source;
    content = take 5000 item.content;
    summary = summary;
    match_score = relevance_score scored item;
  }

  -- The summaries of the first ten, and the empty text for the others.
  abbrev pub research_results : List (Scored SourceItem) → ℕ → List SourceItem → List AgentResult
  research_results scored left [] = []
  research_results scored zero (item ∷ items) =
      research_result scored [] item ∷ research_results scored zero items
  research_results scored (suc left) (item ∷ items) =
      research_result scored (or_empty (env.summarize item)) item
      ∷ research_results scored left items

  abbrev pub count_summaries : ℕ → List SourceItem → ℕ
  count_summaries zero items = 0
  count_summaries (suc left) [] = 0
  count_summaries (suc left) (item ∷ items) =
      let rest = count_summaries left items in
      elim (env.summarize item) [ none ↦ rest | some text ↦ 100 + rest ]

  abbrev pub synthesis_of : Option Text → Text
  synthesis_of none = codes "Trend synthesis unavailable."
  synthesis_of (some text) = text

  abbrev pub synthesis_tokens : Option Text → ℕ
  synthesis_tokens none = 0
  synthesis_tokens (some text) = 200

  abbrev pub research_defaults : List Text
  research_defaults = codes "hackernews" ∷ codes "reddit" ∷ codes "arxiv" ∷ []

  abbrev pub or_no_items : Option (List (Scored SourceItem)) → List (Scored SourceItem)
  or_no_items none = []
  or_no_items (some scored) = scored

  -- `ranked_items`
  abbrev pub research_items : Agent → List SourceItem
  research_items agent =
      map (λ (s : Scored SourceItem). s.item)
        (research_ranking agent (collected env agent research_defaults))

  -- `result_objects`
  abbrev pub results_of : Agent → List AgentResult
  results_of agent =
      research_results (or_no_items (scored_items agent (collected env agent research_defaults))) 10
        (research_items agent)

  abbrev pub publish_research : Agent → List SourceItem → List AgentResult → Run (Unit {0})
  publish_research agent items new w =
      let trends = env.synthesize (take 15 items) in
      publish env agent w.run
        (text_or (take 2000 (synthesis_of trends)) (codes "Research complete."))
        (count_summaries 10 items + synthesis_tokens trends) new w

  -- `ResearchPipeline.run`
  unfoldable pub run_research : Agent → Run (Unit {0})
  unfolding create_all
  run_research agent = do
    create_all env 0 (results_of agent)
    publish_research agent (research_items agent) (results_of agent)
