-- ===== src/Pipelines/Jobs.antt =====
-- apps/agents/services/pipelines/job_discovery.py.
use ai_inference_gateway_pla.Base.{
  ℕ, ◌*◌, List, [], ◌∷◌, ◌++◌, map, Text, codes, length, take, if◌then◌else◌, decimal,
}
use ai_inference_gateway_pla.Base.Effect.{◌>>◌}
use ai_inference_gateway_pla.Dedup.{SourceItem}
use ai_inference_gateway_pla.Ranking.{Scored, rank_batch}
use ai_inference_gateway_pla.Pipelines.Stages.{
  Agent, AgentResult, Env, text_or, or_empty, Run, collected, create_all, publish,
}

module _ (env : Env) where
  abbrev pub unranked : SourceItem → Scored SourceItem
  unranked item = record { item = item; score = 50; explanation = [] }

  -- The ranking of a job discovery, with its fallback.
  unfoldable pub job_ranking : Agent → List SourceItem → List (Scored SourceItem)
  job_ranking agent [] = []
  job_ranking agent (item ∷ items) =
      if env.rank_raises
      then map unranked (take agent.max_results (item ∷ items))
      else rank_batch (env.score_item agent.instructions) (item ∷ items) agent.max_results

  abbrev pub job_result : Scored SourceItem → AgentResult
  job_result s = record {
    title = s.item.title;
    url = s.item.url;
    source = s.item.source;
    content = take 5000 s.item.content;
    summary = take 300 (text_or s.explanation (or_empty (env.summarize s.item)));
    match_score = s.score;
  }

  abbrev pub job_summary : ℕ → List AgentResult → Text
  job_summary candidates [] = codes "No matching jobs found."
  job_summary candidates (result ∷ results) =
      codes "Ranked "
      ++ (decimal (length (result ∷ results))
          ++ (codes " jobs from " ++ (decimal candidates ++ codes " candidates.")))

  abbrev pub job_defaults : List Text
  job_defaults = codes "remoteok" ∷ codes "yc_jobs" ∷ []

  abbrev pub publish_jobs : Agent → ℕ → List AgentResult → Run (Unit {0})
  publish_jobs agent candidates new w =
      publish env agent (record (w.run) { summary = job_summary candidates new })
        (job_summary candidates new) (length new * 50) new w

  abbrev pub jobs_of : Agent → List AgentResult
  jobs_of agent = map job_result (job_ranking agent (collected env agent job_defaults))

  -- `JobDiscoveryWorkflow.run`
  unfoldable pub run_job_discovery : Agent → Run (Unit {0})
  unfolding create_all
  run_job_discovery agent = do
    create_all env 0 (jobs_of agent)
    publish_jobs agent (length (collected env agent job_defaults)) (jobs_of agent)
