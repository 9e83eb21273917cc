-- ===== src/Pipelines.antt =====
-- The two pipelines of an agent, apps/agents/services/pipelines/job_discovery.py and research.py, on
-- the tables of apps/agents/models.py. The sources, the language model, the embeddings and the
-- database's exceptions are parameters. A cosine is a number of thousandths from -1 on, so 1,200
-- stands for 0.2. Stage logs, metadata, hashes, times and metrics are left out.
pub use ai_inference_gateway_pla.Pipelines.Stages.{
  Agent, RunStatus, AgentRun, AgentResult, World, Fetched, Env, text_or, sources_or, items_of,
  never, Dedup, or_empty, Run, collect, new_item, dedupe, collected, create, send_results,
  finished_run, save_run, publish, running, completed, failed, timeout, unknown_source, raised,
  fetched,
}
unfoldable pub use ai_inference_gateway_pla.Pipelines.Stages.{create_all}
pub use ai_inference_gateway_pla.Pipelines.Jobs.{
  unranked, job_result, job_summary, job_defaults, publish_jobs, jobs_of,
}
unfoldable pub use ai_inference_gateway_pla.Pipelines.Jobs.{job_ranking, run_job_discovery}
pub use ai_inference_gateway_pla.Pipelines.Research.{
  with_cosines, first_or, relevant_items, zero_cosine, scored_items, ranked_by, key_of,
  relevance_score, research_result, research_results, count_summaries, synthesis_of,
  synthesis_tokens, research_defaults, or_no_items, research_items, results_of, publish_research,
}
unfoldable pub use ai_inference_gateway_pla.Pipelines.Research.{research_ranking, run_research}
pub mod Stages
pub mod Jobs
pub mod Research
pub mod Finished
pub mod Selected
mod Tests
