-- ===== src/Runner/Tests.antt =====
-- Runs of an agent whose type has no pipeline, and one that is completed and then marked as failed.
use ai_inference_gateway_pla.Base.{
  ◌≡◌, refl, true, false, none, some, List, [], Text, codes, if◌then◌else◌,
}
use ai_inference_gateway_pla.Base.Result.{ok}
use ai_inference_gateway_pla.Pipelines.{
  Agent, AgentResult, running, failed, raised, Env, create_all, run_research, research_ranking,
}
use ai_inference_gateway_pla.Pipelines.Finished.{IsFinished}
use ai_inference_gateway_pla.Runner.{Calls, Store, run_failed, new_run, run_pipeline, run_agent}
use ai_inference_gateway_pla.Runner.Gauge.{run_agent-active}
use ai_inference_gateway_pla.Runner.Settled.{
  fresh, IsReported, run_pipeline-IsFinished, run_agent-IsReported,
}

abbrev agent_of : Text → Agent
agent_of type = record {
  name = codes "a";
  type = type;
  enabled = true;
  instructions = [];
  search_query = codes "q";
  digest_frequency = codes "disabled";
  sources = [];
  max_results = 2;
}

abbrev env : Env
env = record {
  digest = λ t. t;
  fetch = λ name query limit. raised;
  score_item = λ instructions item. (60, codes "fits");
  rank_raises = false;
  cosines = λ instructions xs. none;
  summarize = λ item. none;
  synthesize = λ xs. none;
  assemble_markdown = λ run results. none;
  create_raises = λ i. none;
  save_raises = none;
  telegram_config = none;
  answer = λ earlier p. some 200;
}

abbrev quiet : Calls
quiet = record {
  create_raises = none;
  config_raises = none;
  touch_raises = λ within. none;
  failure_raises = none;
}

abbrev locked : Calls
locked = record quiet { touch_raises = λ within. if within then some (codes "locked") else none }

abbrev start : Store
start = record {
  world = record { run = new_run; results = []; posted = [] };
  gauges = record { active = 2; started = 0; completed = 0; failed = 0 };
  last_run_at = none;
}

abbrev research : Agent
research = agent_of (codes "market_research")

unknown_type :
    (run_agent env quiet 7 (some (agent_of (codes "x"))) start).1
    ≡ ok (run_failed (codes "Unknown agent type: x"))
unfolding run_agent run_pipeline
unknown_type = refl

-- The pipeline has completed the row and the run was counted as completed.
completed_then_failed : (run_agent env locked 7 (some research) start).0.world.run.status ≡ failed
unfolding run_agent run_pipeline run_research create_all research_ranking
completed_then_failed = refl

counted_twice :
    (run_agent env locked 7 (some research) start).0.gauges
    ≡ record { active = 2; started = 1; completed = 1; failed = 1 }
unfolding run_agent run_pipeline run_research create_all research_ranking
counted_twice = refl

run_agent-active_example : (run_agent env locked 7 (some research) start).0.gauges.active ≡ 2
run_agent-active_example = run_agent-active env locked 7 research start refl

abbrev unreachable : Calls
unreachable = record quiet { config_raises = some (codes "down") }

-- Where the configuration cannot be read, the gauge stays one too high and the row at RUNNING.
gauge_leaks : (run_agent env unreachable 7 (some research) start).0.gauges.active ≡ 3
unfolding run_agent
gauge_leaks = refl

row_stays : (run_agent env unreachable 7 (some research) start).0.world.run.status ≡ running
unfolding run_agent
row_stays = refl

research_returns : (run_pipeline env quiet 7 research start.world).1 ≡ ok tt
unfolding run_pipeline run_research create_all research_ranking
research_returns = refl

run_pipeline-IsFinished_example :
    (new : List AgentResult) × IsFinished new start.world
      (run_pipeline env quiet 7 research start.world).0
run_pipeline-IsFinished_example =
    run_pipeline-IsFinished env quiet 7 research start.world research_returns

run_agent-IsReported_example :
    IsReported env locked 7 research
      (fresh env locked 7 start)
      (run_agent env locked 7 (some research) start)
run_agent-IsReported_example =
    run_agent-IsReported env locked 7 research start refl refl refl refl refl
