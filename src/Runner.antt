-- ===== src/Runner.antt =====
-- `run_agent` of apps/agents/services/runner.py and `get_pipeline` of
-- apps/agents/services/pipelines/__init__.py. The pipelines, and which calls of the database raise,
-- are given. Logs and durations are left out; a cancellation, which no `except Exception` sees, is not modelled.
use ai_inference_gateway_pla.Base.{
  ℕ, suc, ◌-◌, ◌≡◌, Bool, true, false, Option, none, some, List, [], ◌++◌, Text, codes, take,
  text_eq, if◌then◌else◌,
}
use ai_inference_gateway_pla.Base.Result.{Result, err, ok}
use ai_inference_gateway_pla.Base.Effect.{Effect, ◌>>=◌, ◌>>◌, raise, then_run}
use ai_inference_gateway_pla.Telegram.{send_error, is_available}
use ai_inference_gateway_pla.Pipelines.{
  Agent, AgentRun, running, failed, World, Env, Run, run_job_discovery, run_research,
}
pub mod Gauge
pub mod Settled
mod Tests

-- Of each of the calls whether it raises; `touch_raises` is of the two savings of `last_run_at`, the
-- first after the pipeline and the second of the handler.
pub record Calls : Type 0 where
  pub create_raises : Option Text
  pub config_raises : Option Text
  pub touch_raises : Bool → Option Text
  pub failure_raises : Option Text

-- `agent_active_runs` of the agent's type, and `agent_runs_total` of the agent by status
pub record Gauges : Type 0 where
  pub active : ℕ
  pub started : ℕ
  pub completed : ℕ
  pub failed : ℕ

pub record Store : Type 0 where
  pub world : World
  pub gauges : Gauges
  pub last_run_at : Option ℕ

-- What `run_agent` returns.
pub data Report : Type 0 where
  skipped : Report
  run_completed : ℕ → ℕ → Report
  run_failed : Text → Report

abbrev pub Call : Type 0 → Type 0
Call A = Effect Store Text A

-- A call that only may raise, followed by its effect.
abbrev pub checked : Option Text → (Store → Store) → Call (Unit {0})
checked none change s = (change s, ok tt)
checked (some exception) change s = (s, err exception)

-- `except Exception as exc:`
abbrev pub handled : {A : Type 0} → Store × Result Text A → (Text → Call A) → Store × Result Text A
handled (s, ok value) handler = (s, ok value)
handled (s, err exception) handler = handler exception s

-- `finally:`
abbrev pub finally_do :
    {A : Type 0} → (Store → Store) → Store × Result Text A → Store × Result Text A
finally_do change (s, result) = (change s, result)

-- The row that `AgentRun.objects.create` makes, with the defaults of the model
abbrev pub new_run : AgentRun
new_run = record {
  status = running;
  tokens_used = 0;
  discovered_count = 0;
  sent_count = 0;
  summary = [];
  error_message = [];
}

abbrev pub set_run : AgentRun → Store → Store
set_run run s = record s { world = record (s.world) { run = run } }

-- `agent_active_runs.inc()`, and the count of what was started
abbrev pub begin_run : Store → Store
begin_run s = record s {
  gauges = record (s.gauges) { active = suc s.gauges.active; started = suc s.gauges.started };
}

abbrev pub end_run : Store → Store
end_run s = record s { gauges = record (s.gauges) { active = s.gauges.active - 1 } }

abbrev pub count_completed : Store → Store
count_completed s = record s { gauges = record (s.gauges) { completed = suc s.gauges.completed } }

abbrev pub count_failed : Store → Store
count_failed s = record s { gauges = record (s.gauges) { failed = suc s.gauges.failed } }

-- `agent.last_run_at = tz.now()`
abbrev pub touch : ℕ → Store → Store
touch now s = record s { last_run_at = some now }

module _ (env : Env) (calls : Calls) (now : ℕ) where
  -- `get_pipeline`, and the `run` of what it returns
  unfoldable pub run_pipeline : Agent → Run (Unit {0})
  run_pipeline agent =
      if text_eq agent.type (codes "market_research")
      then run_research env agent
      else if text_eq agent.type (codes "job_discovery")
      then run_job_discovery env agent
      else raise (codes "Unknown agent type: " ++ agent.type)

  abbrev pub in_store : Store → World × Result Text (Unit {0}) → Store × Result Text (Unit {0})
  in_store s (world, result) = (record s { world = world }, result)

  -- What the `try` does once the pipeline has returned.
  abbrev pub after_pipeline : Call Report
  after_pipeline s =
      then_run (checked (calls.touch_raises true) (touch now) (count_completed s))
        (λ _ end. (end, ok (run_completed end.world.run.discovered_count end.world.run.sent_count)))

  -- The body of the `try`.
  abbrev pub attempt : Agent → Call Report
  attempt agent s = then_run (in_store s (run_pipeline agent s.world)) (λ _. after_pipeline)

  -- `run.save(update_fields=["status", …, "error_message"])`
  abbrev pub save_failure : Text → Store → Store
  save_failure exc s =
      set_run (record (s.world.run) { status = failed; error_message = take 2000 exc }) s

  -- `if telegram.is_available: telegram.send_error(…)`
  abbrev pub notify : Agent → Text → Store → Store
  notify agent exc s =
      if is_available env.telegram_config
      then record s {
        world = record (s.world) {
          posted =
              (send_error env.telegram_config env.answer (take 500 exc) agent.name
                s.world.posted).0;
        };
      }
      else s

  -- `except Exception as exc:`
  abbrev pub on_exception : Agent → Text → Call Report
  on_exception agent exc s =
      then_run (checked calls.failure_raises (save_failure exc) (count_failed s)) (λ _ s'.
        then_run (checked (calls.touch_raises false) (touch now) s')
          (λ _ s''. (notify agent exc s'', ok (run_failed (take 500 exc)))))

  -- `try … except … finally`
  abbrev pub guarded : Agent → Call Report
  guarded agent s = finally_do end_run (handled (attempt agent s) (on_exception agent))

  abbrev pub run_enabled : Agent → Call Report
  run_enabled agent = do
    checked calls.create_raises (λ s. begin_run (set_run new_run s))
    checked calls.config_raises (λ s. s)
    guarded agent

  -- `run_agent`, for what `Agent.objects.get` finds
  unfoldable pub run_agent : Option Agent → Call Report
  run_agent none s = (s, err (codes "Agent matching query does not exist."))
  run_agent (some agent) s = if agent.enabled then run_enabled agent s else (s, ok skipped)
