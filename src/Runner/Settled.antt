-- ===== src/Runner/Settled.antt =====
-- How a run ends, and what is reported of it.
use ai_inference_gateway_pla.Base.{
  ℕ, ◌≡◌, ◌⊎◌, refl, sym, subst, inl, inr, Bool, true, false, Bool-cases, if◌then◌else◌, Option,
  none, some, List, ◌++◌, Text, codes, take, length, text_eq,
}
use ai_inference_gateway_pla.Base.Result.{Result, err, ok}
use ai_inference_gateway_pla.Base.Effect.{raise, then_run}
use ai_inference_gateway_pla.Telegram.{is_available}
use ai_inference_gateway_pla.Pipelines.{
  Agent, AgentResult, failed, World, Env, run_job_discovery, run_research, jobs_of, results_of,
}
use ai_inference_gateway_pla.Pipelines.Finished.{IsFinished, pipelines-IsFinished}
use ai_inference_gateway_pla.Runner.{
  Calls, Store, Report, run_completed, run_failed, Call, checked, handled, finally_do, new_run,
  set_run, begin_run, end_run, count_completed, count_failed, touch, run_pipeline, in_store,
  after_pipeline, save_failure, notify, on_exception, run_agent,
}
use ai_inference_gateway_pla.Runner.Gauge.{run_agent-guarded}

-- The row is failed and has the exception's text, which is reported; the results stay as they were.
pub record IsFailed (exc : Text) (before : World) (end : Store × Result Text Report) : Type 0 where
  pub status : end.0.world.run.status ≡ failed
  pub message : end.0.world.run.error_message ≡ take 2000 exc
  pub kept : end.0.world.results ≡ before.results
  pub reported : end.1 ≡ ok (run_failed (take 500 exc))

-- The results are stored, the row is completed, and their number is reported.
pub record IsCompleted (before : World) (end : Store × Result Text Report) : Type 0 where
  pub new : List AgentResult
  pub finished : IsFinished new before end.0.world
  pub reported : end.1 ≡ ok (run_completed (length new) end.0.world.run.sent_count)

module _ (env : Env) (calls : Calls) (now : ℕ) where
  -- The world in which the pipeline starts.
  abbrev pub fresh : Store → World
  fresh s = (begin_run (set_run new_run s)).world

  -- A run is completed if neither the pipeline nor, behind it, the saving of `last_run_at` raises;
  -- it has failed with the exception of the one that does.
  abbrev pub IsReported : Agent → World → Store × Result Text Report → Type 0
  IsReported agent w end =
      let r = run_pipeline env calls now agent w in
      ((r.1 ≡ ok tt) × (calls.touch_raises true ≡ none) × IsCompleted w end)
      ⊎ ((exc : Text) × ((r.1 ≡ err exc) ⊎ ((r.1 ≡ ok tt) × (calls.touch_raises true ≡ some exc)))
          × IsFailed exc r.0 end)

  -- The pipeline that a type chooses.
  at_type :
      (agent : Agent) (w : World) (research jobs : Bool)
      → ((if research
            then run_research env agent
            else if jobs
            then run_job_discovery env agent
            else raise (codes "Unknown agent type: " ++ agent.type))
          w).1
        ≡ ok tt
      → (new : List AgentResult) × IsFinished new w
          ((if research
              then run_research env agent
              else if jobs
              then run_job_discovery env agent
              else raise (codes "Unknown agent type: " ++ agent.type))
            w).0
  at_type agent w true jobs h = (results_of env agent, (pipelines-IsFinished env agent w).1 h)
  at_type agent w false true h = (jobs_of env agent, (pipelines-IsFinished env agent w).0 h)
  at_type agent w false false h = cc

  -- A pipeline that raises nothing, of either type, stores its results behind the earlier ones,
  -- completes its run and counts in it what it stored; as sent it counts all of its results or none.
  pub run_pipeline-IsFinished :
      (agent : Agent) (w : World)
      → (run_pipeline env calls now agent w).1 ≡ ok tt
      → (new : List AgentResult) × IsFinished new w (run_pipeline env calls now agent w).0
  unfolding run_pipeline
  run_pipeline-IsFinished agent w =
      at_type agent w (text_eq agent.type (codes "market_research"))
        (text_eq agent.type (codes "job_discovery"))

  notify-IsFailed :
      (agent : Agent) (exc : Text) (before : World) (s : Store)
      → s.world.run.status ≡ failed
      → s.world.run.error_message ≡ take 2000 exc
      → s.world.results ≡ before.results
      → IsFailed exc before (notify env calls now agent exc s, ok (run_failed (take 500 exc)))
  notify-IsFailed agent exc before s a b c = elim (Bool-cases (is_available env.telegram_config)) [
    | inl e ↦ rw e record { status = a; message = b; kept = c; reported = refl }
    | inr e ↦ rw e record { status = a; message = b; kept = c; reported = refl }
  ]

  -- `on_exception`, for what its two savings do.
  abbrev exception_with : Option Text → Option Text → Agent → Text → Call Report
  exception_with failure_raises touch_raises agent exc s =
      then_run (checked failure_raises (save_failure env calls now exc) (count_failed s)) (λ _ s'.
        then_run (checked touch_raises (touch now) s')
          (λ _ s''. (notify env calls now agent exc s'', ok (run_failed (take 500 exc)))))

  on_exception-IsFailed :
      (agent : Agent) (exc : Text) (s : Store)
      → calls.failure_raises ≡ none
      → calls.touch_raises false ≡ none
      → IsFailed exc s.world (finally_do end_run (on_exception env calls now agent exc s))
  on_exception-IsFailed agent exc s e f =
      let p : on_exception env calls now agent exc s ≡ exception_with none none agent exc s =
        λ i. exception_with (e i) (f i) agent exc s in
      let h =
        notify-IsFailed agent exc s.world
          (touch now (save_failure env calls now exc (count_failed s))) refl refl refl in
      subst (λ r. IsFailed exc s.world (finally_do end_run r)) (sym p)
        record { status = h.status; message = h.message; kept = h.kept; reported = h.reported }

  -- `after_pipeline`, for what its saving does.
  abbrev after_with : Option Text → Call Report
  after_with touch_raises s =
      then_run (checked touch_raises (touch now) (count_completed s))
        (λ _ end. (end, ok (run_completed end.world.run.discovered_count end.world.run.sent_count)))

  settled :
      (agent : Agent) (s : Store) (r : World × Result Text (Unit {0})) (touch_raises : Option Text)
      → calls.failure_raises ≡ none
      → calls.touch_raises false ≡ none
      → calls.touch_raises true ≡ touch_raises
      → (r.1 ≡ ok tt → (new : List AgentResult) × IsFinished new s.world r.0)
      → (let end = finally_do end_run (
            handled
              (then_run (in_store env calls now s r) (λ _. after_pipeline env calls now))
              (on_exception env calls now agent)) in
          ((r.1 ≡ ok tt) × (calls.touch_raises true ≡ none) × IsCompleted s.world end)
          ⊎ ((exc : Text) × ((r.1 ≡ err exc)
                ⊎ ((r.1 ≡ ok tt) × (calls.touch_raises true ≡ some exc)))
              × IsFailed exc r.0 end))
  settled agent s (world, err exc) touch_raises e f g finish =
      inr (exc, inl refl, on_exception-IsFailed agent exc (record s { world = world }) e f)
  settled agent s (world, ok v) none e f g finish =
      let (new, finished) = finish refl in
      let s' : Store = record s { world = world } in
      let p : after_pipeline env calls now s' ≡ after_with none s' = λ i. after_with (g i) s' in
      inl (
        refl,
        g,
        subst
            (λ a.
              IsCompleted s.world
                (finally_do end_run (handled a (on_exception env calls now agent))))
            (sym p)
            record {
              new = new;
              finished = finished;
              reported = λ i. ok (run_completed (finished.discovered i) world.run.sent_count);
            },
      )
  settled agent s (world, ok v) (some exc) e f g finish =
      let s' : Store = record s { world = world } in
      let p : after_pipeline env calls now s' ≡ after_with (some exc) s' =
        λ i. after_with (g i) s' in
      inr (
        exc,
        inr (refl, g),
        subst
            (λ a.
              IsFailed exc world
                (finally_do end_run (handled a (on_exception env calls now agent))))
            (sym p) (on_exception-IsFailed agent exc (count_completed s') e f),
      )

  -- A run of an enabled agent, whose row can be created and saved and for which the Telegram
  -- configuration is read, is reported as it was. Where neither the pipeline nor
  -- the saving of `last_run_at` behind it raised, the results are stored behind the earlier ones, the row is completed, and both counts of the report are the
  -- row's. Where the pipeline raised, or after it the saving of `last_run_at`, the row is failed with
  -- the text of the exception, which is reported, and the results that the pipeline stored stay.
  pub run_agent-IsReported :
      (agent : Agent) (s : Store)
      → agent.enabled ≡ true
      → calls.create_raises ≡ none
      → calls.config_raises ≡ none
      → calls.failure_raises ≡ none
      → calls.touch_raises false ≡ none
      → IsReported agent (fresh s) (run_agent env calls now (some agent) s)
  run_agent-IsReported agent s e f g failure touched =
      subst (IsReported agent (fresh s)) (sym (run_agent-guarded env calls now agent s e f g)) (
        settled agent (begin_run (set_run new_run s)) (run_pipeline env calls now agent (fresh s))
          (calls.touch_raises true) failure touched refl (run_pipeline-IsFinished agent (fresh s)))
