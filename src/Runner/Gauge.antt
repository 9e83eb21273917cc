-- ===== src/Runner/Gauge.antt =====
-- The gauge of active runs.
use ai_inference_gateway_pla.Base.{
  ℕ, suc, ◌-◌, ◌≡◌, refl, ap, ◌∙◌, inl, inr, Bool, true, false, if◌then◌else◌, Bool-cases, Option,
  Option-cases, none, some, Text, arith,
}
use ai_inference_gateway_pla.Base.Result.{Result, err, ok}
use ai_inference_gateway_pla.Base.Effect.{then_run, then_run_keeps}
use ai_inference_gateway_pla.Telegram.{is_available}
use ai_inference_gateway_pla.Pipelines.{Agent, Env}
use ai_inference_gateway_pla.Runner.{
  Calls, Store, Report, skipped, Call, checked, handled, new_run, set_run, begin_run,
  count_completed, count_failed, touch, run_pipeline, in_store, after_pipeline, attempt,
  save_failure, notify, on_exception, guarded, run_agent,
}

-- As many runs are active.
abbrev IsActive : ℕ → Store → Type 0
IsActive n s = s.gauges.active ≡ n

checked_keeps :
    (n : ℕ) (raises : Option Text) (change : Store → Store) (s : Store)
    → IsActive n s
    → IsActive n (change s)
    → IsActive n (checked raises change s).0
checked_keeps n none change s h k = k
checked_keeps n (some exception) change s h k = h

handled_keeps :
    {A : Type 0} (n : ℕ) (r : Store × Result Text A) (handler : Text → Call A)
    → IsActive n r.0
    → ((exception : Text) (s : Store) → IsActive n s → IsActive n (handler exception s).0)
    → IsActive n (handled r handler).0
handled_keeps n (s, ok value) handler h keeps = h
handled_keeps n (s, err exception) handler h keeps = keeps exception s h

module _ (env : Env) (calls : Calls) (now : ℕ) where
  attempt_keeps :
      (n : ℕ) (agent : Agent) (s : Store)
      → IsActive n s
      → IsActive n (attempt env calls now agent s).0
  attempt_keeps n agent s h =
      then_run_keeps (IsActive n)
        (in_store env calls now s (run_pipeline env calls now agent s.world))
        (λ _. after_pipeline env calls now) h
        (λ _ s' h'.
          then_run_keeps (IsActive n)
            (checked (calls.touch_raises true) (touch now) (count_completed s')) _
            (checked_keeps n (calls.touch_raises true) (touch now) (count_completed s') h' h')
            (λ _ s'' h''. h''))

  notify_keeps :
      (n : ℕ) (agent : Agent) (exc : Text) (s : Store)
      → IsActive n s
      → IsActive n (notify env calls now agent exc s)
  notify_keeps n agent exc s h = elim (Bool-cases (is_available env.telegram_config)) [
    | inl e ↦ rw e h
    | inr e ↦ rw e h
  ]

  on_exception_keeps :
      (n : ℕ) (agent : Agent) (exc : Text) (s : Store)
      → IsActive n s
      → IsActive n (on_exception env calls now agent exc s).0
  on_exception_keeps n agent exc s h =
      then_run_keeps (IsActive n)
        (checked calls.failure_raises (save_failure env calls now exc) (count_failed s)) _
        (checked_keeps n calls.failure_raises (save_failure env calls now exc) (count_failed s) h h)
        (λ _ s' h'.
          then_run_keeps (IsActive n) (checked (calls.touch_raises false) (touch now) s') _
            (checked_keeps n (calls.touch_raises false) (touch now) s' h' h')
            (λ _ s'' h''. notify_keeps n agent exc s'' h''))

  guarded_ends :
      (n : ℕ) (agent : Agent) (s : Store)
      → IsActive (suc n) s
      → IsActive n (guarded env calls now agent s).0
  guarded_ends n agent s h =
      let k =
        handled_keeps (suc n) (attempt env calls now agent s) (on_exception env calls now agent)
          (attempt_keeps (suc n) agent s h) (on_exception_keeps (suc n) agent) in
      ap (λ m. m - 1) k ∙ omega arith

  -- The beginning of `run_agent`, for what it asks.
  abbrev begin_with : Bool → Option Text → Option Text → Agent → Call Report
  begin_with enabled create_raises config_raises agent s =
      if enabled
      then then_run (checked create_raises (λ s'. begin_run (set_run new_run s')) s) (λ _ s'.
        then_run (checked config_raises (λ s''. s'') s') (λ _. guarded env calls now agent))
      else (s, ok skipped)

  run_agent-begin_with :
      (agent : Agent) (s : Store) {enabled : Bool} {create_raises config_raises : Option Text}
      → agent.enabled ≡ enabled
      → calls.create_raises ≡ create_raises
      → calls.config_raises ≡ config_raises
      → run_agent env calls now (some agent) s
        ≡ begin_with enabled create_raises config_raises agent s
  unfolding run_agent
  run_agent-begin_with agent s e f g i = begin_with (e i) (f i) (g i) agent s

  -- A run of which neither the row's creation nor the configuration's query raises.
  pub run_agent-guarded :
      (agent : Agent) (s : Store)
      → agent.enabled ≡ true
      → calls.create_raises ≡ none
      → calls.config_raises ≡ none
      → run_agent env calls now (some agent) s
        ≡ guarded env calls now agent (begin_run (set_run new_run s))
  run_agent-guarded agent s e f g = run_agent-begin_with agent s e f g

  -- `agent_active_runs` when a call ends.
  abbrev active : Store × Result Text Report → ℕ
  active r = r.0.gauges.active

  -- Whatever the pipeline, the database and Telegram do, a run leaves the gauge of active runs as it
  -- was, provided that the query of the Telegram configuration does not raise.
  pub run_agent-active :
      (agent : Agent) (s : Store)
      → calls.config_raises ≡ none
      → (run_agent env calls now (some agent) s).0.gauges.active ≡ s.gauges.active
  run_agent-active agent s g = elim (Bool-cases agent.enabled) [
    | inr e ↦ ap active (run_agent-begin_with agent s e refl g)
    | inl e ↦ elim (Option-cases calls.create_raises) [
      | inr (exception, f) ↦ ap active (run_agent-begin_with agent s e f g)
      | inl f ↦
          ap active (run_agent-guarded agent s e f g)
          ∙ guarded_ends s.gauges.active agent (begin_run (set_run new_run s)) refl
    ]
  ]
