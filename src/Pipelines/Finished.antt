-- ===== src/Pipelines/Finished.antt =====
-- What a pipeline leaves in the tables.
use mathlib.Core.List.{append-nil, append_assoc}
use ai_inference_gateway_pla.Base.{
  ℕ, suc, ◌≡◌, ◌⊎◌, refl, sym, ap, subst, ◌∙◌, inl, inr, Bool-cases, Option-cases, List, [], ◌∷◌,
  ◌++◌, Text, codes, length, text_eq,
}
use ai_inference_gateway_pla.Base.Result.{Result, err, ok}
use ai_inference_gateway_pla.Base.Effect.{then_run, then_run-eq-ok}
use ai_inference_gateway_pla.Chunker.{is_empty}
use ai_inference_gateway_pla.Telegram.{send_digest}
use ai_inference_gateway_pla.Pipelines.{
  Agent, AgentRun, AgentResult, completed, World, Env, Run, create, create_all, send_results,
  save_run, finished_run, publish, publish_jobs, publish_research, jobs_of, research_items,
  results_of, run_job_discovery, run_research, collected, job_defaults, or_empty,
}

-- The run is completed, it counts the results that were added, and it counts as sent all of them or
-- none.
pub record IsFinished (new : List AgentResult) (w end : World) : Type 0 where
  pub stored : end.results ≡ w.results ++ new
  pub status : end.run.status ≡ completed
  pub discovered : end.run.discovered_count ≡ length new
  pub sent : (end.run.sent_count ≡ 0) ⊎ (end.run.sent_count ≡ length new)

module _ (env : Env) where
  create-ok :
      (i : ℕ) (result : AgentResult) (w : World) {v : Unit {0}}
      → (create env i result w).1 ≡ ok v
      → (create env i result w).0 ≡ record w { results = w.results ++ (result ∷ []) }
  create-ok i result w {v} h = elim (Option-cases (env.create_raises i)) [
    | inl e ↦ rw (e, create) refl
    | inr (exception, e) ↦
        let never : ◌≡◌ {A = Result Text (Unit {0})} (err exception) (ok v) = rw (e, create) at h in
        cc
  ]

  create_all-ok :
      (i : ℕ) (new : List AgentResult) (w : World) {v : Unit {0}}
      → (create_all env i new w).1 ≡ ok v
      → (create_all env i new w).0 ≡ record w { results = w.results ++ new }
  unfolding create_all
  create_all-ok i [] w h = λ j. record w { results = sym (append-nil w.results) j }
  create_all-ok i (result ∷ new) w {v} h =
      let next : World = record w { results = w.results ++ (result ∷ []) } in
      let (_, e, h', q) =
        then_run-eq-ok (create env i result w) (λ _. create_all env (suc i) new) h in
      let step = create-ok i result w e in
      ap (λ (r : World × Result Text (Unit {0})). r.0) q
      ∙ ap (λ x. (create_all env (suc i) new x).0) step
      ∙ create_all-ok (suc i) new next
          (subst (λ x. (create_all env (suc i) new x).1 ≡ ok v) step h')
      ∙ (λ j. record w { results = append_assoc w.results (result ∷ []) new j })

  sent_count :
      (agent : Agent) (text : Text) (count : ℕ) (w : World)
      → ((send_results env agent text count w.posted).1 ≡ 0)
        ⊎ ((send_results env agent text count w.posted).1 ≡ count)
  sent_count agent text count w = elim (Bool-cases (is_empty text)) [
    | inl e ↦ rw e (inl refl)
    | inr e ↦ elim (Bool-cases (text_eq agent.digest_frequency (codes "disabled"))) [
      | inl f ↦ rw (e, f) (inl refl)
      | inr f ↦ elim (Bool-cases (send_digest env.telegram_config env.answer text w.posted).1) [
        | inl g ↦ rw (e, f, g) (inr refl)
        | inr g ↦ rw (e, f, g) (inl refl)
      ]
    ]
  ]

  save_run-ok :
      (run : AgentRun) (w : World) {v : Unit {0}}
      → (save_run env run w).1 ≡ ok v
      → (save_run env run w).0 ≡ record w { run = run }
  save_run-ok run w {v} h = elim (Option-cases env.save_raises) [
    | inl e ↦ rw e refl
    | inr (exception, e) ↦
        let never : ◌≡◌ {A = Result Text (Unit {0})} (err exception) (ok v) = rw e at h in cc
  ]

  publish-IsFinished :
      (agent : Agent) (seen : AgentRun) (summary : Text) (tokens : ℕ) (new : List AgentResult)
      (w start : World) {v : Unit {0}}
      → w.results ≡ start.results ++ new
      → (publish env agent seen summary tokens new w).1 ≡ ok v
      → IsFinished new start (publish env agent seen summary tokens new w).0
  publish-IsFinished agent seen summary tokens new w start {v} stored h =
      let text = or_empty (env.assemble_markdown seen new) in
      let r = send_results env agent text (length new) w.posted in
      let run = finished_run env seen summary (length new) r.1 tokens in
      subst (IsFinished new start) (sym (save_run-ok run (record w { posted = r.0 }) {v = v} h))
        (record {
          stored = stored;
          status = refl;
          discovered = refl;
          sent = sent_count agent text (length new) w;
        })

  pipeline-IsFinished :
      (new : List AgentResult) (rest : Run (Unit {0})) (w : World) {v : Unit {0}}
      → ((end : World)
          → end ≡ record w { results = w.results ++ new }
          → (rest end).1 ≡ ok v
          → IsFinished new w (rest end).0)
      → (then_run (create_all env 0 new w) (λ _. rest)).1 ≡ ok v
      → IsFinished new w (then_run (create_all env 0 new w) (λ _. rest)).0
  pipeline-IsFinished new rest w {v} finish h =
      let (_, e, h', q) = then_run-eq-ok (create_all env 0 new w) (λ _. rest) h in
      subst (λ (r : World × Result Text (Unit {0})). IsFinished new w r.0) (sym q)
        (finish (create_all env 0 new w).0 (create_all-ok 0 new w e) h')

  -- Each of the two pipelines finishes what it begins.
  pub pipelines-IsFinished :
      (agent : Agent) (w : World)
      → ((run_job_discovery env agent w).1 ≡ ok tt
          → IsFinished (jobs_of env agent) w (run_job_discovery env agent w).0)
        × ((run_research env agent w).1 ≡ ok tt
            → IsFinished (results_of env agent) w (run_research env agent w).0)
  unfolding run_job_discovery run_research
  pipelines-IsFinished agent w = (
    pipeline-IsFinished (jobs_of env agent)
        (publish_jobs env agent (length (collected env agent (job_defaults env)))
          (jobs_of env agent))
        w
        (λ end same.
          publish-IsFinished agent _ _ _ (jobs_of env agent) end w
            (ap (λ (x : World). x.results) same)),
    pipeline-IsFinished (results_of env agent)
        (publish_research env agent (research_items env agent) (results_of env agent)) w
        (λ end same.
          publish-IsFinished agent _ _ _ (results_of env agent) end w
            (ap (λ (x : World). x.results) same)),
  )
