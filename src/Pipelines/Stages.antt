-- ===== src/Pipelines/Stages.antt =====
-- The tables of apps/agents/models.py, and the stages that the pipelines of
-- apps/agents/services/pipelines/job_discovery.py and research.py share: from the sources to the
-- items without duplicates, and from the results to the saved run.
use ai_inference_gateway_pla.Base.{
  ℕ, suc, Bool, true, false, Option, none, some, List, [], ◌∷◌, ◌++◌, Text, codes, length, text_eq,
  if◌then◌else◌,
}
use ai_inference_gateway_pla.Base.Result.{err, ok}
use ai_inference_gateway_pla.Base.Effect.{Effect, then_run}
use ai_inference_gateway_pla.Chunker.{is_empty}
use ai_inference_gateway_pla.Dedup.{SourceItem, SemanticDeduplicator, reset, is_duplicate}
use ai_inference_gateway_pla.Telegram.{TelegramConfig, Payload, send_digest}

pub record Agent : Type 0 where
  pub name : Text
  pub type : Text
  pub enabled : Bool
  pub instructions : Text
  pub search_query : Text
  pub digest_frequency : Text
  pub sources : List Text
  pub max_results : ℕ

pub data RunStatus : Type 0 where
  running : RunStatus
  completed : RunStatus
  failed : RunStatus
  timeout : RunStatus

pub record AgentRun : Type 0 where
  pub status : RunStatus
  pub tokens_used : ℕ
  pub discovered_count : ℕ
  pub sent_count : ℕ
  pub summary : Text
  pub error_message : Text

pub record AgentResult : Type 0 where
  pub title : Text
  pub url : Text
  pub source : Text
  pub content : Text
  pub summary : Text
  pub match_score : ℕ

-- The row of the run, the results of the agent, and what was posted to Telegram, the last in front.
pub record World : Type 0 where
  pub run : AgentRun
  pub results : List AgentResult
  pub posted : List Payload

-- What `get_source` and `fetch` do: a ValueError, another exception, or the items.
pub data Fetched : Type 0 where
  unknown_source : Fetched
  raised : Fetched
  fetched : List SourceItem → Fetched

pub record Env : Type 0 where
  pub digest : Text → Text
  pub fetch : Text → Text → ℕ → Fetched
  pub score_item : Text → SourceItem → ℕ × Text
  pub rank_raises : Bool
  pub cosines : Text → List SourceItem → Option (List ℕ)
  pub summarize : SourceItem → Option Text
  pub synthesize : List SourceItem → Option Text
  pub assemble_markdown : AgentRun → List AgentResult → Option Text
  pub create_raises : ℕ → Option Text
  pub save_raises : Option Text
  pub telegram_config : Option TelegramConfig
  pub answer : List Payload → Payload → Option ℕ

abbrev pub text_or : Text → Text → Text
text_or text other = if is_empty text then other else text

abbrev pub sources_or : List Text → List Text → List Text
sources_or [] other = other
sources_or (name ∷ names) other = name ∷ names

abbrev pub items_of : Fetched → List SourceItem
items_of unknown_source = []
items_of raised = []
items_of (fetched items) = items

abbrev pub never : Unit {0} → Unit {0} → Bool
never a b = false

abbrev pub Dedup : (Text → Text) → Type 0
Dedup digest = SemanticDeduplicator digest never

abbrev pub or_empty : Option Text → Text
or_empty none = []
or_empty (some text) = text

abbrev pub Run : Type 0 → Type 0
Run A = Effect World Text A

module _ (env : Env) where
  -- The loop over the sources.
  abbrev pub collect : Text → ℕ → List Text → List SourceItem
  collect query max_results [] = []
  collect query max_results (name ∷ names) =
      items_of (env.fetch name query max_results) ++ collect query max_results names

  abbrev pub new_item : Bool → SourceItem → List SourceItem → List SourceItem
  new_item true item items = items
  new_item false item items = item ∷ items

  -- The loop over the items, with the state of the deduplicator.
  abbrev pub dedupe : Dedup env.digest → List SourceItem → List SourceItem
  dedupe d [] = []
  dedupe d (item ∷ items) =
      let (duplicate, d') = is_duplicate env.digest never item d in
      new_item duplicate item (dedupe d' items)

  abbrev pub collected : Agent → List Text → List SourceItem
  collected agent defaults = dedupe (reset env.digest never) (
      collect (text_or agent.search_query agent.instructions) agent.max_results
        (sources_or agent.sources defaults))

  -- `AgentResult.objects.create` for each of them, from this number on
  abbrev pub create : ℕ → AgentResult → Run (Unit {0})
  create i result w = elim (env.create_raises i) [
    | none ↦ (record w { results = w.results ++ (result ∷ []) }, ok tt)
    | some exception ↦ (w, err exception)
  ]

  unfoldable pub create_all : ℕ → List AgentResult → Run (Unit {0})
  create_all i [] w = (w, ok tt)
  create_all i (result ∷ results) w = then_run (create i result w) (λ _. create_all (suc i) results)

  -- `send_digest` where there is a text and the agent wants it; the count of what was sent
  abbrev pub send_results : Agent → Text → ℕ → List Payload → List Payload × ℕ
  send_results agent text count posted =
      if is_empty text
      then (posted, 0)
      else if text_eq agent.digest_frequency (codes "disabled")
      then (posted, 0)
      else (let (posted', sent) = send_digest env.telegram_config env.answer text posted in
          (posted', if sent then count else 0))

  abbrev pub finished_run : AgentRun → Text → ℕ → ℕ → ℕ → AgentRun
  finished_run run summary discovered sent tokens = record run {
    status = completed;
    discovered_count = discovered;
    sent_count = sent;
    summary = summary;
    tokens_used = tokens;
  }

  -- `run.save()`
  abbrev pub save_run : AgentRun → Run (Unit {0})
  save_run run w = elim env.save_raises [
    | none ↦ (record w { run = run }, ok tt)
    | some exception ↦ (w, err exception)
  ]

  -- From the digest on. `seen` is the run as the digest sees it; the counts come later.
  abbrev pub publish : Agent → AgentRun → Text → ℕ → List AgentResult → Run (Unit {0})
  publish agent seen summary tokens new w =
      let (posted, sent) =
        send_results agent (or_empty (env.assemble_markdown seen new)) (length new) w.posted in
      save_run (finished_run seen summary (length new) sent tokens) (record w { posted = posted })
