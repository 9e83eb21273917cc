-- ===== src/Pipelines/Tests.antt =====
-- An agent that wants two results, whose two sources have three items, of which one comes twice.
use ai_inference_gateway_pla.Base.{
  ℕ, ◌≡◌, refl, true, false, none, some, List, [], ◌∷◌, Text, codes, map, text_eq, if◌then◌else◌,
}
use ai_inference_gateway_pla.Dedup.{SourceItem, is_duplicate}
use ai_inference_gateway_pla.Telegram.{send_digest, send_trusted_markdown}
use ai_inference_gateway_pla.Ranking.{rank_batch}
use ai_inference_gateway_pla.Pipelines.{
  Agent, running, World, Fetched, raised, fetched, Env, create_all, job_ranking, research_ranking,
  run_job_discovery,
}
use ai_inference_gateway_pla.Pipelines.Selected.{IsSelection, rankings-IsSelection}

abbrev agent : Agent
agent = record {
  name = codes "a";
  type = codes "research";
  enabled = true;
  instructions = codes "i";
  search_query = codes "q";
  digest_frequency = codes "daily";
  sources = codes "x" ∷ codes "y" ∷ [];
  max_results = 2;
}

abbrev item_of : Text → SourceItem
item_of name = record { title = name; url = codes "u"; source = codes "x"; content = name }

abbrev items : List SourceItem
items = item_of (codes "one") ∷ item_of (codes "two") ∷ item_of (codes "three") ∷ []

abbrev fetch : Text → Text → ℕ → Fetched
fetch name query limit = if text_eq name (codes "x") then fetched items else raised

abbrev equal_cosines : List SourceItem → List ℕ
equal_cosines xs = map (λ x. 1100) xs

abbrev env : Env
env = record {
  digest = λ t. t;
  fetch = fetch;
  score_item = λ instructions item. (60, codes "fits");
  rank_raises = false;
  cosines = λ instructions xs. some (equal_cosines xs);
  summarize = λ item. some (codes "s");
  synthesize = λ xs. none;
  assemble_markdown = λ run results. some (codes "d");
  create_raises = λ i. none;
  save_raises = none;
  telegram_config = some (record { bot_token = codes "t"; chat_id = codes "7" });
  answer = λ earlier p. some 200;
}

abbrev start : World
start = record {
  run = record {
    status = running;
    tokens_used = 0;
    discovered_count = 0;
    sent_count = 0;
    summary = [];
    error_message = [];
  };
  results = [];
  posted = [];
}

-- The URL of all items is the same, so the deduplication leaves one.
one_job : (run_job_discovery env agent start).0.run.sent_count ≡ 1
unfolding run_job_discovery create_all job_ranking is_duplicate rank_batch send_digest
    send_trusted_markdown
one_job = refl

rankings-IsSelection_example :
    IsSelection env agent (job_ranking env agent items)
    × IsSelection env agent (research_ranking env agent items)
rankings-IsSelection_example = rankings-IsSelection env agent items
