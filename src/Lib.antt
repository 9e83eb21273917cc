-- ===== src/Lib.antt =====
-- AI inference gateway platform: a model of the program's core, with its theorems.
--
-- The core of the program is two Python services in front of language-model servers. Django (apps/) serves the
-- session and the API-key endpoints; a FastAPI gateway (deploy/gateway/) serves the API-key endpoint
-- in production. Both authenticate a request by an API key of one table, count it against a limit per
-- minute, and take a slot of a concurrency limiter; the gateway then holds the request at a barrier
-- that dispatches requests in batches, and sends it to the backend that its router chooses. Two Django
-- applications stand beside this: RAG (apps/rag/) cuts documents into chunks, stores them with their
-- embeddings, and puts what a search finds before a question; the agents (apps/agents/) collect items
-- from sources, drop duplicates, rank the rest, store the results, and post a digest to Telegram.
--
-- Which file models what:
--   Base, Base/          Booleans, lists, texts (a Python str is its list of code points), results, and
--                        calls that change a state and may raise (Base/Effect).
--   ApiKeys/Parsing      apps/api_keys/parsing.py, format_raw_api_key of apps/api_keys/crypto.py,
--                        parse_api_key of deploy/gateway/gateway/crypto_auth.py.
--   ApiKeys/Model        apps/api_keys/models.py, the digests of apps/api_keys/crypto.py.
--   ApiKeys/Auth         apps/api_keys/services/auth.py, verify_bearer_token of crypto_auth.py,
--                        require_api_key of deploy/gateway/gateway/main.py.
--   ApiKeys/Lifecycle    apps/api_keys/services/keys.py and audit.py, bump_api_key_usage of
--                        apps/inference/services/usage.py, touch_api_key_used of crypto_auth.py.
--   Limits/Django        consume_rate_limit of apps/api_keys/services/limits.py.
--   Limits/Gateway       consume_rate_limit of deploy/gateway/gateway/limits.py.
--   Limits/Quota         the daily quotas of apps/api_keys/services/limits.py.
--   Slots                deploy/gateway/gateway/concurrency.py and
--                        apps/inference/services/concurrency.py.
--   Batches              deploy/gateway/gateway/batcher.py, _on_batch_flush of main.py.
--   Routing              deploy/gateway/gateway/backend_router.py, the rewriting of the payload in
--                        chat_completions of main.py.
--   Chat                 chat_completions and event_stream of deploy/gateway/gateway/main.py.
--   Completion           ChatCompletionService.handle of
--                        apps/inference/services/chat_completion.py, prompt_stats.py, schemas.py.
--   Sse                  _SseTokenCounter of apps/inference/services/chat_completion.py.
--   Chunker              apps/rag/services/chunker.py.
--   VectorStore          apps/rag/services/vector_store.py.
--   Documents            apps/rag/services/document_processor.py, extract_text of
--                        apps/rag/services/pdf_parser.py, apps/rag/models.py.
--   RagCompletion        apps/rag/services/rag_completion.py.
--   Dedup                apps/agents/services/dedup/service.py.
--   Ranking              apps/agents/services/ranking/service.py.
--   Telegram             apps/agents/services/telegram/service.py.
--   Pipelines            apps/agents/services/pipelines/job_discovery.py (Jobs) and research.py (Research),
--                        their common stages (Stages), the tables of apps/agents/models.py.
--   AgentViews           post of AgentCreateView of apps/agents/views.py.
--   Runner               apps/agents/services/runner.py, get_pipeline of
--                        apps/agents/services/pipelines/__init__.py.
-- Each component's lemmas are in its children; its concrete runs are in its Tests.
--
-- State and interleaving. The tables are lists of rows and the operations are functions on them. A
-- cache and a Redis server are records of operations and laws (Limits/Cache), of which Limits/Toy is an
-- instance. What a task of an asyncio loop does between two awaits is one function; a schedule is a
-- derivation of a step relation (Slots/Reach, Batches/Reach), so the theorems about it hold for every
-- order of arrivals, releases, time-outs and cancellations. A request handler is the list of its effects
-- for every answer of the parts around it.
--
-- Numbers. A time is a number of microseconds, an interval a number of seconds, a primary key a natural
-- number. The counters of the source are Python integers, which do not wrap. The limits of a minute and
-- of a day are fields that the database keeps from being negative. The one bounded loop, the five
-- draws of a public id, is a recursion on the draws that are left. The loop of the token counter has as
-- many rounds as its buffer has characters, and each takes two at least. The batches of a list have as
-- many rounds as the list has items, and each takes one at least; the digits of a number have one round
-- more than the number, and each divides it by ten. The loop over the slugs has one round more than there
-- are agents, which is enough since its candidates are different.
--
-- Parameters. HMAC-SHA256 is a function of a key and a message, of which nothing is assumed; random
-- texts, new primary keys and the present time are arguments. A collection of the Chroma server is a
-- record of operations, with named laws and a toy instance (VectorStore/Toy); the model of the
-- embeddings, the upstream of a stream, the sources and the language model are functions; the Bot API
-- answers a post as a function of all posts before it. A call that may raise has an argument that says
-- whether it does. JSON's reader is a parameter of the token counter, UTF-8's decoder is written out
-- (Sse/Utf8). A score is a number of hundredths, a cosine a number of thousandths from -1 on.
-- asyncio.Semaphore is modelled as Python 3.12 has it (Slots/Semaphore).
--
-- Not modelled: metrics, logs and durations other than the counters named above; in the agents the
-- sources, the language model and its prompts, the digest's template, the scheduler and the other views; in
-- RAG the views, the extraction of a PDF's text and the model of the embeddings; the other views, the
-- redaction of logs, the migrations, the settings' parsing, and the clients of third-party services.
pub mod Base
pub mod AgentViews
pub mod ApiKeys
pub mod Batches
pub mod Chat
pub mod Chunker
pub mod Completion
pub mod Dedup
pub mod Documents
pub mod Limits
pub mod Pipelines
pub mod RagCompletion
pub mod Ranking
pub mod Routing
pub mod Runner
pub mod Slots
pub mod Sse
pub mod Telegram
pub mod VectorStore
