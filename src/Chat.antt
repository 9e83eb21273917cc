-- ===== src/Chat.antt =====
-- `chat_completions` of deploy/gateway/gateway/main.py with its `event_stream`, as the effects that
-- one request has, in their order. What the other parts and the upstream answer is the environment
-- of the request. The number of completion tokens that a whole answer reports is a parameter; the
-- texts of logs and the metrics other than those named here are left out.
use ai_inference_gateway_pla.Base.{
  ℕ, ◌+◌, ◌/◌, ◌≡◌, Bool, true, false, ◌&&◌, Option, none, some, List, [], ◌∷◌, ◌++◌, map, max,
  Text, String, codes, leb, ltb, ◌==◌, not, if◌then◌else◌, length,
}
use ai_inference_gateway_pla.Base.Result.{Result, ok, err}
use ai_inference_gateway_pla.Routing.Value.{
  Json, null, boolean, number, text, array, object, Items, no_items, item, Fields, no_fields, field,
  field_of,
}
use ai_inference_gateway_pla.Chat.Prompt.{is_stream, rough_prompt_stats}
use ai_inference_gateway_pla.Routing.{Settings, TypeError, resolve_backend}
pub mod Prompt
pub mod Balance
pub mod Logged
mod Tests

pub data ErrorKind : Type 0 where
  no_error upstream_http client_disconnected upstream_timeout upstream_unavailable : ErrorKind

-- The row that `_persist_log` writes where it writes one.
pub record LogRow : Type 0 where
  pub stream : Bool
  pub status_code : ℕ
  pub completion_tokens : ℕ
  pub error_kind : ErrorKind
  pub prompt_chars : ℕ
  pub prompt_tok_est : ℕ

-- The slot that is taken and given back, the gauges of active requests and open streams, the
-- counter of requests by status, what is sent to the client, and the two tasks that are created.
pub data Effect : Type 0 where
  acquires releases : Effect
  begins ends : Effect
  opens_stream closes_stream : Effect
  counts : ℕ → Effect
  sends : Text → Effect
  touches_key : Effect
  persists : LogRow → Effect

-- How the body of `event_stream` ends. `other` is any other exception, that of a closed generator
-- included.
pub data StreamEnd : Type 0 where
  completed read_timeout request_error cancelled other : StreamEnd

-- A piece of a stream, with the characters of content that are found in it.
pub record Chunk : Type 0 where
  pub bytes : Text
  pub content_chars : ℕ

-- No response; or a status with what follows it: the error body, if it can be read, or the chunks.
pub data StreamAnswer : Type 0 where
  no_response : StreamEnd → StreamAnswer
  response : ℕ → Option Text → List Chunk → StreamEnd → StreamAnswer

pub data Answer : Type 0 where
  answered : ℕ → Text → Answer
  timed_out unavailable raised : Answer

-- The setting, and whether the database takes the row.
pub record Logging : Type 0 where
  pub gateway_persist_logs : Bool
  pub insert_returns : Bool

-- What the parts around the handler answer.
pub record Env : Type 0 where
  pub payload : Json
  pub headers : List (Text × Text)
  pub settings : Settings
  pub within_limit : Bool
  pub has_slot : Bool
  pub passes_barrier : Bool
  pub starts_stream : Bool
  pub stream_answer : StreamAnswer
  pub answer : Answer
  pub logging : Logging

-- How the call ends for the server: an `HTTPException`, another exception, a whole response, or a
-- stream.
pub data Reply : Type 0 where
  http_exception : ℕ → Reply
  exception : Reply
  whole : ℕ → Text → Reply
  streaming : Reply

-- Where the body of `event_stream` stands at its end: what it has sent, `status`, `err` and
-- `content_chars`.
pub record StreamState : Type 0 where
  pub sent : List Text
  pub status : ℕ
  pub error : ErrorKind
  pub content_chars : ℕ

abbrev pub timed_out_event : Text
timed_out_event =
    codes "data: {\"error\": {\"message\": \"Upstream timed out\", \"type\": \"api_error\"}}\n\n"

abbrev pub unavailable_event : Text
unavailable_event =
    codes "data: {\"error\": {\"message\": \"Upstream unavailable\", \"type\": \"api_error\"}}\n\n"

-- The `except` branches.
abbrev pub finish : StreamEnd → StreamState → StreamState
finish completed s = s
finish read_timeout s = record s {
  sent = s.sent ++ (timed_out_event ∷ []);
  status = 504;
  error = upstream_timeout;
}
finish request_error s = record s {
  sent = s.sent ++ (unavailable_event ∷ []);
  status = 502;
  error = upstream_unavailable;
}
finish cancelled s = record s { status = 499; error = client_disconnected }
finish other s = s

abbrev sum_content : List Chunk → ℕ
sum_content [] = 0
sum_content (c ∷ cs) = c.content_chars + sum_content cs

abbrev pub begun : StreamState
begun = record { sent = []; status = 200; error = no_error; content_chars = 0 }

abbrev error_response : ℕ → Option Text → StreamEnd → StreamState
error_response status none end =
    finish end (record begun { status = status; error = upstream_http })
error_response status (some body) end = record begun {
  sent = (codes "data: " ++ (body ++ codes "\n\n")) ∷ [];
  status = status;
  error = upstream_http;
}

-- The `try` block of `event_stream`.
unfoldable pub stream_body : StreamAnswer → StreamState
stream_body (no_response end) = finish end begun
stream_body (response status error_body chunks end) =
    if leb 400 status
    then error_response status error_body end
    else finish end (record begun {
      sent = map (λ (c : Chunk). c.bytes) chunks;
      content_chars = sum_content chunks;
    })

abbrev pub stream_row : ℕ × ℕ → StreamState → LogRow
stream_row stats s = record {
  stream = true;
  status_code = s.status;
  completion_tokens = s.content_chars / 4;
  error_kind = s.error;
  prompt_chars = stats.0;
  prompt_tok_est = stats.1;
}

abbrev pub persist_if : Bool → Bool → LogRow → List Effect
persist_if false returns row = []
persist_if true false row = []
persist_if true true row = persists row ∷ []

-- `_persist_log`; an exception of the database is only logged.
abbrev pub persist_log : Logging → LogRow → List Effect
persist_log l row = persist_if l.gateway_persist_logs l.insert_returns row

-- `event_stream` from its first step to its end; the last effect is that of the inner `finally`.
unfoldable pub event_stream : Logging → ℕ × ℕ → StreamAnswer → List Effect
unfolding stream_body
event_stream l stats answer =
    let s = stream_body answer in
    begins
    ∷ opens_stream
    ∷ (map sends s.sent
        ++ (closes_stream
            ∷ ends
            ∷ counts s.status
            ∷ touches_key
            ∷ (persist_log l (stream_row stats s) ++ (releases ∷ []))))

module _ (tokens_of : ℕ → Text → ℕ) where
  -- `status`, `err`, `out` and `ctok_final` of a whole answer.
  abbrev pub whole_result : Answer → Option (ℕ × ErrorKind × Text × ℕ)
  whole_result (answered status out) =
      some (status, (if leb 400 status then upstream_http else no_error), out, tokens_of status out)
  whole_result timed_out = some (
    504,
    upstream_timeout,
    codes "{\"error\": {\"message\": \"Upstream timed out\", \"type\": \"api_error\"}}",
    0,
  )
  whole_result unavailable = some (
    502,
    upstream_unavailable,
    codes "{\"error\": {\"message\": \"Upstream unavailable\", \"type\": \"api_error\"}}",
    0,
  )
  whole_result raised = none

  abbrev pub whole_row : ℕ × ℕ → ℕ → ErrorKind → ℕ → LogRow
  whole_row stats status error tokens = record {
    stream = false;
    status_code = status;
    completion_tokens = tokens;
    error_kind = error;
    prompt_chars = stats.0;
    prompt_tok_est = stats.1;
  }

  abbrev whole_end : Logging → ℕ × ℕ → Option (ℕ × ErrorKind × Text × ℕ) → Reply × List Effect
  whole_end l stats none = (exception, releases ∷ [])
  whole_end l stats (some (status, error, out, tokens)) = (
    whole status out,
    ends
        ∷ counts status
        ∷ touches_key
        ∷ (persist_log l (whole_row stats status error tokens) ++ (releases ∷ [])),
  )

  abbrev then_effects : List Effect → Reply × List Effect → Reply × List Effect
  then_effects es (r, fs) = (r, es ++ fs)

  -- The part behind the barrier, for a stream and for a whole answer.
  abbrev dispatch : Env → Reply × List Effect
  dispatch e =
      let stats = rough_prompt_stats e.payload in
      if is_stream e.payload
      then (streaming, if e.starts_stream then event_stream e.logging stats e.stream_answer else [])
      else then_effects (begins ∷ []) (whole_end e.logging stats (whole_result e.answer))

  -- From the concurrency slot on.
  abbrev with_slot : Env → Reply × List Effect
  with_slot e =
      if e.has_slot
      then then_effects (acquires ∷ []) (if e.passes_barrier then dispatch e else (exception, []))
      else (http_exception 503, counts 503 ∷ [])

  abbrev routed : Env → Result TypeError Text → Reply × List Effect
  routed e (err _) = (exception, [])
  routed e (ok _) = with_slot e

  unfoldable pub chat_completions : Env → Reply × List Effect
  unfolding rough_prompt_stats event_stream
  chat_completions e =
      if e.within_limit
      then routed e (resolve_backend e.payload e.headers e.settings)
      else (http_exception 429, counts 429 ∷ [])
