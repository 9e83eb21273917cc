-- ===== src/Completion.antt =====
-- `ChatCompletionService.handle` of apps/inference/services/chat_completion.py with its
-- `_handle_nonstreaming` and `_stream_sse`, prompt_stats.py, and the defaults of schemas.py, as the
-- effects that one request has, in their order. What validation, the limits and the upstream answer
-- is the environment of the request. The temperature and `top_p`, which are floats, the texts of
-- logs, and the metrics other than the gauge of active requests are left out.
use ai_inference_gateway_pla.Base.{
  ℕ, ◌+◌, ◌/◌, ◌≡◌, Bool, true, false, ◌||◌, ◌&&◌, Option, none, some, List, [], ◌∷◌, ◌++◌, map,
  max, min, Text, codes, leb, ltb, ◌==◌, not, text_eq, if◌then◌else◌, length,
}
use ai_inference_gateway_pla.ApiKeys.Model.{or_else}
use ai_inference_gateway_pla.Completion.Request.{
  ChatCompletionRequest, prompt_char_length, rough_token_estimate_from_chars,
}
use ai_inference_gateway_pla.Limits.Quota.{
  QuotaResult, allowed, daily_request_limit_exceeded, daily_token_limit_exceeded,
}
pub mod Request
pub mod Balance
pub mod Logged
pub mod Choice
mod Tests

pub data Validation : Type 0 where
  malformed_json invalid : Validation
  valid : ChatCompletionRequest → Validation

pub data ErrorKind : Type 0 where
  no_error empty_body malformed validation_error prompt_too_long rate_limited : ErrorKind
  quota_exceeded : QuotaResult → ErrorKind
  overloaded upstream_timeout upstream_unavailable upstream_http client_disconnected : ErrorKind

-- What `persist_inference_request_log` writes.
pub record LogRow : Type 0 where
  pub stream : Bool
  pub status_code : ℕ
  pub model : Text
  pub prompt_chars : ℕ
  pub prompt_tok_est : ℕ
  pub completion_tokens : ℕ
  pub error_kind : ErrorKind

-- The slot, the gauge of active requests, what a stream sends, the log row, and the two hooks of a
-- success: `record_user_quota_success` and `bump_api_key_usage`, with prompt and completion tokens.
pub data Effect : Type 0 where
  acquires releases : Effect
  begins ends : Effect
  sends : Text → Effect
  persists : LogRow → Effect
  records_quota bumps_usage : ℕ → ℕ → Effect

-- What the backend's call gives: a body with the tokens that are read of it (completion, and prompt
-- if its usage has them), or what it raises.
pub data Answer : Type 0 where
  answered : Text → ℕ → Option ℕ → Answer
  timed_out unavailable raised : Answer
  http_error : ℕ → Text → Answer

pub data StreamEnd : Type 0 where
  completed cancelled timeout unreachable other : StreamEnd
  refused : Text → StreamEnd

pub record Env : Type 0 where
  pub has_body : Bool
  pub validation : Validation
  pub max_prompt_chars : ℕ
  pub has_api_key : Bool
  pub within_rate : Bool
  pub quota : QuotaResult
  pub has_slot : Bool
  pub starts_stream : Bool
  pub chunks : List Text
  pub stream_end : StreamEnd
  pub answer : Answer

pub data Reply : Type 0 where
  responds : ℕ → Reply
  streams exception : Reply

abbrev pub failure : ℕ → LogRow → Reply × List Effect
failure status row = (responds status, persists row ∷ [])

-- `_log_failure` of a request that was not read, with `model or "unknown"`.
abbrev pub unread_row : ErrorKind → LogRow
unread_row kind = record {
  stream = false;
  status_code = 400;
  model = codes "unknown";
  prompt_chars = 0;
  prompt_tok_est = 0;
  completion_tokens = 0;
  error_kind = kind;
}

abbrev pub row_of : ChatCompletionRequest → Bool → ℕ → ℕ → ℕ → ErrorKind → LogRow
row_of req stream status prompt_tok_est completion_tokens kind = record {
  stream = stream;
  status_code = status;
  model = req.model;
  prompt_chars = prompt_char_length req.messages;
  prompt_tok_est = prompt_tok_est;
  completion_tokens = completion_tokens;
  error_kind = kind;
}

abbrev pub failed_row : ChatCompletionRequest → ℕ → ErrorKind → LogRow
failed_row req status kind =
    row_of req req.stream status (rough_token_estimate_from_chars (prompt_char_length req.messages))
      0 kind

-- `_post_success_hooks`
abbrev pub post_success_hooks : Bool → ℕ → ℕ → List Effect
post_success_hooks has_api_key ptok_est completion_tokens =
    records_quota ptok_est completion_tokens
    ∷ (if has_api_key then bumps_usage ptok_est completion_tokens ∷ [] else [])

abbrev pub prompt_tokens_or : Option ℕ → ℕ → ℕ
prompt_tokens_or none est = est
prompt_tokens_or (some n) est = if n == 0 then est else n

abbrev after_answer : Env → ChatCompletionRequest → ℕ → Answer → Reply × List Effect
after_answer e req est (answered body tokens prompt_usage) =
    let ptok = prompt_tokens_or prompt_usage est in
    (
      responds 200,
      persists (row_of req false 200 ptok tokens no_error)
          ∷ (post_success_hooks e.has_api_key ptok tokens ++ (ends ∷ releases ∷ [])),
    )
after_answer e req est timed_out =
    (responds 504, persists (row_of req false 504 est 0 upstream_timeout) ∷ ends ∷ releases ∷ [])
after_answer e req est unavailable = (
  responds 502,
  persists (row_of req false 502 est 0 upstream_unavailable) ∷ ends ∷ releases ∷ [],
)
after_answer e req est (http_error status body) =
    (responds status, persists (row_of req false status est 0 upstream_http) ∷ ends ∷ releases ∷ [])
after_answer e req est raised = (exception, ends ∷ releases ∷ [])

-- `_handle_nonstreaming`
unfoldable pub handle_nonstreaming : Env → ChatCompletionRequest → ℕ → Reply × List Effect
handle_nonstreaming e req ptok_est = after_answer e req ptok_est e.answer

-- What a stream sends at last, and its `error_kind`. The status of its row stays 200.
abbrev pub last_sent : (Text → Text) → StreamEnd → List Text
last_sent wrap completed = []
last_sent wrap cancelled = []
last_sent wrap other = []
last_sent wrap timeout = wrap (codes "Upstream inference timed out") ∷ []
last_sent wrap unreachable = wrap (codes "Upstream inference unavailable") ∷ []
last_sent wrap (refused body) = wrap body ∷ []

abbrev pub stream_error : StreamEnd → ErrorKind
stream_error completed = no_error
stream_error other = no_error
stream_error cancelled = client_disconnected
stream_error timeout = upstream_timeout
stream_error unreachable = upstream_unavailable
stream_error (refused body) = upstream_http

abbrev pub is_success : ErrorKind → Bool
is_success no_error = true
is_success empty_body = false
is_success malformed = false
is_success validation_error = false
is_success prompt_too_long = false
is_success rate_limited = false
is_success (quota_exceeded _) = false
is_success overloaded = false
is_success upstream_timeout = false
is_success upstream_unavailable = false
is_success upstream_http = false
is_success client_disconnected = false

-- `wrap` is the event that an error is sent as; `estimate` is the SSE counter's number of tokens.
module _ (wrap : Text → Text) (estimate : List Text → ℕ) where
  -- `_stream_sse` from its first step to its end
  unfoldable pub stream_sse : Env → ChatCompletionRequest → ℕ → List Effect
  stream_sse e req ptok_est =
      let kind = stream_error e.stream_end in
      let tokens = estimate e.chunks in
      map sends (e.chunks ++ last_sent wrap e.stream_end)
      ++ (ends
          ∷ releases
          ∷ persists (row_of req true 200 ptok_est tokens kind)
          ∷ (if is_success kind then post_success_hooks e.has_api_key ptok_est tokens else []))

  abbrev pub cons_effects : List Effect → Reply × List Effect → Reply × List Effect
  cons_effects es (r, fs) = (r, es ++ fs)

  -- From the slot on
  abbrev pub dispatch : Env → ChatCompletionRequest → ℕ → Reply × List Effect
  dispatch e req ptok_est =
      if req.stream
      then (streams, if e.starts_stream then stream_sse e req ptok_est else [])
      else handle_nonstreaming e req ptok_est

  abbrev pub with_slot : Env → ChatCompletionRequest → ℕ → Reply × List Effect
  with_slot e req ptok_est =
      if e.has_slot
      then cons_effects (acquires ∷ begins ∷ []) (dispatch e req ptok_est)
      else failure 503 (row_of req false 503 ptok_est 0 overloaded)

  abbrev pub with_quota : Env → ChatCompletionRequest → ℕ → QuotaResult → Reply × List Effect
  with_quota e req ptok_est allowed = with_slot e req ptok_est
  with_quota e req ptok_est daily_request_limit_exceeded =
      failure 429 (failed_row req 429 (quota_exceeded daily_request_limit_exceeded))
  with_quota e req ptok_est daily_token_limit_exceeded =
      failure 429 (failed_row req 429 (quota_exceeded daily_token_limit_exceeded))

  abbrev pub with_request : Env → ChatCompletionRequest → Reply × List Effect
  with_request e req =
      let pchars = prompt_char_length req.messages in
      let ptok_est = rough_token_estimate_from_chars pchars in
      if ltb e.max_prompt_chars pchars
      then failure 413 (failed_row req 413 prompt_too_long)
      else if e.has_api_key && not e.within_rate
      then failure 429 (failed_row req 429 rate_limited)
      else with_quota e req ptok_est e.quota

  abbrev pub validated : Env → Validation → Reply × List Effect
  validated e malformed_json = failure 400 (unread_row malformed)
  validated e invalid = failure 400 (unread_row validation_error)
  validated e (valid req) = with_request e req

  unfoldable pub handle : Env → Reply × List Effect
  unfolding stream_sse handle_nonstreaming
  handle e = if e.has_body then validated e e.validation else failure 400 (unread_row empty_body)
