-- ===== src/Completion/Logged.antt =====
-- What is recorded of one request: the log, the quota and the usage of the key.
use ai_inference_gateway_pla.Base.{
  ℕ, ◌≡◌, ◌≢◌, refl, ap, ◌∙◌, Bool, true, false, List, [], ◌∷◌, ◌++◌, map, Text, ltb, ◌&&◌, not,
  if◌then◌else◌, Bool-cases, inl, inr,
}
use ai_inference_gateway_pla.Limits.Quota.{
  QuotaResult, allowed, daily_request_limit_exceeded, daily_token_limit_exceeded,
}
use ai_inference_gateway_pla.Completion.Request.{
  ChatCompletionRequest, prompt_char_length, rough_token_estimate_from_chars,
}
use ai_inference_gateway_pla.Completion.{
  Validation, malformed_json, invalid, valid, Effect, acquires, releases, begins, ends, sends,
  persists, records_quota, bumps_usage, LogRow, Answer, answered, timed_out, unavailable, raised,
  http_error, Env, Reply, responds, streams, exception, post_success_hooks, after_answer,
  handle_nonstreaming, stream_error, is_success, last_sent, stream_sse, dispatch, with_slot,
  with_quota, with_request, validated, handle, row_of,
}

abbrev pub rows : List Effect → List LogRow
rows [] = []
rows (persists r ∷ es) = r ∷ rows es
rows (acquires ∷ es) = rows es
rows (releases ∷ es) = rows es
rows (begins ∷ es) = rows es
rows (ends ∷ es) = rows es
rows (sends _ ∷ es) = rows es
rows (records_quota _ _ ∷ es) = rows es
rows (bumps_usage _ _ ∷ es) = rows es

-- The prompt and completion tokens that are charged to the user's day, and to the key.
abbrev pub quota_charges : List Effect → List (ℕ × ℕ)
quota_charges [] = []
quota_charges (records_quota p c ∷ es) = (p, c) ∷ quota_charges es
quota_charges (persists _ ∷ es) = quota_charges es
quota_charges (acquires ∷ es) = quota_charges es
quota_charges (releases ∷ es) = quota_charges es
quota_charges (begins ∷ es) = quota_charges es
quota_charges (ends ∷ es) = quota_charges es
quota_charges (sends _ ∷ es) = quota_charges es
quota_charges (bumps_usage _ _ ∷ es) = quota_charges es

abbrev pub key_charges : List Effect → List (ℕ × ℕ)
key_charges [] = []
key_charges (bumps_usage p c ∷ es) = (p, c) ∷ key_charges es
key_charges (persists _ ∷ es) = key_charges es
key_charges (acquires ∷ es) = key_charges es
key_charges (releases ∷ es) = key_charges es
key_charges (begins ∷ es) = key_charges es
key_charges (ends ∷ es) = key_charges es
key_charges (sends _ ∷ es) = key_charges es
key_charges (records_quota _ _ ∷ es) = key_charges es

abbrev pub Answers : Reply → ℕ → Type 0
Answers (responds status) n = status ≡ n
Answers streams n = n ≡ 200
Answers exception n = ⊥

-- What a row charges: nothing on an error, else its tokens.
abbrev pub charge : LogRow → List (ℕ × ℕ)
charge r = if is_success r.error_kind then (r.prompt_tok_est, r.completion_tokens) ∷ [] else []

-- One row under the status of the answer, and what it charges, to the key only if there is one.
abbrev pub IsLogged : Bool → Reply × List Effect → Type 0
IsLogged has_api_key (reply, es) =
    (row : LogRow) × (rows es ≡ row ∷ [])
    × Answers reply row.status_code
    × (quota_charges es ≡ charge row)
    × (key_charges es ≡ (if has_api_key then charge row else []))

-- Nothing is charged to a key, whether there is one or not.
nothing : (has_api_key : Bool) → ◌≡◌ {A = List (ℕ × ℕ)} [] (if has_api_key then [] else [])
nothing true = refl
nothing false = refl

after_answer-IsLogged :
    (e : Env) (req : ChatCompletionRequest) (est : ℕ) (answer : Answer)
    → answer ≢ raised
    → IsLogged e.has_api_key (after_answer e req est answer)
after_answer-IsLogged e req est (answered body tokens usage) ne = elim (Bool-cases e.has_api_key) [
  | inl t ↦ rw t (_, refl, refl, refl, refl)
  | inr f ↦ rw f (_, refl, refl, refl, refl)
]
after_answer-IsLogged e req est timed_out ne = (_, refl, refl, refl, nothing e.has_api_key)
after_answer-IsLogged e req est unavailable ne = (_, refl, refl, refl, nothing e.has_api_key)
after_answer-IsLogged e req est (http_error status body) ne =
    (_, refl, refl, refl, nothing e.has_api_key)
after_answer-IsLogged e req est raised ne = absurd (ne refl)

rows-sends : (texts : List Text) (es : List Effect) → rows (map sends texts ++ es) ≡ rows es
rows-sends [] es = refl
rows-sends (t ∷ ts) es = rows-sends ts es

quota_charges-sends :
    (texts : List Text) (es : List Effect)
    → quota_charges (map sends texts ++ es) ≡ quota_charges es
quota_charges-sends [] es = refl
quota_charges-sends (t ∷ ts) es = quota_charges-sends ts es

key_charges-sends :
    (texts : List Text) (es : List Effect) → key_charges (map sends texts ++ es) ≡ key_charges es
key_charges-sends [] es = refl
key_charges-sends (t ∷ ts) es = key_charges-sends ts es

-- The hooks of a stream write no row and charge what they are called with.
hooks_if :
    (success has_api_key : Bool) (p c : ℕ)
    → let es = if success then post_success_hooks has_api_key p c else [] in
      let charged : List (ℕ × ℕ) = if success then (p, c) ∷ [] else [] in
      (rows es ≡ [])
      × (quota_charges es ≡ charged)
      × (key_charges es ≡ (if has_api_key then charged else []))
hooks_if true true p c = (refl, refl, refl)
hooks_if true false p c = (refl, refl, refl)
hooks_if false true p c = (refl, refl, refl)
hooks_if false false p c = (refl, refl, refl)

module _ (wrap : Text → Text) (estimate : List Text → ℕ) where
  stream_sse-IsLogged :
      (e : Env) (req : ChatCompletionRequest) (est : ℕ)
      → IsLogged e.has_api_key (streams, stream_sse wrap estimate e req est)
  unfolding stream_sse
  stream_sse-IsLogged e req est =
      let kind = stream_error e.stream_end in
      let tokens = estimate e.chunks in
      let texts = e.chunks ++ last_sent wrap e.stream_end in
      let row = row_of req true 200 est tokens kind in
      let last =
        ends
        ∷ releases
        ∷ persists row
        ∷ (if is_success kind then post_success_hooks e.has_api_key est tokens else []) in
      let (r, q, k) = hooks_if (is_success kind) e.has_api_key est tokens in
      (
        row,
        rows-sends texts last ∙ ap (λ rs. row ∷ rs) r,
        refl,
        quota_charges-sends texts last ∙ q,
        key_charges-sends texts last ∙ k,
      )

  dispatch-IsLogged :
      (e : Env) (req : ChatCompletionRequest) (est : ℕ)
      → e.starts_stream ≡ true
      → e.answer ≢ raised
      → IsLogged e.has_api_key (dispatch wrap estimate e req est)
  unfolding handle_nonstreaming stream_sse
  dispatch-IsLogged e req est s ne = elim (Bool-cases req.stream) [
    | inl t ↦ rw (dispatch, t, s) (stream_sse-IsLogged e req est)
    | inr f ↦ rw (dispatch, f) (after_answer-IsLogged e req est e.answer ne)
  ]

  with_slot-IsLogged :
      (e : Env) (req : ChatCompletionRequest) (est : ℕ)
      → e.starts_stream ≡ true
      → e.answer ≢ raised
      → IsLogged e.has_api_key (with_slot wrap estimate e req est)
  unfolding handle_nonstreaming stream_sse
  with_slot-IsLogged e req est s ne = elim (Bool-cases e.has_slot) [
    | inl t ↦ rw (with_slot, t) (dispatch-IsLogged e req est s ne)
    | inr f ↦ rw (with_slot, f) (_, refl, refl, refl, nothing e.has_api_key)
  ]

  with_quota-IsLogged :
      (e : Env) (req : ChatCompletionRequest) (est : ℕ) (q : QuotaResult)
      → e.starts_stream ≡ true
      → e.answer ≢ raised
      → IsLogged e.has_api_key (with_quota wrap estimate e req est q)
  with_quota-IsLogged e req est allowed s ne = with_slot-IsLogged e req est s ne
  with_quota-IsLogged e req est daily_request_limit_exceeded s ne =
      (_, refl, refl, refl, nothing e.has_api_key)
  with_quota-IsLogged e req est daily_token_limit_exceeded s ne =
      (_, refl, refl, refl, nothing e.has_api_key)

  with_request-IsLogged :
      (e : Env) (req : ChatCompletionRequest)
      → e.starts_stream ≡ true
      → e.answer ≢ raised
      → IsLogged e.has_api_key (with_request wrap estimate e req)
  unfolding handle_nonstreaming stream_sse
  with_request-IsLogged e req s ne =
      elim (Bool-cases (ltb e.max_prompt_chars (prompt_char_length req.messages))) [
        | inl t ↦ rw (with_request, t) (_, refl, refl, refl, nothing e.has_api_key)
        | inr f ↦ elim (Bool-cases (e.has_api_key && not e.within_rate)) [
          | inl t ↦ rw (with_request, f, t) (_, refl, refl, refl, nothing e.has_api_key)
          | inr g ↦
              rw (with_request, f, g)
                (with_quota-IsLogged e req
                  (rough_token_estimate_from_chars (prompt_char_length req.messages)) e.quota s ne)
        ]
      ]

  validated-IsLogged :
      (e : Env) (v : Validation)
      → e.starts_stream ≡ true
      → e.answer ≢ raised
      → IsLogged e.has_api_key (validated wrap estimate e v)
  validated-IsLogged e malformed_json s ne = (_, refl, refl, refl, nothing e.has_api_key)
  validated-IsLogged e invalid s ne = (_, refl, refl, refl, nothing e.has_api_key)
  validated-IsLogged e (valid req) s ne = with_request-IsLogged e req s ne

  -- Every request is logged once, and charged for what its row says. If its stream, if it has one,
  -- is started and the call of the backend raises nothing but the errors that the handler names,
  -- then one row is written, under the status of the answer (200 for a stream); the user's day is
  -- charged the row's tokens if the row has no error kind and nothing otherwise; and so is the key,
  -- if there is one.
  pub handle-IsLogged :
      (e : Env)
      → e.starts_stream ≡ true
      → e.answer ≢ raised
      → IsLogged e.has_api_key (handle wrap estimate e)
  unfolding handle stream_sse handle_nonstreaming
  handle-IsLogged e s ne = elim (Bool-cases e.has_body) [
    | inl t ↦ rw (handle, t) (validated-IsLogged e e.validation s ne)
    | inr f ↦ rw (handle, f) (_, refl, refl, refl, nothing e.has_api_key)
  ]
