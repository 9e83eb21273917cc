-- ===== src/Chat/Logged.antt =====
-- What is recorded of one request.
use ai_inference_gateway_pla.Base.{
  ℕ, ◌≤◌, ◌<◌, ◌≡◌, ◌≢◌, refl, ap, ◌∙◌, Bool, true, false, Option, none, some, List, [], ◌∷◌, ◌++◌,
  map, Text, codes, arith, leb, Bool-cases, inl, inr,
}
use ai_inference_gateway_pla.Base.Result.{ok}
use ai_inference_gateway_pla.Routing.{resolve_backend}
use ai_inference_gateway_pla.Chat.Prompt.{is_stream, rough_prompt_stats}
use ai_inference_gateway_pla.Chat.{
  Effect, acquires, releases, begins, ends, opens_stream, closes_stream, counts, sends, touches_key,
  persists, persist_if, persist_log, Logging, ErrorKind, whole_row, StreamAnswer, no_response,
  response, StreamEnd, completed, read_timeout, request_error, cancelled, other, StreamState,
  finish, error_response, begun, no_error, upstream_http, Answer, answered, timed_out, unavailable,
  raised, Env, Reply, exception, streaming, whole, LogRow, stream_body, stream_row, event_stream,
  whole_result, whole_end, then_effects, chat_completions,
}

-- The log rows and the counted statuses of a run.
abbrev pub rows : List Effect → List LogRow
rows [] = []
rows (persists r ∷ es) = r ∷ rows es
rows (acquires ∷ es) = rows es
rows (releases ∷ es) = rows es
rows (begins ∷ es) = rows es
rows (ends ∷ es) = rows es
rows (opens_stream ∷ es) = rows es
rows (closes_stream ∷ es) = rows es
rows (counts _ ∷ es) = rows es
rows (sends _ ∷ es) = rows es
rows (touches_key ∷ es) = rows es

abbrev pub statuses : List Effect → List ℕ
statuses [] = []
statuses (counts n ∷ es) = n ∷ statuses es
statuses (acquires ∷ es) = statuses es
statuses (releases ∷ es) = statuses es
statuses (begins ∷ es) = statuses es
statuses (ends ∷ es) = statuses es
statuses (opens_stream ∷ es) = statuses es
statuses (closes_stream ∷ es) = statuses es
statuses (persists _ ∷ es) = statuses es
statuses (sends _ ∷ es) = statuses es
statuses (touches_key ∷ es) = statuses es

rows-sends : (texts : List Text) (es : List Effect) → rows (map sends texts ++ es) ≡ rows es
rows-sends [] es = refl
rows-sends (t ∷ ts) es = rows-sends ts es

statuses-sends :
    (texts : List Text) (es : List Effect) → statuses (map sends texts ++ es) ≡ statuses es
statuses-sends [] es = refl
statuses-sends (t ∷ ts) es = statuses-sends ts es

-- The status that the server answers with, of a whole response.
abbrev pub Answers : Reply → ℕ → Type 0
Answers (whole status out) n = status ≡ n
Answers streaming n = Unit
Answers exception n = ⊥
Answers (Reply.http_exception _) n = ⊥

-- The rows that are written of one: it, where the setting is on and the insertion returns.
abbrev pub written : Bool → Bool → LogRow → List LogRow
written false returns row = []
written true false row = []
written true true row = row ∷ []

rows-persist_if :
    (on returns : Bool) (row : LogRow)
    → rows (persist_if on returns row ++ (releases ∷ [])) ≡ written on returns row
rows-persist_if false returns row = refl
rows-persist_if true false row = refl
rows-persist_if true true row = refl

statuses-persist_if :
    (on returns : Bool) (row : LogRow)
    → statuses (persist_if on returns row ++ (releases ∷ [])) ≡ []
statuses-persist_if false returns row = refl
statuses-persist_if true false row = refl
statuses-persist_if true true row = refl

-- One row, where rows are written, under the one status that is counted and answered.
abbrev pub IsLogged : Logging → Bool → Reply × List Effect → Type 0
IsLogged l stream (reply, es) =
    (row : LogRow) × (rows es ≡ written l.gateway_persist_logs l.insert_returns row)
    × (statuses es ≡ row.status_code ∷ [])
    × (row.stream ≡ stream)
    × Answers reply row.status_code

module _ (tokens_of : ℕ → Text → ℕ) where
  event_stream-IsLogged :
      (l : Logging) (stats : ℕ × ℕ) (answer : StreamAnswer)
      → IsLogged l true (streaming, event_stream l stats answer)
  unfolding event_stream
  event_stream-IsLogged l stats answer =
      let s = stream_body answer in
      let row = stream_row stats s in
      let last =
        closes_stream
        ∷ ends
        ∷ counts s.status
        ∷ touches_key
        ∷ (persist_log l row ++ (releases ∷ [])) in
      (
        row,
        rows-sends s.sent last ∙ rows-persist_if l.gateway_persist_logs l.insert_returns row,
        statuses-sends s.sent last
            ∙ ap (◌∷◌ s.status) (statuses-persist_if l.gateway_persist_logs l.insert_returns row),
        refl,
        tt,
      )

  some_end-IsLogged :
      (l : Logging) (stats : ℕ × ℕ) (status : ℕ) (error : ErrorKind) (out : Text) (tokens : ℕ)
      → IsLogged l false (
          then_effects tokens_of
            (begins ∷ [])
            (whole_end tokens_of l stats (some (status, error, out, tokens))))
  some_end-IsLogged l stats status error out tokens =
      let row = whole_row tokens_of stats status error tokens in
      (
        row,
        rows-persist_if l.gateway_persist_logs l.insert_returns row,
        ap (◌∷◌ status) (statuses-persist_if l.gateway_persist_logs l.insert_returns row),
        refl,
        refl,
      )

  whole_end-IsLogged :
      (l : Logging) (stats : ℕ × ℕ) (answer : Answer)
      → answer ≢ raised
      → IsLogged l false (
          then_effects tokens_of
            (begins ∷ [])
            (whole_end tokens_of l stats (whole_result tokens_of answer)))
  whole_end-IsLogged l stats (answered status out) ne = some_end-IsLogged l stats status _ out _
  whole_end-IsLogged l stats timed_out ne =
      some_end-IsLogged l stats 504 _
        (codes "{\"error\": {\"message\": \"Upstream timed out\", \"type\": \"api_error\"}}") _
  whole_end-IsLogged l stats unavailable ne =
      some_end-IsLogged l stats 502 _
        (codes "{\"error\": {\"message\": \"Upstream unavailable\", \"type\": \"api_error\"}}") _
  whole_end-IsLogged l stats raised ne = absurd (ne refl)

  -- A request that reaches the upstream is logged once: if it is within its limit, routed, has a
  -- slot, passes the barrier, its stream is started and the call of the upstream raises nothing but
  -- a time-out or a request error, then one status is counted, which is the status of the answer if it
  -- is whole. Where the setting `gateway_persist_logs` is on and the database takes the row, one row
  -- is written, under that status, and it says whether it was a stream; else none is.
  pub chat_completions-IsLogged :
      (e : Env) (backend : Text)
      → e.within_limit ≡ true
      → resolve_backend e.payload e.headers e.settings ≡ ok backend
      → e.has_slot ≡ true
      → e.passes_barrier ≡ true
      → e.starts_stream ≡ true
      → e.answer ≢ raised
      → IsLogged e.logging (is_stream e.payload) (chat_completions tokens_of e)
  unfolding chat_completions
  chat_completions-IsLogged e backend l r h b s ne = elim (Bool-cases (is_stream e.payload)) [
    | inl t ↦
        rw (chat_completions, l, r, h, b, t, s)
          (event_stream-IsLogged e.logging (rough_prompt_stats e.payload) e.stream_answer)
    | inr f ↦
        rw (chat_completions, l, r, h, b, f)
          (whole_end-IsLogged e.logging (rough_prompt_stats e.payload) e.answer ne)
  ]

-- An error kind stands exactly with an error status.
abbrev pub IsConsistent : StreamState → Type 0
IsConsistent s = (s.status < 400 → s.error ≡ no_error) × (400 ≤ s.status → s.error ≢ no_error)

finish-IsConsistent :
    (end : StreamEnd) (s : StreamState) → IsConsistent s → IsConsistent (finish end s)
finish-IsConsistent completed s h = h
finish-IsConsistent read_timeout s h = (λ lt. absurd (omega arith), λ _ e. cc)
finish-IsConsistent request_error s h = (λ lt. absurd (omega arith), λ _ e. cc)
finish-IsConsistent cancelled s h = (λ lt. absurd (omega arith), λ _ e. cc)
finish-IsConsistent other s h = h

error_response-IsConsistent :
    (status : ℕ) (body : Option Text) (end : StreamEnd)
    → 400 ≤ status
    → IsConsistent (error_response status body end)
error_response-IsConsistent status none end h =
    finish-IsConsistent end (record begun { status = status; error = upstream_http })
      (λ lt. absurd (omega arith), λ _ e. cc)
error_response-IsConsistent status (some body) end h = (λ lt. absurd (omega arith), λ _ e. cc)

-- However a stream ends, its row has an error kind exactly if its status is 400 or more.
pub stream_body-IsConsistent : (answer : StreamAnswer) → IsConsistent (stream_body answer)
unfolding stream_body
stream_body-IsConsistent (no_response end) =
    finish-IsConsistent end begun (λ _. refl, λ h. absurd (omega arith))
stream_body-IsConsistent (response status body chunks end) = elim (Bool-cases (leb 400 status)) [
  | inl t ↦ rw (stream_body, t) (error_response-IsConsistent status body end (ground arith))
  | inr f ↦ rw (stream_body, f) (finish-IsConsistent end _ (λ _. refl, λ h. absurd (omega arith)))
]
