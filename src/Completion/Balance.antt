-- ===== src/Completion/Balance.antt =====
-- The slot and the gauge of one request.
use ai_inference_gateway_pla.Base.{
  ℕ, ◌≤◌, ◌≡◌, refl, Bool, true, false, List, [], ◌∷◌, ◌++◌, map, Text, arith, total, total-append,
  ltb, ◌&&◌, not, if◌then◌else◌, Bool-cases, inl, inr,
}
use ai_inference_gateway_pla.Limits.Quota.{
  QuotaResult, allowed, daily_request_limit_exceeded, daily_token_limit_exceeded,
}
use ai_inference_gateway_pla.Completion.Request.{
  ChatCompletionRequest, prompt_char_length, rough_token_estimate_from_chars,
}
use ai_inference_gateway_pla.Completion.{
  Validation, malformed_json, invalid, valid, Effect, acquires, releases, begins, ends, sends,
  persists, records_quota, bumps_usage, Answer, answered, timed_out, unavailable, raised,
  http_error, Env, post_success_hooks, after_answer, handle_nonstreaming, prompt_tokens_or,
  stream_error, is_success, last_sent, stream_sse, dispatch, with_slot, with_quota, with_request,
  validated, handle,
}

abbrev pub of_acquires : Effect → ℕ
of_acquires acquires = 1
of_acquires releases = 0
of_acquires begins = 0
of_acquires ends = 0
of_acquires (sends _) = 0
of_acquires (persists _) = 0
of_acquires (records_quota _ _) = 0
of_acquires (bumps_usage _ _) = 0

abbrev pub of_releases : Effect → ℕ
of_releases acquires = 0
of_releases releases = 1
of_releases begins = 0
of_releases ends = 0
of_releases (sends _) = 0
of_releases (persists _) = 0
of_releases (records_quota _ _) = 0
of_releases (bumps_usage _ _) = 0

abbrev pub of_begins : Effect → ℕ
of_begins acquires = 0
of_begins releases = 0
of_begins begins = 1
of_begins ends = 0
of_begins (sends _) = 0
of_begins (persists _) = 0
of_begins (records_quota _ _) = 0
of_begins (bumps_usage _ _) = 0

abbrev pub of_ends : Effect → ℕ
of_ends acquires = 0
of_ends releases = 0
of_ends begins = 0
of_ends ends = 1
of_ends (sends _) = 0
of_ends (persists _) = 0
of_ends (records_quota _ _) = 0
of_ends (bumps_usage _ _) = 0

-- The effects give back one slot and one count of the gauge, and take none.
abbrev IsReturn : List Effect → Type 0
IsReturn es =
    (total of_acquires es ≡ 0)
    × (total of_releases es ≡ 1)
    × (total of_begins es ≡ 0)
    × (total of_ends es ≡ 1)

-- A slot is taken at most once, what is taken is given back, and the gauge goes down as it goes up.
abbrev pub IsBalanced : List Effect → Type 0
IsBalanced es =
    (total of_acquires es ≤ 1)
    × (total of_releases es ≡ total of_acquires es)
    × (total of_begins es ≡ total of_acquires es)
    × (total of_ends es ≡ total of_acquires es)

-- Effects that touch neither.
abbrev IsNeutral : List Effect → Type 0
IsNeutral es =
    (total of_acquires es ≡ 0)
    × (total of_releases es ≡ 0)
    × (total of_begins es ≡ 0)
    × (total of_ends es ≡ 0)

hooks-IsNeutral : (has_api_key : Bool) (p c : ℕ) → IsNeutral (post_success_hooks has_api_key p c)
hooks-IsNeutral true p c = (refl, refl, refl, refl)
hooks-IsNeutral false p c = (refl, refl, refl, refl)

sends-IsNeutral : (texts : List Text) → IsNeutral (map sends texts)
sends-IsNeutral [] = (refl, refl, refl, refl)
sends-IsNeutral (t ∷ ts) =
    let (a, r, b, d) = sends-IsNeutral ts in (omega arith, omega arith, omega arith, omega arith)

append-IsReturn : (xs ys : List Effect) → IsNeutral xs → IsReturn ys → IsReturn (xs ++ ys)
append-IsReturn xs ys (a, r, b, d) (a', r', b', d') =
    let ta = total-append of_acquires xs ys in
    let tr = total-append of_releases xs ys in
    let tb = total-append of_begins xs ys in
    let td = total-append of_ends xs ys in (omega arith, omega arith, omega arith, omega arith)

hooks_if-IsNeutral :
    (c has_api_key : Bool) (p t : ℕ)
    → IsNeutral (if c then post_success_hooks has_api_key p t else [])
hooks_if-IsNeutral true has_api_key p t = hooks-IsNeutral has_api_key p t
hooks_if-IsNeutral false has_api_key p t = (refl, refl, refl, refl)

after_answer-IsReturn :
    (e : Env) (req : ChatCompletionRequest) (est : ℕ) (answer : Answer)
    → IsReturn (after_answer e req est answer).1
after_answer-IsReturn e req est (answered body tokens usage) =
    let hooks = post_success_hooks e.has_api_key (prompt_tokens_or usage est) tokens in
    let (a, r, b, d) =
      append-IsReturn hooks (ends ∷ releases ∷ [])
        (hooks-IsNeutral e.has_api_key (prompt_tokens_or usage est) tokens)
        (refl, refl, refl, refl) in
    (omega arith, omega arith, omega arith, omega arith)
after_answer-IsReturn e req est timed_out = (refl, refl, refl, refl)
after_answer-IsReturn e req est unavailable = (refl, refl, refl, refl)
after_answer-IsReturn e req est (http_error status body) = (refl, refl, refl, refl)
after_answer-IsReturn e req est raised = (refl, refl, refl, refl)

module _ (wrap : Text → Text) (estimate : List Text → ℕ) where
  stream_sse-IsReturn :
      (e : Env) (req : ChatCompletionRequest) (est : ℕ)
      → IsReturn (stream_sse wrap estimate e req est)
  unfolding stream_sse
  stream_sse-IsReturn e req est =
      let kind = stream_error e.stream_end in
      let (a, r, b, d) =
        hooks_if-IsNeutral (is_success kind) e.has_api_key est (estimate e.chunks) in
      append-IsReturn (map sends (e.chunks ++ last_sent wrap e.stream_end)) _
        (sends-IsNeutral (e.chunks ++ last_sent wrap e.stream_end))
        (omega arith, omega arith, omega arith, omega arith)

  dispatch-IsReturn :
      (e : Env) (req : ChatCompletionRequest) (est : ℕ)
      → e.starts_stream ≡ true
      → IsReturn (dispatch wrap estimate e req est).1
  unfolding handle_nonstreaming stream_sse
  dispatch-IsReturn e req est s = elim (Bool-cases req.stream) [
    | inl t ↦ rw (dispatch, t, s) (stream_sse-IsReturn e req est)
    | inr f ↦ rw (dispatch, f) (after_answer-IsReturn e req est e.answer)
  ]

  with_slot-IsBalanced :
      (e : Env) (req : ChatCompletionRequest) (est : ℕ)
      → e.starts_stream ≡ true
      → IsBalanced (with_slot wrap estimate e req est).1
  unfolding stream_sse handle_nonstreaming
  with_slot-IsBalanced e req est s = elim (Bool-cases e.has_slot) [
    | inl t ↦
        let (a, r, b, d) = dispatch-IsReturn e req est s in
        rw (with_slot, t) (omega arith, omega arith, omega arith, omega arith)
    | inr f ↦ rw (with_slot, f) (omega arith, refl, refl, refl)
  ]

  with_quota-IsBalanced :
      (e : Env) (req : ChatCompletionRequest) (est : ℕ) (q : QuotaResult)
      → e.starts_stream ≡ true
      → IsBalanced (with_quota wrap estimate e req est q).1
  with_quota-IsBalanced e req est allowed s = with_slot-IsBalanced e req est s
  with_quota-IsBalanced e req est daily_request_limit_exceeded s = (omega arith, refl, refl, refl)
  with_quota-IsBalanced e req est daily_token_limit_exceeded s = (omega arith, refl, refl, refl)

  with_request-IsBalanced :
      (e : Env) (req : ChatCompletionRequest)
      → e.starts_stream ≡ true
      → IsBalanced (with_request wrap estimate e req).1
  unfolding stream_sse handle_nonstreaming
  with_request-IsBalanced e req s =
      elim (Bool-cases (ltb e.max_prompt_chars (prompt_char_length req.messages))) [
        | inl t ↦ rw (with_request, t) (omega arith, refl, refl, refl)
        | inr f ↦ elim (Bool-cases (e.has_api_key && not e.within_rate)) [
          | inl t ↦ rw (with_request, f, t) (omega arith, refl, refl, refl)
          | inr g ↦
              rw (with_request, f, g)
                (with_quota-IsBalanced e req
                  (rough_token_estimate_from_chars (prompt_char_length req.messages)) e.quota s)
        ]
      ]

  validated-IsBalanced :
      (e : Env) (v : Validation)
      → e.starts_stream ≡ true
      → IsBalanced (validated wrap estimate e v).1
  validated-IsBalanced e malformed_json s = (omega arith, refl, refl, refl)
  validated-IsBalanced e invalid s = (omega arith, refl, refl, refl)
  validated-IsBalanced e (valid req) s = with_request-IsBalanced e req s

  -- Whatever validation, the limits and the upstream answer, a request whose stream, if it has one,
  -- is started takes at most one slot, gives back what it takes, and leaves the gauge of active
  -- requests as it was.
  pub handle-IsBalanced : (e : Env) → e.starts_stream ≡ true → IsBalanced (handle wrap estimate e).1
  unfolding handle stream_sse handle_nonstreaming
  handle-IsBalanced e s = elim (Bool-cases e.has_body) [
    | inl t ↦ rw (handle, t) (validated-IsBalanced e e.validation s)
    | inr f ↦ rw (handle, f) (omega arith, refl, refl, refl)
  ]
