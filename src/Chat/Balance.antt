-- ===== src/Chat/Balance.antt =====
-- Slots and gauges of one request.
use ai_inference_gateway_pla.Base.{
  total, ℕ, ◌≤◌, ◌≡◌, refl, Bool, true, false, Option, none, some, List, [], ◌∷◌, ◌++◌, map, Text,
  arith, Bool-cases, inl, inr,
}
use ai_inference_gateway_pla.Base.Result.{Result, ok, err}
use ai_inference_gateway_pla.Routing.{TypeError, resolve_backend}
use ai_inference_gateway_pla.Chat.Prompt.{is_stream, rough_prompt_stats}
use ai_inference_gateway_pla.Chat.{
  Effect, acquires, releases, begins, ends, opens_stream, closes_stream, counts, sends, touches_key,
  persists, LogRow, persist_if, persist_log, Logging, whole_row, StreamAnswer, ErrorKind, Env,
  stream_body, stream_row, event_stream, whole_result, whole_end, dispatch, with_slot, routed,
  chat_completions,
}

abbrev pub of_acquires : Effect → ℕ
of_acquires acquires = 1
of_acquires releases = 0
of_acquires begins = 0
of_acquires ends = 0
of_acquires opens_stream = 0
of_acquires closes_stream = 0
of_acquires (counts _) = 0
of_acquires (sends _) = 0
of_acquires touches_key = 0
of_acquires (persists _) = 0

abbrev pub of_releases : Effect → ℕ
of_releases acquires = 0
of_releases releases = 1
of_releases begins = 0
of_releases ends = 0
of_releases opens_stream = 0
of_releases closes_stream = 0
of_releases (counts _) = 0
of_releases (sends _) = 0
of_releases touches_key = 0
of_releases (persists _) = 0

-- The gauge of active requests, up and down.
abbrev pub of_begins : Effect → ℕ
of_begins acquires = 0
of_begins releases = 0
of_begins begins = 1
of_begins ends = 0
of_begins opens_stream = 0
of_begins closes_stream = 0
of_begins (counts _) = 0
of_begins (sends _) = 0
of_begins touches_key = 0
of_begins (persists _) = 0

abbrev pub of_ends : Effect → ℕ
of_ends acquires = 0
of_ends releases = 0
of_ends begins = 0
of_ends ends = 1
of_ends opens_stream = 0
of_ends closes_stream = 0
of_ends (counts _) = 0
of_ends (sends _) = 0
of_ends touches_key = 0
of_ends (persists _) = 0

pub total-sends :
    (w : Effect → ℕ) (texts : List Text) (es : List Effect)
    → ((t : Text) → w (sends t) ≡ 0)
    → total w (map sends texts ++ es) ≡ total w es
total-sends w [] es h = refl
total-sends w (t ∷ ts) es h = let rest = total-sends w ts es h in let one = h t in omega arith

-- What a run ends with that logs.
abbrev Ends : List Effect → Type 0
Ends es =
    (total of_acquires es ≡ 0)
    × (total of_releases es ≡ 1)
    × (total of_begins es ≡ 0)
    × (total of_ends es ≡ 0)

persist_if-Ends :
    (on returns : Bool) (row : LogRow) → Ends (persist_if on returns row ++ (releases ∷ []))
persist_if-Ends false returns row = (refl, refl, refl, refl)
persist_if-Ends true false row = (refl, refl, refl, refl)
persist_if-Ends true true row = (refl, refl, refl, refl)

-- What a stream adds.
event_stream-total :
    (l : Logging) (stats : ℕ × ℕ) (answer : StreamAnswer)
    → (total of_acquires (event_stream l stats answer) ≡ 0)
      × (total of_releases (event_stream l stats answer) ≡ 1)
      × (total of_begins (event_stream l stats answer) ≡ 1)
      × (total of_ends (event_stream l stats answer) ≡ 1)
unfolding event_stream
event_stream-total l stats answer =
    let s = stream_body answer in
    let end = persist_log l (stream_row stats s) ++ (releases ∷ []) in
    let last = closes_stream ∷ ends ∷ counts s.status ∷ touches_key ∷ end in
    let (p, q, x, y) =
      persist_if-Ends l.gateway_persist_logs l.insert_returns (stream_row stats s) in
    let a = total-sends of_acquires s.sent last (λ t. refl) in
    let r = total-sends of_releases s.sent last (λ t. refl) in
    let u = total-sends of_begins s.sent last (λ t. refl) in
    let d = total-sends of_ends s.sent last (λ t. refl) in
    (omega arith, omega arith, omega arith, omega arith)

-- A slot is taken at most once, and what is taken is given back.
abbrev pub IsBalanced : List Effect → Type 0
IsBalanced es = (total of_acquires es ≤ 1) × (total of_releases es ≡ total of_acquires es)

module _ (tokens_of : ℕ → Text → ℕ) where
  whole_end-total :
      (l : Logging) (stats : ℕ × ℕ) (r : Option (ℕ × ErrorKind × Text × ℕ))
      → (total of_acquires (whole_end tokens_of l stats r).1 ≡ 0)
        × (total of_releases (whole_end tokens_of l stats r).1 ≡ 1)
  whole_end-total l stats none = (refl, refl)
  whole_end-total l stats (some (status, error, out, tokens)) =
      let (p, q, x, y) =
        persist_if-Ends l.gateway_persist_logs l.insert_returns
          (whole_row tokens_of stats status error tokens) in
      (omega arith, omega arith)

  dispatch-total :
      (e : Env)
      → e.starts_stream ≡ true
      → (total of_acquires (dispatch tokens_of e).1 ≡ 0)
        × (total of_releases (dispatch tokens_of e).1 ≡ 1)
  dispatch-total e s = elim (Bool-cases (is_stream e.payload)) [
    | inl t ↦
        let (a, r, _, _) =
          event_stream-total e.logging (rough_prompt_stats e.payload) e.stream_answer in
        rw (dispatch, t, s) (a, r)
    | inr f ↦
        let (a, r) =
          whole_end-total e.logging (rough_prompt_stats e.payload)
            (whole_result tokens_of e.answer) in
        rw (dispatch, f) (omega arith, omega arith)
  ]

  with_slot-IsBalanced :
      (e : Env)
      → e.passes_barrier ≡ true
      → e.starts_stream ≡ true
      → IsBalanced (with_slot tokens_of e).1
  with_slot-IsBalanced e b s = elim (Bool-cases e.has_slot) [
    | inl t ↦ let (a, r) = dispatch-total e s in rw (with_slot, t, b) (omega arith, omega arith)
    | inr f ↦ rw (with_slot, f) (omega arith, refl)
  ]

  routed-IsBalanced :
      (e : Env) (r : Result TypeError Text)
      → e.passes_barrier ≡ true
      → e.starts_stream ≡ true
      → IsBalanced (routed tokens_of e r).1
  routed-IsBalanced e (err _) b s = (omega arith, refl)
  routed-IsBalanced e (ok _) b s = with_slot-IsBalanced e b s

  -- Whatever the upstream answers or raises, a request gives back the slot that it takes, exactly
  -- once, if it is not cancelled at the barrier and its stream, if it has one, is started.
  pub chat_completions-IsBalanced :
      (e : Env)
      → e.passes_barrier ≡ true
      → e.starts_stream ≡ true
      → IsBalanced (chat_completions tokens_of e).1
  unfolding chat_completions
  chat_completions-IsBalanced e b s = elim (Bool-cases e.within_limit) [
    | inl t ↦
        rw (chat_completions, t)
          (routed-IsBalanced e (resolve_backend e.payload e.headers e.settings) b s)
    | inr f ↦ rw (chat_completions, f) (omega arith, refl)
  ]
