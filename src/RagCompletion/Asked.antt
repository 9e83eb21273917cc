-- ===== src/RagCompletion/Asked.antt =====
-- What the upstream is asked, and when.
use ai_inference_gateway_pla.Base.{
  ℕ, ◌≡◌, ◌≢◌, refl, sym, ap, subst, ◌∙◌, inl, inr, ◌⊎◌, Bool, Bool-cases, Option, none, some, List,
  [], ◌∷◌, ◌++◌, min, Text, codes, length, arith, ◌==◌, ==_iff,
}
use ai_inference_gateway_pla.VectorStore.{Hit}
use ai_inference_gateway_pla.RagCompletion.{
  Message, system_prompt, Request, Settings, Raised, validation_error, upstream_http_error,
  other_error, cut_context, context_of, build_augmented_prompt, Streamed, Stream, Event,
  request_for, retry_with, retry_request, after_error, ask, answer_from, fallback, relevant,
  complete_from, upstream_events, found, format_citations,
}
use ai_inference_gateway_pla.RagCompletion.Grounding.{
  others, IsContext, IsCut, IsInvalid, IsRequest, request_for-cases, cut_context-IsContext,
  build-prompt, truncated_prompt,
}

cons_not_nil : {A : Type 0} (x : A) (xs : List A) → x ∷ xs ≢ []
cons_not_nil x xs h = cc

module _ {Score : Type 0} (settings : Settings) (passes : Score → Bool)
    (send : Request → Streamed) where
  -- The messages of a request with this prompt: the caller's system messages are left out.
  abbrev pub with_prompt : Text → List Message → List Message
  with_prompt content messages =
      record { role = codes "system"; content = content } ∷ others messages

  -- The second try after status 400: the request with the cut prompt, for 128 tokens at most, or the
  -- `ValidationError` that refuses it.
  abbrev pub Retries : Text → ℕ → List Message → Text → Request → Stream Score → Type 0
  Retries model n messages prompt r s =
      (content : Text) × IsCut prompt content
      × ((IsInvalid settings passes send model (min n 128) (with_prompt content messages)
            × (s.requests ≡ r ∷ [])
            × (s.raised ≡ some validation_error))
          ⊎ ((again : Request) × IsRequest settings passes send model (min n 128)
                (with_prompt content messages) again
              × (s.requests ≡ r ∷ again ∷ [])
              × (s.raised ≡ (send again).raised)))

  -- What a first request leads to: its own end, or a second try exactly if that is status 400.
  abbrev pub Continues : Text → ℕ → List Message → Text → Request → Stream Score → Type 0
  Continues model n messages prompt r s =
      (((send r).raised ≢ some (upstream_http_error 400))
        × (s.requests ≡ r ∷ [])
        × (s.raised ≡ (send r).raised))
      ⊎ (((send r).raised ≡ some (upstream_http_error 400)) × Retries model n messages prompt r s)

  -- The requests of a stream: none exactly if the first is not valid.
  abbrev pub Asks : Text → ℕ → List Message → Text → Stream Score → Type 0
  Asks model n messages prompt s =
      (IsInvalid settings passes send model n (with_prompt prompt messages)
        × (s.requests ≡ [])
        × (s.raised ≡ some validation_error))
      ⊎ ((r : Request) × IsRequest settings passes send model n (with_prompt prompt messages) r
          × Continues model n messages prompt r s)

  retry-Retries :
      (model : Text) (n : ℕ) (messages : List Message) (prompt : Text) (events : List (Event Score))
      (r : Request)
      → Retries model n messages prompt r (
          retry_with settings passes send events
            (r ∷ [])
            (retry_request settings passes send model (with_prompt prompt messages) n))
  retry-Retries model n messages prompt events r =
      let (content, cut, same) = truncated_prompt prompt messages in
      let requested : retry_request settings passes send model (with_prompt prompt messages) n
          ≡ request_for settings passes send model (with_prompt content messages) (min n 128) =
        ap (λ l. request_for settings passes send model l (min n 128)) same in
      subst
        (λ o. Retries model n messages prompt r (retry_with settings passes send events (r ∷ []) o))
        (sym requested)
        (
          content,
          cut,
          elim (request_for-cases settings passes send model (with_prompt content messages)
              (min n 128)) [
                | inl (invalid, e) ↦ rw e (inl (invalid, refl, refl))
                | inr (again, is_request, e) ↦ rw e (inr (again, is_request, refl, refl))
              ],
        )

  after_error-Continues :
      (model : Text) (n : ℕ) (messages : List Message) (prompt : Text) (events : List (Event Score))
      (r : Request) (raised : Option Raised)
      → (send r).raised ≡ raised
      → Continues model n messages prompt r
          (after_error settings passes send model (with_prompt prompt messages) n events r raised)
  after_error-Continues model n messages prompt events r none e =
      inl ((λ h. let never : none ≡ some (upstream_http_error 400) = sym e ∙ h in cc), refl, sym e)
  after_error-Continues model n messages prompt events r (some validation_error) e = inl (
    (λ h. let never : some validation_error ≡ some (upstream_http_error 400) = sym e ∙ h in cc),
    refl,
    sym e,
  )
  after_error-Continues model n messages prompt events r (some other_error) e = inl (
    (λ h. let never : some other_error ≡ some (upstream_http_error 400) = sym e ∙ h in cc),
    refl,
    sym e,
  )
  after_error-Continues model n messages prompt events r (some (upstream_http_error status)) e =
      elim (Bool-cases (status == 400)) [
        | inr f ↦ rw f (
            inl (
              (λ h.
                  let same : some (upstream_http_error status) ≡ some (upstream_http_error 400) =
                    sym e ∙ h in
                  let equal : status ≡ 400 = cc in ground arith),
              refl,
              sym e,
            ))
        | inl f ↦ rw f (
            inr (
              e ∙ ap (λ k. some (upstream_http_error k)) ((==_iff status 400).0 f),
              retry-Retries model n messages prompt events r,
            ))
      ]

  ask-Asks :
      (model : Text) (n : ℕ) (messages : List Message) (prompt : Text) (events : List (Event Score))
      → Asks model n messages prompt (
          ask settings passes send model
            (with_prompt prompt messages)
            n
            events
            (request_for settings passes send model (with_prompt prompt messages) n))
  ask-Asks model n messages prompt events =
      elim (request_for-cases settings passes send model (with_prompt prompt messages) n) [
        | inl (invalid, e) ↦ rw e (inl (invalid, refl, refl))
        | inr (r, is_request, e) ↦ rw e (
            inr (
              r,
              is_request,
              after_error-Continues model n messages prompt
                  (events ++ upstream_events (send r).chunks) r (send r).raised refl,
            ))
      ]

  abbrev Starts : Event Score → Stream Score → Type 0
  Starts event s = (rest : List (Event Score)) × (s.events ≡ event ∷ rest)

  retry-Starts :
      (event : Event Score) (events : List (Event Score)) (requests : List Request)
      (o : Option Request)
      → Starts event (retry_with settings passes send (event ∷ events) requests o)
  retry-Starts event events requests none = (events, refl)
  retry-Starts event events requests (some again) =
      (events ++ upstream_events (send again).chunks, refl)

  after_error-Starts :
      (model : Text) (augmented : List Message) (n : ℕ) (event : Event Score)
      (events : List (Event Score)) (r : Request) (raised : Option Raised)
      → Starts event (after_error settings passes send model augmented n (event ∷ events) r raised)
  after_error-Starts model augmented n event events r none = (events, refl)
  after_error-Starts model augmented n event events r (some validation_error) = (events, refl)
  after_error-Starts model augmented n event events r (some other_error) = (events, refl)
  after_error-Starts model augmented n event events r (some (upstream_http_error status)) =
      elim (Bool-cases (status == 400)) [
        | inl bad ↦ rw bad (
            retry-Starts event events (r ∷ [])
              (retry_request settings passes send model augmented n))
        | inr other ↦ rw other (events, refl)
      ]

  ask-Starts :
      (model : Text) (augmented : List Message) (n : ℕ) (event : Event Score) (o : Option Request)
      → Starts event (ask settings passes send model augmented n (event ∷ []) o)
  ask-Starts model augmented n event none = ([], refl)
  ask-Starts model augmented n event (some r) =
      after_error-Starts model augmented n event (upstream_events (send r).chunks) r (send r).raised

  -- Where hits pass, the stream begins with their number and their citations, and the upstream is
  -- asked with a prompt that holds as much of their context as fits; where none does, it is the
  -- fallback.
  abbrev pub Answers : List (Hit Score) → List Message → Text → ℕ → Stream Score → Type 0
  Answers hits messages model n s =
      ((relevant settings passes send hits ≡ []) × (s ≡ fallback settings passes send))
      ⊎ ((relevant settings passes send hits ≢ [])
          × ((rest : List (Event Score)) × (s.events
                ≡ found (length (relevant settings passes send hits))
                    (format_citations (relevant settings passes send hits))
                  ∷ rest))
          × ((context : Text) × IsContext settings.rag_max_context_chars
                (context_of (relevant settings passes send hits)) context
              × Asks model n messages (system_prompt context) s))

  answer_from-Answers :
      (hits passing : List (Hit Score)) (messages : List Message) (model : Text) (n : ℕ)
      → relevant settings passes send hits ≡ passing
      → Answers hits messages model n (answer_from settings passes send messages model n passing)
  answer_from-Answers hits [] messages model n same = inl (same, refl)
  answer_from-Answers hits (h ∷ hs) messages model n same =
      let augmented = build_augmented_prompt settings.rag_max_context_chars messages (h ∷ hs) in
      let context = cut_context settings.rag_max_context_chars (context_of (h ∷ hs)) in
      let event = found (length (h ∷ hs)) (format_citations (h ∷ hs)) in
      let prompt : augmented ≡ with_prompt (system_prompt context) messages =
        build-prompt settings passes send messages (h ∷ hs) in
      inr (
        (λ nothing. absurd (cons_not_nil h hs (sym same ∙ nothing))),
        subst
            (λ l.
              (rest : List (Event Score)) × ((ask settings passes send model augmented n
                  (event ∷ []) (request_for settings passes send model augmented n)).events
                ≡ found (length l) (format_citations l) ∷ rest))
            (sym same)
            (ask-Starts model augmented n event
              (request_for settings passes send model augmented n)),
        (
          context,
          subst (λ l. IsContext settings.rag_max_context_chars (context_of l) context) (sym same)
              (cut_context-IsContext settings.rag_max_context_chars (context_of (h ∷ hs))),
          subst
              (λ a. Asks model n messages (system_prompt context) (
                ask settings passes send model a n (event ∷ [])
                  (request_for settings passes send model a n)))
              (sym prompt) (ask-Asks model n messages (system_prompt context) (event ∷ [])),
        ),
      )

  -- Without a hit of the least score the stream is the fallback and nothing is sent upstream. With
  -- one it begins with the citations, and the upstream is asked unless the request is not valid. The
  -- request has one system message, in front, whose context is the passing hits', cut to the limit,
  -- and then the messages in their order. After status 400, and only then, there is a second one, if
  -- it is valid, with the prompt cut to 2,000 characters and the notice, for 128 tokens at most. An
  -- invalid request ends the stream with the `ValidationError`, and else it ends as the last request
  -- does.
  pub complete_from-Answers :
      (hits : List (Hit Score)) (messages : List Message) (model : Text) (n : ℕ)
      → Answers hits messages model n (complete_from settings passes send messages model n hits)
  unfolding complete_from
  complete_from-Answers hits messages model n =
      answer_from-Answers hits (relevant settings passes send hits) messages model n refl
