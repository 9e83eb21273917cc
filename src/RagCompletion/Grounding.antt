-- ===== src/RagCompletion/Grounding.antt =====
-- The prompt, and what truncation leaves of it.
use mathlib.Core.List.{append-nil}
use ai_inference_gateway_pla.Base.{
  ℕ, ◌≤◌, ◌<◌, ◌⊎◌, ◌≡◌, refl, sym, ap, ◌∙◌, inl, inr, Bool, false, not, Bool-cases, none, some,
  List, [], ◌∷◌, ◌++◌, map, min, keep, keep-true, keep-false, Text, codes, take, drop,
  take-append-drop, length, length-take, arith, ltb,
}
use ai_inference_gateway_pla.Completion.Request.{apply_defaults_and_clamp}
use ai_inference_gateway_pla.VectorStore.{Hit}
use ai_inference_gateway_pla.RagCompletion.{
  Message, is_system, system_prompt, truncation_notice, truncate_message, truncate_context, Request,
  Settings, cut_context, context_of, build_augmented_prompt, Streamed, request_for, is_valid,
}

-- The messages that are no system messages, in their order.
abbrev pub others : List Message → List Message
others messages = keep (λ m. not (is_system m)) messages

others_idem : (messages : List Message) → others (others messages) ≡ others messages
others_idem [] = refl
others_idem (m ∷ ms) = elim (Bool-cases (is_system m)) [
  | inl e ↦
      ap others (keep-false (λ x. not (is_system x)) m ms (ap not e))
      ∙ others_idem ms
      ∙ sym (keep-false (λ x. not (is_system x)) m ms (ap not e))
  | inr e ↦
      ap others (keep-true (λ x. not (is_system x)) m ms (ap not e))
      ∙ keep-true (λ x. not (is_system x)) m (others ms) (ap not e)
      ∙ ap (◌∷◌ m) (others_idem ms)
      ∙ sym (keep-true (λ x. not (is_system x)) m ms (ap not e))
]

truncate_other : (n : ℕ) (m : Message) → is_system m ≡ false → truncate_message n m ≡ m
truncate_other n m e = rw e

-- Truncation leaves these messages alone.
truncate-others :
    (n : ℕ) (messages : List Message) → truncate_context n (others messages) ≡ others messages
truncate-others n [] = refl
truncate-others n (m ∷ ms) = elim (Bool-cases (is_system m)) [
  | inl e ↦
      ap (truncate_context n) (keep-false (λ x. not (is_system x)) m ms (ap not e))
      ∙ truncate-others n ms
      ∙ sym (keep-false (λ x. not (is_system x)) m ms (ap not e))
  | inr e ↦
      ap (truncate_context n) (keep-true (λ x. not (is_system x)) m ms (ap not e))
      ∙ ap (λ x. x ∷ truncate_context n (others ms)) (truncate_other n m e)
      ∙ ap (◌∷◌ m) (truncate-others n ms)
      ∙ sym (keep-true (λ x. not (is_system x)) m ms (ap not e))
]

-- The context that a prompt holds: the first characters of the whole, as many as the limit lets
-- through.
abbrev pub IsContext : ℕ → Text → Text → Type 0
IsContext limit whole context =
    (length context ≡ min limit (length whole)) × ((rest : Text) × (whole ≡ context ++ rest))

pub cut_context-IsContext :
    (limit : ℕ) (whole : Text) → IsContext limit whole (cut_context limit whole)
cut_context-IsContext limit whole = elim (Bool-cases (ltb limit (length whole))) [
  | inl e ↦ rw e (length-take limit whole, (drop limit whole, sym (take-append-drop limit whole)))
  | inr e ↦ rw e (ground arith, ([], sym (append-nil whole)))
]

module _ {Score : Type 0} (settings : Settings) (passes : Score → Bool)
    (send : Request → Streamed) where
  pub build-prompt :
      (messages : List Message) (hits : List (Hit Score))
      → build_augmented_prompt settings.rag_max_context_chars messages hits
        ≡ record {
          role = codes "system";
          content = system_prompt (cut_context settings.rag_max_context_chars (context_of hits));
        }
          ∷ others messages
  unfolding build_augmented_prompt
  build-prompt messages hits = refl

  -- What `ChatCompletionRequest` refuses.
  abbrev pub IsInvalid : Text → ℕ → List Message → Type 0
  IsInvalid model n messages =
      is_valid (record { model = model; messages = messages; max_tokens = n }) ≡ false

  -- The request for these messages, with at most as many tokens as the setting lets through.
  pub record IsRequest (model : Text) (n : ℕ) (messages : List Message) (r : Request) : Type 0 where
    pub model_sent : r.model ≡ model
    pub messages_sent : r.messages ≡ messages
    pub tokens_sent : r.max_tokens ≡ min n settings.hard_max_tokens

  pub request_for-cases :
      (model : Text) (messages : List Message) (n : ℕ)
      → (IsInvalid model n messages × (request_for settings passes send model messages n ≡ none))
        ⊎ ((r : Request) × IsRequest model n messages r
            × (request_for settings passes send model messages n ≡ some r))
  unfolding apply_defaults_and_clamp
  request_for-cases model messages n =
      let sent : Request = record {
        model = model;
        messages = messages;
        max_tokens = min n settings.hard_max_tokens;
      } in
      elim (Bool-cases (is_valid (record { model = model; messages = messages; max_tokens = n }))) [
        | inl e ↦ inr (
          sent,
          record { model_sent = refl; messages_sent = refl; tokens_sent = refl },
          rw e refl,
        )
        | inr e ↦ inl (e, rw e refl)
      ]

-- The prompt of a second try: the first 2,000 characters and the notice, where it is longer.
abbrev pub IsCut : Text → Text → Type 0
IsCut prompt content =
    ((length prompt ≤ 2000) × (content ≡ prompt))
    ⊎ ((2000 < length prompt) × (content ≡ take 2000 prompt ++ truncation_notice))

pub truncated_prompt :
    (content : Text) (messages : List Message)
    → (short : Text) × IsCut content short
      × (truncate_context 2000
            (record { role = codes "system"; content = content } ∷ others messages)
          ≡ record { role = codes "system"; content = short } ∷ others messages)
truncated_prompt content messages = elim (Bool-cases (ltb 2000 (length content))) [
  | inl e ↦ (
    take 2000 content ++ truncation_notice,
    inr (ground arith, refl),
    rw (truncate_context, map, e)
        (ap
          (λ l.
            record { role = codes "system"; content = take 2000 content ++ truncation_notice } ∷ l)
          (truncate-others 2000 messages)),
  )
  | inr e ↦ (
    content,
    inl (ground arith, refl),
    rw (truncate_context, map, e)
        (ap (λ l. record { role = codes "system"; content = content } ∷ l)
          (truncate-others 2000 messages)),
  )
]
