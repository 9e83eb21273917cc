-- ===== src/RagCompletion.antt =====
-- apps/rag/services/rag_completion.py: the stream with its fallback and its retry; the prompt
-- and the citations are in Prompt. The upstream is a parameter: what it streams for a request, and how it ends.
-- Temperatures, times and metrics are left out.
use mathlib.Core.List.{reverse}
use ai_inference_gateway_pla.Base.{
  ℕ, zero, suc, ◌+◌, ◌/◌, ◌≡◌, Bool, true, false, ◌&&◌, ◌||◌, not, Option, none, some, List, [],
  ◌∷◌, ◌++◌, map, min, first, keep, Text, codes, length, take, ltb, leb, text_eq, ◌==◌,
  if◌then◌else◌, decimal,
}
use ai_inference_gateway_pla.Completion.Request.{apply_defaults_and_clamp}
use ai_inference_gateway_pla.VectorStore.{Collection, Hit, mem, search_chunks}
pub use ai_inference_gateway_pla.RagCompletion.Prompt.{
  Message, is_system, prompt_head, prompt_tail, system_prompt, truncation_notice, truncate_message,
  truncate_context, first_user, Request, Settings, Raised, is_role, all_roles, is_valid,
  cut_context, Citation, Event, Streamed, Stream, context_part, context_of, citation_of, cite,
  upstream_events, validation_error, upstream_http_error, other_error, not_found, fallback_text,
  done_mark, found, upstream,
}
unfoldable pub use ai_inference_gateway_pla.RagCompletion.Prompt.{
  extract_last_user_message, build_augmented_prompt, format_citations,
}
pub mod Prompt
pub mod Citations
pub mod Grounding
pub mod Asked
pub mod Selection
mod Tests

module _ {Score : Type 0} (settings : Settings) (passes : Score → Bool)
    (send : Request → Streamed) where
  -- `ChatCompletionRequest(...)` and `apply_defaults_and_clamp`, or the ValidationError
  abbrev pub request_for : Text → List Message → ℕ → Option Request
  request_for model messages max_tokens =
      let request : Request = record {
        model = model;
        messages = messages;
        max_tokens = max_tokens;
      } in
      if is_valid request
      then some (record request {
        max_tokens =
            apply_defaults_and_clamp settings.hard_max_tokens settings.default_max_tokens
              (some max_tokens);
      })
      else none

  -- What is yielded before, and then an upstream stream that is passed on.
  abbrev pub pass_on : List (Event Score) → List Request → Streamed → Stream Score
  pass_on events requests answer = record {
    events = events ++ upstream_events answer.chunks;
    requests = requests;
    raised = answer.raised;
  }

  abbrev pub retry_with : List (Event Score) → List Request → Option Request → Stream Score
  retry_with events requests none = record {
    events = events;
    requests = requests;
    raised = some validation_error;
  }
  retry_with events requests (some request) =
      pass_on events (requests ++ (request ∷ [])) (send request)

  abbrev pub retry_request : Text → List Message → ℕ → Option Request
  retry_request model augmented max_tokens =
      request_for model (truncate_context 2000 augmented) (min max_tokens 128)

  -- `except UpstreamHTTPError`: a second try on status 400, else the exception goes on.
  abbrev pub after_error :
      Text → List Message → ℕ → List (Event Score) → Request → Option Raised → Stream Score
  after_error model augmented max_tokens events request (some (upstream_http_error status)) =
      if status == 400
      then retry_with events (request ∷ []) (retry_request model augmented max_tokens)
      else record {
        events = events;
        requests = request ∷ [];
        raised = some (upstream_http_error status);
      }
  after_error model augmented max_tokens events request none = record {
    events = events;
    requests = request ∷ [];
    raised = none;
  }
  after_error model augmented max_tokens events request (some validation_error) = record {
    events = events;
    requests = request ∷ [];
    raised = some validation_error;
  }
  after_error model augmented max_tokens events request (some other_error) = record {
    events = events;
    requests = request ∷ [];
    raised = some other_error;
  }

  abbrev pub ask : Text → List Message → ℕ → List (Event Score) → Option Request → Stream Score
  ask model augmented max_tokens events none = record {
    events = events;
    requests = [];
    raised = some validation_error;
  }
  ask model augmented max_tokens events (some request) =
      after_error model augmented max_tokens (events ++ upstream_events (send request).chunks)
        request (send request).raised

  -- What is yielded where no chunk has the score.
  abbrev pub fallback : Stream Score
  fallback = record {
    events = not_found ∷ fallback_text ∷ done_mark ∷ [];
    requests = [];
    raised = none;
  }

  abbrev pub answer_from : List Message → Text → ℕ → List (Hit Score) → Stream Score
  answer_from messages model max_tokens [] = fallback
  answer_from messages model max_tokens (h ∷ hs) =
      let augmented = build_augmented_prompt settings.rag_max_context_chars messages (h ∷ hs) in
      ask model augmented max_tokens (found (length (h ∷ hs)) (format_citations (h ∷ hs)) ∷ [])
        (request_for model augmented max_tokens)

  -- `[c for c in chunks if c.get("score", 0) >= min_score]`
  abbrev pub relevant : List (Hit Score) → List (Hit Score)
  relevant hits = keep (λ h. passes h.score) hits

  -- `rag_completion_stream`, behind the search
  unfoldable pub complete_from : List Message → Text → ℕ → List (Hit Score) → Stream Score
  complete_from messages model max_tokens hits =
      answer_from messages model max_tokens (relevant hits)

  -- `rag_completion_stream` with its search; `none` where the collection cannot be
  -- reached or the model of the embeddings raises
  module _ (C : Collection) (similarity : C.Distance → Score)
      (embed_query : Text → Option C.Embedding) where
    abbrev pub searched :
        C.State → List Message → Text → ℕ → List Text → Option C.Embedding → Stream Score
    searched s messages model max_tokens document_ids none = record {
      events = [];
      requests = [];
      raised = some other_error;
    }
    searched s messages model max_tokens document_ids (some embedding) =
        complete_from messages model max_tokens (
          search_chunks C similarity s embedding (some settings.rag_top_k) settings.rag_top_k
            document_ids)

    unfoldable pub rag_completion_stream :
        C.State → List Message → Text → ℕ → List Text → Stream Score
    unfolding complete_from
    rag_completion_stream s messages model max_tokens document_ids =
        searched s messages model max_tokens document_ids
          (embed_query (extract_last_user_message messages))
