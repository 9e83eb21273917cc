-- ===== src/RagCompletion/Prompt.antt =====
-- The messages, the prompt, the citations and the requests of
-- apps/rag/services/rag_completion.py.
use mathlib.Core.List.{reverse}
use ai_inference_gateway_pla.Base.{
  ℕ, Bool, true, ◌&&◌, ◌||◌, not, Option, List, [], ◌∷◌, ◌++◌, map, keep, Text, codes, length, take,
  ltb, leb, text_eq, if◌then◌else◌, decimal,
}
use ai_inference_gateway_pla.VectorStore.{Hit, mem}

pub record Message : Type 0 where
  pub role : Text
  pub content : Text

abbrev pub is_system : Message → Bool
is_system m = text_eq m.role (codes "system")

abbrev pub prompt_head : Text
prompt_head =
    codes
      "You are a precise, honest assistant. Answer the user's question using ONLY the information provided in the context below.\n\nCONTEXT:\n"

abbrev pub prompt_tail : Text
prompt_tail =
    codes
      "\n\nINSTRUCTIONS:\n1. Answer based ONLY on the provided context. Do NOT use your training data.\n2. If the context does not contain enough information to answer the question, say EXACTLY: \"I could not find this information in the uploaded documents.\"\n3. Do NOT make up, infer, or fabricate any information not present in the context.\n4. Keep your answer concise. Include source citations when referencing specific information."

-- `SYSTEM_PROMPT_TEMPLATE.format(context=context_text)`
abbrev pub system_prompt : Text → Text
system_prompt context = prompt_head ++ (context ++ prompt_tail)

abbrev pub truncation_notice : Text
truncation_notice = codes "\n\n[Context truncated due to length]"

-- `_truncate_context`, on one message
abbrev pub truncate_message : ℕ → Message → Message
truncate_message max_chars m =
    if is_system m && ltb max_chars (length m.content)
    then record { role = codes "system"; content = take max_chars m.content ++ truncation_notice }
    else m

abbrev pub truncate_context : ℕ → List Message → List Message
truncate_context max_chars messages = map (truncate_message max_chars) messages

-- `_extract_last_user_message`
abbrev pub first_user : List Message → Text
first_user [] = []
first_user (m ∷ ms) = if text_eq m.role (codes "user") then m.content else first_user ms

unfoldable pub extract_last_user_message : List Message → Text
extract_last_user_message messages = first_user (reverse messages)

-- `ChatCompletionRequest`, as far as it is set here
pub record Request : Type 0 where
  pub model : Text
  pub messages : List Message
  pub max_tokens : ℕ

pub record Settings : Type 0 where
  pub rag_top_k : ℕ
  pub rag_max_context_chars : ℕ
  pub hard_max_tokens : ℕ
  pub default_max_tokens : ℕ

-- The exceptions that leave the stream, by their kind.
pub data Raised : Type 0 where
  validation_error : Raised
  upstream_http_error : ℕ → Raised
  other_error : Raised

abbrev pub is_role : Text → Bool
is_role role =
    text_eq role (codes "system")
    || (text_eq role (codes "user")
        || (text_eq role (codes "assistant") || text_eq role (codes "tool")))

abbrev pub all_roles : List Message → Bool
all_roles [] = true
all_roles (m ∷ ms) = is_role m.role && all_roles ms

-- What pydantic checks: the roles, the length of the model's name, and `max_tokens` from 1 on. A
-- message that is not empty is always among the messages, since the system prompt is.
abbrev pub is_valid : Request → Bool
is_valid r =
    all_roles r.messages
    && (leb 1 (length r.model) && (leb (length r.model) 256 && leb 1 r.max_tokens))

-- `context_text[:limit]` where it is longer
abbrev pub cut_context : ℕ → Text → Text
cut_context limit context = if ltb limit (length context) then take limit context else context

pub record Citation (Score : Type 0) : Type 0 where
  pub document_id : Text
  pub page : ℕ
  pub relevance_score : Score

-- What the stream yields.
pub data Event (Score : Type 0) : Type 0 where
  not_found : Event Score
  fallback_text : Event Score
  done_mark : Event Score
  found : ℕ → List (Citation Score) → Event Score
  upstream : Text → Event Score

-- How an upstream stream goes: what it yields, and the exception that ends it, if any.
pub record Streamed : Type 0 where
  pub chunks : List Text
  pub raised : Option Raised

-- What the generator did: the events that it yielded, the requests that it sent, and the exception
-- that left it.
pub record Stream (Score : Type 0) : Type 0 where
  pub events : List (Event Score)
  pub requests : List Request
  pub raised : Option Raised

module _ {Score : Type 0} where
  -- `f"[Source: {doc_name}, page {page}]\n{text}"`
  abbrev pub context_part : Hit Score → Text
  context_part h =
      codes "[Source: "
      ++ (h.metadata.document_id
          ++ (codes ", page " ++ (decimal h.metadata.page_number ++ (codes "]\n" ++ h.text))))

  -- `"\n\n".join(context_parts)`
  abbrev pub context_of : List (Hit Score) → Text
  context_of [] = []
  context_of (h ∷ []) = context_part h
  context_of (h ∷ k ∷ hs) = context_part h ++ (codes "\n\n" ++ context_of (k ∷ hs))

  unfoldable pub build_augmented_prompt : ℕ → List Message → List (Hit Score) → List Message
  build_augmented_prompt limit messages chunks =
      record {
        role = codes "system";
        content = system_prompt (cut_context limit (context_of chunks));
      }
      ∷ keep (λ m. not (is_system m)) messages

  abbrev pub citation_of : Hit Score → Citation Score
  citation_of h = record {
    document_id = h.metadata.document_id;
    page = h.metadata.page_number;
    relevance_score = h.score;
  }

  -- The loop of `format_citations`; the set `seen` is a list.
  abbrev pub cite : List Text → List (Hit Score) → List (Citation Score)
  cite seen [] = []
  cite seen (h ∷ hs) =
      let again = cite seen hs in
      let new = citation_of h ∷ cite (h.metadata.document_id ∷ seen) hs in
      if mem h.metadata.document_id seen then again else new

  unfoldable pub format_citations : List (Hit Score) → List (Citation Score)
  format_citations chunks = cite [] chunks

  abbrev pub upstream_events : List Text → List (Event Score)
  upstream_events chunks = map (λ c. upstream c) chunks
