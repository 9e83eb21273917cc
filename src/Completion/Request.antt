-- ===== src/Completion/Request.antt =====
-- apps/inference/services/prompt_stats.py, the request of apps/inference/schemas.py with its limit of
-- tokens, and the choice of the backend in apps/inference/services/chat_completion.py.
use ai_inference_gateway_pla.Base.{
  ℕ, ◌+◌, ◌/◌, Bool, ◌||◌, Option, none, some, List, [], ◌∷◌, max, min, Text, codes, text_eq,
  if◌then◌else◌, length,
}
use ai_inference_gateway_pla.ApiKeys.Model.{or_else}

-- The fields of a valid request that the handler reads; of a message, its content.
pub record ChatCompletionRequest : Type 0 where
  pub model : Text
  pub messages : List (Option Text)
  pub stream : Bool
  pub max_tokens : Option ℕ
  pub backend : Option Text

abbrev pub content_length : Option Text → ℕ
content_length none = 0
content_length (some t) = length t

-- `prompt_char_length`
abbrev pub prompt_char_length : List (Option Text) → ℕ
prompt_char_length [] = 0
prompt_char_length (m ∷ ms) = content_length m + prompt_char_length ms

abbrev pub rough_token_estimate_from_chars : ℕ → ℕ
rough_token_estimate_from_chars chars = max 1 (chars / 4)

-- `max_tokens` in `apply_defaults_and_clamp`
unfoldable pub apply_defaults_and_clamp : ℕ → ℕ → Option ℕ → ℕ
apply_defaults_and_clamp hard_max default_max none = default_max
apply_defaults_and_clamp hard_max default_max (some n) = min n hard_max

abbrev pub llamacpp : Text
llamacpp = codes "llamacpp"

abbrev pub vllm : Text
vllm = codes "vllm"

-- `a` if it is a text that is not empty, else `b`
abbrev pub named_or : Option Text → Text → Text
named_or none b = b
named_or (some a) b = or_else a b

abbrev pub model_backend : Text → Text
model_backend model =
    if text_eq model (codes "llama-local")
    then llamacpp
    else if text_eq model (codes "llama-vllm")
    then vllm
    else []

-- Step 8, the choice of the backend
unfoldable pub choose_backend : Text → ChatCompletionRequest → Text
choose_backend default req =
    let raw = or_else (named_or req.backend (model_backend req.model)) default in
    if text_eq raw llamacpp || text_eq raw vllm then raw else llamacpp
