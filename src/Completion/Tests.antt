-- ===== src/Completion/Tests.antt =====
-- Concrete requests.
use ai_inference_gateway_pla.Base.{ℕ, refl, true, none, some, List, [], ◌∷◌, Text, codes, length}
use ai_inference_gateway_pla.Limits.Quota.{allowed}
use ai_inference_gateway_pla.Completion.Request.{ChatCompletionRequest}
use ai_inference_gateway_pla.Completion.{valid, Env, timeout, answered, handle}
use ai_inference_gateway_pla.Completion.Balance.{IsBalanced, handle-IsBalanced}
use ai_inference_gateway_pla.Completion.Logged.{IsLogged, handle-IsLogged}

abbrev chat_request : ChatCompletionRequest
chat_request = record {
  model = codes "llama-vllm";
  messages = some (codes "hello") ∷ none ∷ [];
  stream = true;
  max_tokens = some 1000;
  backend = some (codes "vllm");
}

-- A stream that is cut off by a time-out.
abbrev chat_env : Env
chat_env = record {
  has_body = true;
  validation = valid chat_request;
  max_prompt_chars = 100;
  has_api_key = true;
  within_rate = true;
  quota = allowed;
  has_slot = true;
  starts_stream = true;
  chunks = codes "data: {}" ∷ [];
  stream_end = timeout;
  answer = answered [] 0 none;
}

abbrev plain : Text → Text
plain t = t

abbrev chunk_count : List Text → ℕ
chunk_count chunks = length chunks

handle-IsLogged_example : IsLogged true (handle plain chunk_count chat_env)
handle-IsLogged_example = handle-IsLogged plain chunk_count chat_env refl (λ e. cc)

handle-IsBalanced_example : IsBalanced (handle plain chunk_count chat_env).1
handle-IsBalanced_example = handle-IsBalanced plain chunk_count chat_env refl
