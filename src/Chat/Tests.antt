-- ===== src/Chat/Tests.antt =====
-- Concrete requests.
use ai_inference_gateway_pla.Base.{
  total, ℕ, ◌≡◌, refl, true, false, none, [], ◌∷◌, Text, codes, length,
}
use ai_inference_gateway_pla.Routing.{llamacpp, resolve_backend}
use ai_inference_gateway_pla.Routing.Value.{object, boolean, no_fields, field}
use ai_inference_gateway_pla.Chat.Prompt.{is_stream}
use ai_inference_gateway_pla.Chat.{
  Env, read_timeout, StreamAnswer, response, timed_out, chat_completions,
}
use ai_inference_gateway_pla.Chat.Balance.{IsBalanced, of_releases, chat_completions-IsBalanced}
use ai_inference_gateway_pla.Chat.Logged.{IsLogged, chat_completions-IsLogged}

abbrev token_count : ℕ → Text → ℕ
token_count status out = length out

-- A stream that times out after its first chunk.
abbrev broken_stream : StreamAnswer
broken_stream =
    response 200 none (record { bytes = codes "data: x"; content_chars = 1 } ∷ []) read_timeout

abbrev stream_env : Env
stream_env = record {
  payload = object (field (codes "stream") (boolean true) no_fields);
  headers = [];
  settings = record { default_backend = []; upstream_llama_url = []; upstream_vllm_url = [] };
  within_limit = true;
  has_slot = true;
  passes_barrier = true;
  starts_stream = true;
  stream_answer = broken_stream;
  answer = timed_out;
  logging = record { gateway_persist_logs = true; insert_returns = true };
}

chat_completions-IsBalanced_example : IsBalanced (chat_completions token_count stream_env).1
chat_completions-IsBalanced_example = chat_completions-IsBalanced token_count stream_env refl refl

abbrev cancelled_env : Env
cancelled_env = record stream_env { passes_barrier = false }

-- A request that is cancelled at the barrier keeps the slot that it has.
slot_leaks : total of_releases (chat_completions token_count cancelled_env).1 ≡ 0
unfolding chat_completions resolve_backend
slot_leaks = refl

chat_completions-IsLogged_example :
    IsLogged stream_env.logging
      (is_stream stream_env.payload)
      (chat_completions token_count stream_env)
unfolding resolve_backend
chat_completions-IsLogged_example =
    chat_completions-IsLogged token_count stream_env llamacpp refl refl refl refl refl (λ e. cc)
