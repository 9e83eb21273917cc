-- ===== src/Routing/Tests.antt =====
-- Routing of concrete requests.
use ai_inference_gateway_pla.Base.{true, List, [], ◌∷◌, Text, codes}
use ai_inference_gateway_pla.Routing.Value.{Json, text, Fields, no_fields, field}
use ai_inference_gateway_pla.Routing.{Settings, model_key, llama_vllm, vllm_model}

abbrev plain_settings : Settings
plain_settings = record {
  default_backend = codes "llamacpp";
  upstream_llama_url = codes "http://llamacpp:8080";
  upstream_vllm_url = codes "http://vllm:8000";
}

abbrev chat_fields : Fields
chat_fields =
    field (codes "stream") (Json.boolean true) (field model_key (text llama_vllm) no_fields)

abbrev sent_fields : Fields
sent_fields =
    field (codes "stream") (Json.boolean true) (field model_key (text vllm_model) no_fields)

abbrev lower_headers : List (Text × Text)
lower_headers = (codes "x-inference-backend", codes "llamacpp") ∷ []
