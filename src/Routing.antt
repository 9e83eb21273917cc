-- ===== src/Routing.antt =====
-- deploy/gateway/gateway/backend_router.py, and the part of `chat_completions` in
-- deploy/gateway/gateway/main.py that turns the payload into what the backend is sent.
use ai_inference_gateway_pla.Base.{
  ℕ, ◌≡◌, Bool, true, false, ◌||◌, ◌&&◌, Option, none, some, List, [], ◌∷◌, ◌++◌, Text, codes,
  text_eq, if◌then◌else◌, ◌==◌,
}
use mathlib.Core.List.{reverse}
use ai_inference_gateway_pla.Base.Result.{Result, ok, err}
use ai_inference_gateway_pla.Routing.Value.{
  Json, null, boolean, number, text, array, object, Fields, no_fields, field, field_of, without,
  set_field,
}
pub mod Value
pub mod Choice
pub mod Named
pub mod Rules
pub mod Headers
pub mod Forward
mod Tests

-- The settings that routing reads.
pub record Settings : Type 0 where
  pub default_backend : Text
  pub upstream_llama_url : Text
  pub upstream_vllm_url : Text

abbrev pub llamacpp : Text
llamacpp = codes "llamacpp"

abbrev pub vllm : Text
vllm = codes "vllm"

abbrev pub backend_key : Text
backend_key = codes "backend"

abbrev pub model_key : Text
model_key = codes "model"

abbrev pub llama_local : Text
llama_local = codes "llama-local"

abbrev pub llama_vllm : Text
llama_vllm = codes "llama-vllm"

abbrev pub vllm_model : Text
vllm_model = codes "vllm-model"

-- `backend in ("llamacpp", "vllm")`
abbrev pub is_backend : Text → Bool
is_backend t = text_eq t llamacpp || text_eq t vllm

abbrev pub backend_in : Option Json → Option Text
backend_in none = none
backend_in (some (text t)) = if is_backend t then some t else none
backend_in (some null) = none
backend_in (some (boolean _)) = none
backend_in (some (number _)) = none
backend_in (some (array _)) = none
backend_in (some (object _)) = none

-- A payload that is a dict and not empty.
abbrev pub dict_of : Json → Option Fields
dict_of (object no_fields) = none
dict_of (object (field k v rest)) = some (field k v rest)
dict_of null = none
dict_of (boolean _) = none
dict_of (number _) = none
dict_of (text _) = none
dict_of (array _) = none

abbrev pub header_of : Text → List (Text × Text) → Option Text
header_of name [] = none
header_of name ((n, v) ∷ rest) =
    let found = header_of name rest in if text_eq n name then some v else found

-- `MODEL_TO_BACKEND`
abbrev pub model_to_backend : Text → Option Text
model_to_backend m =
    if text_eq m llama_local
    then some llamacpp
    else if text_eq m llama_vllm
    then some vllm
    else if text_eq m vllm_model
    then some vllm
    else none

-- `model in MODEL_TO_BACKEND` hashes the model, and a list or a dict has no hash.
pub data TypeError : Type 0 where
  unhashable : TypeError

abbrev pub model_in : Option Json → Result TypeError (Option Text)
model_in none = ok none
model_in (some (text m)) = ok (model_to_backend m)
model_in (some null) = ok none
model_in (some (boolean _)) = ok none
model_in (some (number _)) = ok none
model_in (some (array _)) = err unhashable
model_in (some (object _)) = err unhashable

abbrev pub named_backend : Option Fields → Option Text
named_backend none = none
named_backend (some d) = backend_in (field_of backend_key d)

abbrev pub known_header : Option Text → Option Text
known_header none = none
known_header (some t) = if is_backend t then some t else none

abbrev pub header_backend : List (Text × Text) → Option Text
header_backend headers = known_header (header_of (codes "X-Inference-Backend") headers)

abbrev pub model_backend : Option Fields → Result TypeError (Option Text)
model_backend none = ok none
model_backend (some d) = model_in (field_of model_key d)

-- `settings.default_backend or "llamacpp"`
abbrev pub default_of : Text → Text
default_of [] = llamacpp
default_of (c ∷ s) = c ∷ s

abbrev pub or_default : Text → Result TypeError (Option Text) → Result TypeError Text
or_default default (err e) = err e
or_default default (ok none) = ok default
or_default default (ok (some b)) = ok b

abbrev pub or_model : Text → Option Fields → Option Text → Result TypeError Text
or_model default d (some b) = ok b
or_model default d none = or_default default (model_backend d)

abbrev pub or_header :
    Text → Option Fields → List (Text × Text) → Option Text → Result TypeError Text
or_header default d headers (some b) = ok b
or_header default d headers none = or_model default d (header_backend headers)

-- A payload that is no JSON is `null` here, as the handler makes it `None`.
unfoldable pub resolve_backend : Json → List (Text × Text) → Settings → Result TypeError Text
resolve_backend payload headers settings =
    or_header (default_of settings.default_backend) (dict_of payload) headers
      (named_backend (dict_of payload))

-- `rstrip("/")`
abbrev drop_slashes : Text → Text
drop_slashes [] = []
drop_slashes (c ∷ s) = let rest = drop_slashes s in if c == 47 then rest else c ∷ s

abbrev pub backend_url : Text → Settings → Text
backend_url backend settings =
    if text_eq backend vllm
    then reverse (drop_slashes (reverse settings.upstream_vllm_url))
    else reverse (drop_slashes (reverse settings.upstream_llama_url))

abbrev pub strip_backend_field : Fields → Fields
strip_backend_field payload = without backend_key payload

-- `cleaned.get("model", "")` as a text, if it is one.
abbrev pub model_text : Option Json → Option Text
model_text none = some []
model_text (some (text m)) = some m
model_text (some null) = none
model_text (some (boolean _)) = none
model_text (some (number _)) = none
model_text (some (array _)) = none
model_text (some (object _)) = none

abbrev pub one_of : List Text → Option Text → Bool
one_of names none = false
one_of [] (some m) = false
one_of (n ∷ names) (some m) = text_eq m n || one_of names (some m)

abbrev vllm_aliases : List Text
vllm_aliases = [] ∷ codes "default" ∷ llama_vllm ∷ []

abbrev llamacpp_aliases : List Text
llamacpp_aliases = [] ∷ codes "default" ∷ llama_vllm ∷ vllm_model ∷ []

-- The model name that the backend serves.
unfoldable pub translate_model : Text → Fields → Fields
translate_model backend cleaned =
    let model = model_text (field_of model_key cleaned) in
    if text_eq backend vllm
    then if one_of vllm_aliases model
      then set_field model_key (text vllm_model) cleaned
      else cleaned
    else if text_eq backend llamacpp && one_of llamacpp_aliases model
    then set_field model_key (text llama_local) cleaned
    else cleaned

abbrev forward_fields : Text → Option Fields → Option Fields
forward_fields backend none = none
forward_fields backend (some d) = some (translate_model backend (strip_backend_field d))

-- What is sent upstream: a dict that is written anew, or `none` for the request's own body.
unfoldable pub forwarded_payload : Text → Json → Option Fields
forwarded_payload backend payload = forward_fields backend (dict_of payload)
