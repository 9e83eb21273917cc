-- ===== src/Routing/Choice.antt =====
-- Which backend a request goes to.
use mathlib.Core.Option.{some-injective}
use ai_inference_gateway_pla.Base.{
  ◌≡◌, refl, sym, ◌∙◌, true, Option, none, some, List, Text, codes, text_eq, if-eq-some, Bool-cases,
  inl, inr, ◌⊎◌,
}
use ai_inference_gateway_pla.Base.Result.{Result, ok, err, ok-injective}
use ai_inference_gateway_pla.Routing.Value.{
  Json, null, boolean, number, text, array, object, Fields, field_of,
}
use ai_inference_gateway_pla.Routing.{
  Settings, llamacpp, vllm, backend_key, model_key, llama_local, llama_vllm, vllm_model, is_backend,
  backend_in, dict_of, header_of, model_to_backend, TypeError, unhashable, model_in, named_backend,
  known_header, header_backend, model_backend, default_of, or_default, or_model, or_header,
  resolve_backend,
}

abbrev pub IsBackend : Text → Type 0
IsBackend t = is_backend t ≡ true

backend_in-IsBackend : (v : Option Json) (b : Text) → backend_in v ≡ some b → IsBackend b
backend_in-IsBackend none b h = cc
backend_in-IsBackend (some (text t)) b h =
    let (e, same) = if-eq-some (is_backend t) (some t) h in rw (← some-injective t b same) e
backend_in-IsBackend (some null) b h = cc
backend_in-IsBackend (some (boolean _)) b h = cc
backend_in-IsBackend (some (number _)) b h = cc
backend_in-IsBackend (some (array _)) b h = cc
backend_in-IsBackend (some (object _)) b h = cc

named_backend-IsBackend : (d : Option Fields) (b : Text) → named_backend d ≡ some b → IsBackend b
named_backend-IsBackend none b h = cc
named_backend-IsBackend (some d) b h = backend_in-IsBackend (field_of backend_key d) b h

known_header-IsBackend : (v : Option Text) (b : Text) → known_header v ≡ some b → IsBackend b
known_header-IsBackend none b h = cc
known_header-IsBackend (some t) b h =
    let (e, same) = if-eq-some (is_backend t) (some t) h in rw (← some-injective t b same) e

-- A payload without a backend of its own, a request without a backend header, and a model that is a
-- list or a dict.
abbrev pub IsUnroutable : Json → List (Text × Text) → Type 0
IsUnroutable payload headers =
    (named_backend (dict_of payload) ≡ none)
    × (header_backend headers ≡ none)
    × (model_backend (dict_of payload) ≡ err unhashable)

-- What the code chooses: the payload's backend, else the header's, else the model's, else the
-- default.
pub data Chooses (payload : Json) (headers : List (Text × Text)) (default : Text)
    : Text → Type 0 where
  by_payload :
      {b : Text} → named_backend (dict_of payload) ≡ some b → Chooses payload headers default b
  by_header :
      {b : Text}
      → named_backend (dict_of payload) ≡ none
      → header_backend headers ≡ some b
      → Chooses payload headers default b
  by_model :
      {b : Text}
      → named_backend (dict_of payload) ≡ none
      → header_backend headers ≡ none
      → model_backend (dict_of payload) ≡ ok (some b)
      → Chooses payload headers default b
  by_default :
      named_backend (dict_of payload) ≡ none
      → header_backend headers ≡ none
      → model_backend (dict_of payload) ≡ ok none
      → Chooses payload headers default default

-- A result is a backend that is chosen, or the `TypeError` of an unroutable request.
abbrev pub IsExplained : Json → List (Text × Text) → Text → Result TypeError Text → Type 0
IsExplained payload headers default r =
    ((b : Text) × (r ≡ ok b) × Chooses payload headers default b)
    ⊎ ((r ≡ err unhashable) × IsUnroutable payload headers)

or_default-IsExplained :
    (payload : Json) (headers : List (Text × Text)) (default : Text)
    (m : Result TypeError (Option Text))
    → named_backend (dict_of payload) ≡ none
    → header_backend headers ≡ none
    → model_backend (dict_of payload) ≡ m
    → IsExplained payload headers default (or_default default m)
or_default-IsExplained payload headers default (ok none) p h e =
    inl (default, refl, by_default p h e)
or_default-IsExplained payload headers default (ok (some b)) p h e = inl (b, refl, by_model p h e)
or_default-IsExplained payload headers default (err unhashable) p h e = inr (refl, (p, h, e))

or_model-IsExplained :
    (payload : Json) (headers : List (Text × Text)) (default : Text) (v : Option Text)
    → named_backend (dict_of payload) ≡ none
    → header_backend headers ≡ v
    → IsExplained payload headers default (or_model default (dict_of payload) v)
or_model-IsExplained payload headers default none p h =
    or_default-IsExplained payload headers default (model_backend (dict_of payload)) p h refl
or_model-IsExplained payload headers default (some b) p h = inl (b, refl, by_header p h)

or_header-IsExplained :
    (payload : Json) (headers : List (Text × Text)) (default : Text) (v : Option Text)
    → named_backend (dict_of payload) ≡ v
    → IsExplained payload headers default (or_header default (dict_of payload) headers v)
or_header-IsExplained payload headers default none p =
    or_model-IsExplained payload headers default (header_backend headers) p refl
or_header-IsExplained payload headers default (some b) p = inl (b, refl, by_payload p)

-- Every request is either routed, to the backend that the order of the sources gives, or it raises
-- the `TypeError`, and then no earlier source names a backend and the model is a list or a dict.
pub resolve_backend-IsExplained :
    (payload : Json) (headers : List (Text × Text)) (settings : Settings)
    → IsExplained payload headers
        (default_of settings.default_backend)
        (resolve_backend payload headers settings)
unfolding resolve_backend
resolve_backend-IsExplained payload headers settings =
    or_header-IsExplained payload headers (default_of settings.default_backend)
      (named_backend (dict_of payload)) refl

model_to_backend-IsBackend : (m b : Text) → model_to_backend m ≡ some b → IsBackend b
model_to_backend-IsBackend m b h = elim (Bool-cases (text_eq m llama_local)) [
  | inl e ↦ rw (← some-injective llamacpp b (rw e at h)) refl
  | inr e ↦ elim (Bool-cases (text_eq m llama_vllm)) [
    | inl f ↦ rw (← some-injective vllm b (rw (e, f) at h)) refl
    | inr f ↦
        let (_, same) = if-eq-some (text_eq m vllm_model) (some vllm) (rw (e, f) at h) in
        rw (← some-injective vllm b same) refl
  ]
]

model_in-IsBackend : (v : Option Json) (b : Text) → model_in v ≡ ok (some b) → IsBackend b
model_in-IsBackend none b h = cc
model_in-IsBackend (some (text m)) b h =
    model_to_backend-IsBackend m b (ok-injective {E = TypeError} h)
model_in-IsBackend (some null) b h = cc
model_in-IsBackend (some (boolean _)) b h = cc
model_in-IsBackend (some (number _)) b h = cc
model_in-IsBackend (some (array _)) b h = cc
model_in-IsBackend (some (object _)) b h = cc

model_backend-IsBackend :
    (d : Option Fields) (b : Text) → model_backend d ≡ ok (some b) → IsBackend b
model_backend-IsBackend none b h = cc
model_backend-IsBackend (some d) b h = model_in-IsBackend (field_of model_key d) b h

Chooses-IsBackend :
    (payload : Json) (headers : List (Text × Text)) (default b : Text)
    → IsBackend default
    → Chooses payload headers default b
    → IsBackend b
Chooses-IsBackend payload headers default b d (by_payload h) =
    named_backend-IsBackend (dict_of payload) b h
Chooses-IsBackend payload headers default b d (by_header _ h) =
    known_header-IsBackend (header_of (codes "X-Inference-Backend") headers) b h
Chooses-IsBackend payload headers default b d (by_model _ _ h) =
    model_backend-IsBackend (dict_of payload) b h
Chooses-IsBackend payload headers default b d (by_default _ _ _) = d

-- With a default that is one of the two backends, or empty, whatever a request is routed to is one
-- of the two backends.
pub resolve_backend-IsBackend :
    (payload : Json) (headers : List (Text × Text)) (settings : Settings) (b : Text)
    → IsBackend (default_of settings.default_backend)
    → resolve_backend payload headers settings ≡ ok b
    → IsBackend b
resolve_backend-IsBackend payload headers settings b d h =
    elim (resolve_backend-IsExplained payload headers settings) [
      | inl (c, e, chosen) ↦
          let same : c ≡ b = ok-injective {E = TypeError} (sym e ∙ h) in
          rw (← same)
            (Chooses-IsBackend payload headers (default_of settings.default_backend) c d chosen)
      | inr (e, _) ↦ cc
    ]
