-- ===== src/Routing/Forward.antt =====
-- What the backend is sent.
use mathlib.Core.Option.{some-injective}
use ai_inference_gateway_pla.Base.{
  ◌≡◌, ◌≢◌, refl, ap, ◌∙◌, Bool, true, false, ◌&&◌, none, some, Text, text_eq, if◌then◌else◌,
  Bool-cases, inl, inr,
}
use ai_inference_gateway_pla.Routing.Value.{
  Json, text, Fields, field_of, set_field, field_of-without, field_of-without_other,
  field_of-set_field, field_of-set_field_other,
}
use ai_inference_gateway_pla.Routing.{
  llamacpp, vllm, backend_key, model_key, llama_local, vllm_model, dict_of, model_to_backend,
  strip_backend_field, model_text, one_of, vllm_aliases, llamacpp_aliases, translate_model,
  forwarded_payload,
}
use ai_inference_gateway_pla.Routing.Named.{Serves, model-Serves}

-- A branch that sets the model or leaves the dict keeps every other field.
set_if-other :
    (key : Text) (v : Json) (d : Fields) (c : Bool)
    → model_key ≢ key
    → field_of key (if c then set_field model_key v d else d) ≡ field_of key d
set_if-other key v d true apart = field_of-set_field_other model_key key v d apart
set_if-other key v d false apart = refl

translate_model-other :
    (backend key : Text) (d : Fields)
    → model_key ≢ key
    → field_of key (translate_model backend d) ≡ field_of key d
unfolding translate_model
translate_model-other backend key d apart = elim (Bool-cases (text_eq backend vllm)) [
  | inl e ↦
      rw (translate_model, e)
        (set_if-other key (text vllm_model) d
          (one_of vllm_aliases (model_text (field_of model_key d))) apart)
  | inr e ↦
      rw (translate_model, e)
        (set_if-other key (text llama_local) d
          (text_eq backend llamacpp && one_of llamacpp_aliases (model_text (field_of model_key d)))
          apart)
]

backend_ne : model_key ≢ backend_key
backend_ne e = cc

-- A payload that is written anew has no backend field, whatever it had, and every other field but
-- the model is as it was.
pub forwarded_payload-fields :
    (backend key : Text) (payload : Json) (d d' : Fields)
    → dict_of payload ≡ some d
    → forwarded_payload backend payload ≡ some d'
    → (field_of backend_key d' ≡ none)
      × (backend_key ≢ key → model_key ≢ key → field_of key d' ≡ field_of key d)
unfolding forwarded_payload
forwarded_payload-fields backend key payload d d' e h =
    let same : translate_model backend (strip_backend_field d) ≡ d' =
      some-injective _ d' (rw e at h) in
    rw (← same) (
      translate_model-other backend backend_key (strip_backend_field d) backend_ne
          ∙ field_of-without backend_key d,
      λ p q.
          translate_model-other backend key (strip_backend_field d) q
          ∙ field_of-without_other backend_key key d p,
    )

-- The name under which a backend serves its model.
abbrev pub served_model : Text → Text
served_model backend = if text_eq backend vllm then vllm_model else llama_local

translated :
    (d : Fields) (m b : Text)
    → field_of model_key d ≡ some (text m)
    → Serves m b
    → field_of model_key (translate_model b d) ≡ some (text (served_model b))
unfolding translate_model
translated d m b h (inl (em, eb)) =
    let q = h ∙ ap (λ x. some (text x)) em in rw (eb, translate_model, q) q
translated d m b h (inr (inl (em, eb))) =
    let q = h ∙ ap (λ x. some (text x)) em in
    rw (eb, translate_model, q) (field_of-set_field model_key (text vllm_model) d)
translated d m b h (inr (inr (em, eb))) =
    let q = h ∙ ap (λ x. some (text x)) em in rw (eb, translate_model, q) q

model_ne : backend_key ≢ model_key
model_ne e = cc

-- A model that the table routes is sent to its backend under the name that the backend serves.
pub forwarded_payload-model :
    (payload : Json) (d d' : Fields) (m backend : Text)
    → dict_of payload ≡ some d
    → field_of model_key d ≡ some (text m)
    → model_to_backend m ≡ some backend
    → forwarded_payload backend payload ≡ some d'
    → field_of model_key d' ≡ some (text (served_model backend))
unfolding forwarded_payload
forwarded_payload-model payload d d' m backend e f r h =
    let cleaned = strip_backend_field d in
    let kept = field_of-without_other backend_key model_key d model_ne ∙ f in
    let same : translate_model backend cleaned ≡ d' = some-injective _ d' (rw e at h) in
    rw (← same) (translated cleaned m backend kept (model-Serves m backend r))
