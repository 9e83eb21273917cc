-- ===== src/Routing/Named.antt =====
-- What the payload, the headers and the default name as the backend, in terms of their own text.
use mathlib.Core.Option.{some-injective}
use ai_inference_gateway_pla.Base.{
  ◌≡◌, ◌≢◌, refl, sym, ap, subst, ◌∙◌, true, Option, none, some, List, [], Text, codes, text_eq,
  text_eq→eq, if-eq-some, Bool-cases, inl, inr, ◌⊎◌,
}
use ai_inference_gateway_pla.Routing.Value.{
  Json, null, boolean, number, text, array, object, Items, Fields, no_fields, field, field_of,
}
use ai_inference_gateway_pla.Routing.{
  llamacpp, vllm, backend_key, llama_local, llama_vllm, vllm_model, is_backend, backend_in, dict_of,
  header_of, model_to_backend, named_backend, known_header, header_backend,
}

-- The two backends.
abbrev pub IsName : Text → Type 0
IsName b = (b ≡ codes "llamacpp") ⊎ (b ≡ codes "vllm")

-- The backend that serves a model.
abbrev pub Serves : Text → Text → Type 0
Serves model b =
    ((model ≡ codes "llama-local") × (b ≡ codes "llamacpp"))
    ⊎ ((model ≡ codes "llama-vllm") × (b ≡ codes "vllm"))
    ⊎ ((model ≡ codes "vllm-model") × (b ≡ codes "vllm"))

abbrev pub PayloadNames : Json → Text → Type 0
PayloadNames payload b =
    (d : Fields) × (payload ≡ object d) × (field_of (codes "backend") d ≡ some (text b)) × IsName b

abbrev pub HeaderNames : List (Text × Text) → Text → Type 0
HeaderNames headers b = (header_of (codes "X-Inference-Backend") headers ≡ some b) × IsName b

abbrev pub ModelNames : Json → Text → Type 0
ModelNames payload b =
    (d : Fields) × (model : Text) × (payload ≡ object d)
    × (field_of (codes "model") d ≡ some (text model))
    × Serves model b

-- A model that is a list or a dict.
abbrev pub IsUnhashable : Option Json → Type 0
IsUnhashable v =
    ((items : Items) × (v ≡ some (array items))) ⊎ ((fields : Fields) × (v ≡ some (object fields)))

abbrev pub HasUnhashable : Json → Type 0
HasUnhashable payload =
    (d : Fields) × (payload ≡ object d) × IsUnhashable (field_of (codes "model") d)

abbrev pub Nobody : (Text → Type 0) → Type 0
Nobody names = (b : Text) → names b → ⊥

abbrev pub IsDefault : Text → Text → Type 0
IsDefault setting b = ((setting ≡ []) × (b ≡ codes "llamacpp")) ⊎ ((setting ≢ []) × (b ≡ setting))

is_backend-IsName : (t : Text) → is_backend t ≡ true → IsName t
is_backend-IsName t h = elim (Bool-cases (text_eq t llamacpp)) [
  | inl e ↦ inl (text_eq→eq t llamacpp e)
  | inr e ↦ inr (text_eq→eq t vllm (rw e at h))
]

IsName-is_backend : (t : Text) → IsName t → is_backend t ≡ true
IsName-is_backend t (inl e) = rw e refl
IsName-is_backend t (inr e) = rw e refl

backend_in-names :
    (v : Option Json) (b : Text) → backend_in v ≡ some b → (v ≡ some (text b)) × IsName b
backend_in-names none b h = cc
backend_in-names (some (text t)) b h =
    let (e, same) = if-eq-some (is_backend t) (some t) h in
    let equal : t ≡ b = some-injective t b same in
    (ap (λ x. some (text x)) equal, subst IsName equal (is_backend-IsName t e))
backend_in-names (some null) b h = cc
backend_in-names (some (boolean _)) b h = cc
backend_in-names (some (number _)) b h = cc
backend_in-names (some (array _)) b h = cc
backend_in-names (some (object _)) b h = cc

known_name : (b : Text) → IsName b → backend_in (some (text b)) ≡ some b
known_name b n = rw (IsName-is_backend b n) refl

pub named-PayloadNames :
    (payload : Json) (b : Text) → named_backend (dict_of payload) ≡ some b → PayloadNames payload b
named-PayloadNames (object no_fields) b h = cc
named-PayloadNames (object (field k v rest)) b h =
    let (e, n) = backend_in-names (field_of backend_key (field k v rest)) b h in
    (field k v rest, refl, e, n)
named-PayloadNames null b h = cc
named-PayloadNames (boolean _) b h = cc
named-PayloadNames (number _) b h = cc
named-PayloadNames (text _) b h = cc
named-PayloadNames (array _) b h = cc

fields-named :
    (d : Fields) (b : Text)
    → field_of (codes "backend") d ≡ some (text b)
    → IsName b
    → named_backend (dict_of (object d)) ≡ some b
fields-named no_fields b h n = cc
fields-named (field k v rest) b h n = ap backend_in h ∙ known_name b n

pub no-PayloadNames :
    (payload : Json) → named_backend (dict_of payload) ≡ none → Nobody (PayloadNames payload)
no-PayloadNames payload h b (d, e, f, n) =
    let never : none ≡ some b =
      sym h ∙ ap (λ j. named_backend (dict_of j)) e ∙ fields-named d b f n in
    cc

pub header-HeaderNames :
    (headers : List (Text × Text)) (b : Text) (v : Option Text)
    → header_of (codes "X-Inference-Backend") headers ≡ v
    → known_header v ≡ some b
    → HeaderNames headers b
header-HeaderNames headers b none e h = cc
header-HeaderNames headers b (some t) e h =
    let (n, same) = if-eq-some (is_backend t) (some t) h in
    let equal : t ≡ b = some-injective t b same in
    (e ∙ ap (λ x. some x) equal, subst IsName equal (is_backend-IsName t n))

pub no-HeaderNames :
    (headers : List (Text × Text)) → header_backend headers ≡ none → Nobody (HeaderNames headers)
no-HeaderNames headers h b (e, n) =
    let never : none ≡ some b = sym h ∙ ap known_header e ∙ known_name b n in cc

pub model-Serves : (m b : Text) → model_to_backend m ≡ some b → Serves m b
model-Serves m b h = elim (Bool-cases (text_eq m llama_local)) [
  | inl e ↦ inl (text_eq→eq m llama_local e, sym (some-injective llamacpp b (rw e at h)))
  | inr e ↦ elim (Bool-cases (text_eq m llama_vllm)) [
    | inl f ↦ inr (inl (text_eq→eq m llama_vllm f, sym (some-injective vllm b (rw (e, f) at h))))
    | inr f ↦
        let (g, same) = if-eq-some (text_eq m vllm_model) (some vllm) (rw (e, f) at h) in
        inr (inr (text_eq→eq m vllm_model g, sym (some-injective vllm b same)))
  ]
]

pub Serves-model : (m b : Text) → Serves m b → model_to_backend m ≡ some b
Serves-model m b (inl (e, f)) = rw (e, f) refl
Serves-model m b (inr (inl (e, f))) = rw (e, f) refl
Serves-model m b (inr (inr (e, f))) = rw (e, f) refl
