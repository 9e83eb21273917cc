-- ===== src/Routing/Headers.antt =====
-- The header `X-Inference-Backend`. The server's mapping of a request's headers, of which
-- `chat_completions` makes a dict, has every name in lower case.
use ai_inference_gateway_pla.Base.{
  ◌≡◌, refl, Bool, true, ◌&&◌, Option, none, some, List, [], ◌∷◌, Text, codes, text_eq, text_eq→eq,
  Bool-cases, inl, inr, All, leb, not,
}
use ai_inference_gateway_pla.Routing.Value.{Json}
use ai_inference_gateway_pla.Routing.{
  Settings, dict_of, header_of, named_backend, or_header, resolve_backend, default_of,
}

-- No letter from `A` to `Z`.
abbrev pub is_lower : Text → Bool
is_lower [] = true
is_lower (c ∷ s) = not (leb 65 c && leb c 90) && is_lower s

abbrev pub IsLowerCased : List (Text × Text) → Type 0
IsLowerCased headers = All (λ (h : Text × Text). is_lower h.0 ≡ true) headers

header_of-lower :
    (headers : List (Text × Text))
    → IsLowerCased headers
    → header_of (codes "X-Inference-Backend") headers ≡ none
header_of-lower [] h = refl
header_of-lower ((n, v) ∷ rest) (low, h) =
    elim (Bool-cases (text_eq n (codes "X-Inference-Backend"))) [
      | inl e ↦
          let upper : is_lower (codes "X-Inference-Backend") ≡ true =
            rw (text_eq→eq n (codes "X-Inference-Backend") e) at low in
          cc
      | inr e ↦ rw e (header_of-lower rest h)
    ]

-- With header names in lower case no header has any effect on the backend that is chosen.
pub resolve_backend-ignores_headers :
    (payload : Json) (headers : List (Text × Text)) (settings : Settings)
    → IsLowerCased headers
    → resolve_backend payload headers settings ≡ resolve_backend payload [] settings
unfolding resolve_backend
resolve_backend-ignores_headers payload headers settings low =
    ignored (named_backend (dict_of payload))
  where
    ignored :
        (v : Option Text)
        → or_header (default_of settings.default_backend) (dict_of payload) headers v
          ≡ or_header (default_of settings.default_backend) (dict_of payload) [] v
    ignored none = rw (or_header, header_of-lower headers low) refl
    ignored (some b) = refl
