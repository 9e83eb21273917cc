-- ===== src/Routing/Rules.antt =====
-- The rules by which a request is routed.
use ai_inference_gateway_pla.Base.{◌≡◌, Option, none, some, List, Text}
use ai_inference_gateway_pla.Base.Result.{Result, ok, err}
use ai_inference_gateway_pla.Routing.Value.{Json, text}
use ai_inference_gateway_pla.Routing.{TypeError, unhashable}
use ai_inference_gateway_pla.Routing.Named.{
  Serves, PayloadNames, HeaderNames, ModelNames, IsUnhashable, HasUnhashable, Nobody, IsDefault,
}

-- What a request is routed to: the backend that the payload names, else the header, else the payload's
-- model, else the default; and the `TypeError` where it is the model's turn, and that is a list or a
-- dict.
pub data IsRouted (payload : Json) (headers : List (Text × Text)) (setting : Text)
    : Result TypeError Text → Type 0 where
  payload_names : {b : Text} → PayloadNames payload b → IsRouted payload headers setting (ok b)
  header_names :
      {b : Text}
      → Nobody (PayloadNames payload)
      → HeaderNames headers b
      → IsRouted payload headers setting (ok b)
  model_names :
      {b : Text}
      → Nobody (PayloadNames payload)
      → Nobody (HeaderNames headers)
      → ModelNames payload b
      → IsRouted payload headers setting (ok b)
  default_names :
      {b : Text}
      → Nobody (PayloadNames payload)
      → Nobody (HeaderNames headers)
      → Nobody (ModelNames payload)
      → (HasUnhashable payload → ⊥)
      → IsDefault setting b
      → IsRouted payload headers setting (ok b)
  no_hash :
      Nobody (PayloadNames payload)
      → Nobody (HeaderNames headers)
      → HasUnhashable payload
      → IsRouted payload headers setting (err unhashable)

-- What the look-up of a model says of it.
abbrev Says : Option Json → Result TypeError (Option Text) → Type 0
Says v (ok (some b)) = (m : Text) × (v ≡ some (text m)) × Serves m b
Says v (ok none) = ((m b : Text) → v ≡ some (text m) → Serves m b → ⊥) × (IsUnhashable v → ⊥)
Says v (err unhashable) = IsUnhashable v

-- What the payload says of its model, in terms of the look-up.
abbrev Tells : Json → Result TypeError (Option Text) → Type 0
Tells payload (ok (some b)) = ModelNames payload b
Tells payload (ok none) = Nobody (ModelNames payload) × (HasUnhashable payload → ⊥)
Tells payload (err unhashable) = HasUnhashable payload
