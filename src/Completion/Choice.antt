-- ===== src/Completion/Choice.antt =====
-- The backend and the number of tokens that a request is sent on with.
use ai_inference_gateway_pla.Base.{
  ℕ, ◌≤◌, ◌≡◌, refl, Bool, true, ◌||◌, Option, none, some, [], ◌∷◌, Text, codes, text_eq, arith,
  if◌then◌else◌, Bool-cases, inl, inr,
}
use ai_inference_gateway_pla.ApiKeys.Model.{or_else}
use ai_inference_gateway_pla.Completion.Request.{
  ChatCompletionRequest, apply_defaults_and_clamp, llamacpp, vllm, named_or, model_backend,
  choose_backend,
}

abbrev pub is_backend : Text → Bool
is_backend b = text_eq b (codes "llamacpp") || text_eq b (codes "vllm")

known :
    (raw : Text)
    → is_backend (if text_eq raw llamacpp || text_eq raw vllm then raw else llamacpp) ≡ true
known raw = elim (Bool-cases (text_eq raw llamacpp || text_eq raw vllm)) [
  | inl t ↦ rw t t
  | inr f ↦ rw f refl
]

-- Whatever the request names and whatever the default is set to, the backend is one of the two; and
-- one of the two that the request names itself is taken.
pub choose_backend-known :
    (default : Text) (req : ChatCompletionRequest)
    → (is_backend (choose_backend default req) ≡ true)
      × ((b : Text) → req.backend ≡ some b → is_backend b ≡ true → choose_backend default req ≡ b)
unfolding choose_backend
choose_backend-known default req =
    (known (or_else (named_or req.backend (model_backend req.model)) default), named)
  where
    chosen :
        (b : Text)
        → is_backend b ≡ true
        → (if text_eq (or_else (or_else b (model_backend req.model)) default) llamacpp
              || text_eq (or_else (or_else b (model_backend req.model)) default) vllm
            then or_else (or_else b (model_backend req.model)) default
            else llamacpp)
          ≡ b
    chosen [] h = cc
    chosen (c ∷ b) h = rw h refl

    named : (b : Text) → req.backend ≡ some b → is_backend b ≡ true → choose_backend default req ≡ b
    named b e h = rw (choose_backend, e) (chosen b h)

-- The number of tokens is the default if none is asked for, else what is asked for, cut to the hard
-- limit; so it is within the hard limit if the default is, and it is at least 1 if what is asked
-- for, the default and the hard limit are.
pub apply_defaults_and_clamp-bounds :
    (hard_max default_max : ℕ) (max_tokens : Option ℕ)
    → default_max ≤ hard_max
    → 1 ≤ default_max
    → ((n : ℕ) → max_tokens ≡ some n → 1 ≤ n)
    → (apply_defaults_and_clamp hard_max default_max max_tokens ≤ hard_max)
      × (1 ≤ apply_defaults_and_clamp hard_max default_max max_tokens)
      × ((n : ℕ)
          → max_tokens ≡ some n
          → n ≤ hard_max
          → apply_defaults_and_clamp hard_max default_max max_tokens ≡ n)
unfolding apply_defaults_and_clamp
apply_defaults_and_clamp-bounds hard default none h d v = (h, d, λ n e _. cc)
apply_defaults_and_clamp-bounds hard default (some m) h d v =
    let one = v m refl in (omega arith, omega arith, λ n e le. ground arith)
