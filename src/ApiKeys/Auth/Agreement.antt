-- ===== src/ApiKeys/Auth/Agreement.antt =====
-- The Django control plane and the FastAPI gateway admit the same requests.
use ai_inference_gateway_pla.Base.{
  ℕ, ◌≡◌, refl, ◌∙◌, Option, none, some, List, [], ◌∷◌, arith, Text, strip, strip_idem,
  strip_prefix, inl, inr, Option-cases,
}
use ai_inference_gateway_pla.Base.Result.{◌>>=◌, or_raise, to_option}
use ai_inference_gateway_pla.ApiKeys.Parsing.{parse_api_key}
use ai_inference_gateway_pla.ApiKeys.Parsing.RoundTrip.{gateway_parse-eq}
use ai_inference_gateway_pla.ApiKeys.Model.{ApiKey, Secrets, or_else}
use ai_inference_gateway_pla.ApiKeys.Auth.{
  AuthHeaders, bearer_prefix, extract_bearer_token, resolve_token, resolve_bearer_api_key,
  check_key, check_found, invalid_api_key, HttpException, require_token, strip_some, ApiKeyContext,
  context_of, verify_bearer_token, require_api_key,
}
use ai_inference_gateway_pla.ApiKeys.Auth.Tables.{
  IsUnique, by_public_id, active, load_active_key-eq,
}

abbrev pub map_context : Option ApiKey → Option ApiKeyContext
map_context none = none
map_context (some k) = some (context_of k)

-- The header as both programs get it.
abbrev pub only_header : Text → AuthHeaders
only_header h = record { authorization = some h; http_authorization = none }

module _ (hmac : Text → Text → Text) (secrets : Secrets) (keys : List ApiKey) (now : ℕ) where
  -- From the row on, with one token.
  found_agrees :
      (t p : Text) (o : Option ApiKey)
      → check_found hmac secrets now (record { public_id = p; raw_token = t }) o
        ≡ map_context
            (to_option (or_raise (active o) invalid_api_key >>= check_key hmac secrets now t))
  unfolding check_found check_key
  found_agrees t p none = refl
  found_agrees t p (some k) = ground arith

  -- A token that is stripped already gets the same answer.
  token_agrees :
      (t : Text)
      → IsUnique keys
      → strip t ≡ t
      → verify_bearer_token hmac secrets keys now t
        ≡ map_context (to_option (resolve_token hmac secrets keys now t))
  unfolding verify_bearer_token resolve_token
  token_agrees t u e = elim (Option-cases (parse_api_key t)) [
    | inl bad ↦ rw (gateway_parse-eq t, bad, verify_bearer_token, resolve_token) refl
    | inr (p, good) ↦
        rw (gateway_parse-eq t, good, verify_bearer_token, resolve_token)
          (rw (e, load_active_key-eq p.public_id keys u)
            (found_agrees t p.public_id (by_public_id p.public_id keys)))
  ]

  to_option-or_raise : (o : Option ApiKeyContext) (e : HttpException) → to_option (or_raise o e) ≡ o
  to_option-or_raise none e = refl
  to_option-or_raise (some c) e = refl

  nonempty_agrees :
      (t : Text)
      → IsUnique keys
      → strip t ≡ t
      → verify_bearer_token hmac secrets keys now t
        ≡ map_context (to_option (require_token (some t) >>= resolve_token hmac secrets keys now))
  nonempty_agrees [] u e = token_agrees [] u e ∙ (unfold resolve_token parse_api_key strip in refl)
  nonempty_agrees (c ∷ t) u e = token_agrees (c ∷ t) u e

  or_else-nil : (h : Text) → or_else h [] ≡ h
  or_else-nil [] = refl
  or_else-nil (c ∷ h) = refl

  extract-only_header :
      (h : Text)
      → strip h ≡ h
      → extract_bearer_token (only_header h) ≡ strip_some (strip_prefix bearer_prefix h)
  unfolding extract_bearer_token
  extract-only_header h e = rw (or_else-nil h, e)

  header_agrees :
      (o : Option Text) (missing invalid : HttpException)
      → IsUnique keys
      → to_option (
          or_raise (strip_some o) missing >>= λ token.
          or_raise (verify_bearer_token hmac secrets keys now token) invalid)
        ≡ map_context
            (to_option (require_token (strip_some o) >>= resolve_token hmac secrets keys now))
  header_agrees none missing invalid u = refl
  header_agrees (some r) missing invalid u =
      to_option-or_raise (verify_bearer_token hmac secrets keys now (strip r)) invalid
      ∙ nonempty_agrees (strip r) u (strip_idem r)

  -- With unique public ids, the gateway admits a request exactly if Django does, for the same key:
  -- for every header value without white space around it the context that the gateway returns is
  -- that of the key that Django resolves, and one refuses where the other does.
  pub require_api_key-agrees :
      (h : Text)
      → IsUnique keys
      → strip h ≡ h
      → to_option (require_api_key hmac secrets keys now (some h))
        ≡ map_context (to_option (resolve_bearer_api_key hmac secrets keys now (only_header h)))
  unfolding require_api_key resolve_bearer_api_key
  require_api_key-agrees h u e =
      rw (extract-only_header h e, resolve_bearer_api_key)
        (header_agrees (strip_prefix bearer_prefix h) _ _ u)
