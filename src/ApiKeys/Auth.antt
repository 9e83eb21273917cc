-- ===== src/ApiKeys/Auth.antt =====
-- apps/api_keys/services/auth.py, and `require_api_key` with what it calls of
-- deploy/gateway/gateway/main.py and deploy/gateway/gateway/crypto_auth.py. Both read one table.
-- HMAC-SHA256 is the parameter `hmac`. The digests that a miss computes only to take the same time
-- do not change the result, and are left out.
pub mod Tables
pub mod Acceptance
pub mod Agreement
use ai_inference_gateway_pla.Base.{
  ℕ, Bool, true, false, ◌&&◌, Option, none, some, List, [], ◌∷◌, Text, String, codes, strip,
  strip_prefix, first, if◌then◌else◌, text_eq,
}
use ai_inference_gateway_pla.Base.Result.{Result, ok, err, ◌>>=◌, or_raise}
use ai_inference_gateway_pla.ApiKeys.Parsing.{
  ParsedApiKey, ParsedToken, parse_api_key, gateway_parse_api_key,
}
use ai_inference_gateway_pla.ApiKeys.Model.{
  ApiKey, Secrets, hash_api_key, hash_api_key_hex, timing_safe_equal, is_none, expired, or_else,
}

-- `APIKeyAuthError`, by its message; the status is 401 at each.
pub data AuthError : Type 0 where
  missing_bearer_token malformed_api_key invalid_api_key api_key_expired : AuthError

-- The two places where a request may hold the header.
pub record AuthHeaders : Type 0 where
  pub authorization : Option Text
  pub http_authorization : Option Text

abbrev text_or : Option Text → Text → Text
text_or none b = b
text_or (some a) b = or_else a b

abbrev pub bearer_prefix : Text
bearer_prefix = codes "Bearer "

abbrev strip_some : Option Text → Option Text
strip_some none = none
strip_some (some t) = some (strip t)

-- `_extract_bearer_token`
unfoldable pub extract_bearer_token : AuthHeaders → Option Text
extract_bearer_token r =
    strip_some (
      strip_prefix bearer_prefix
        (strip (text_or r.authorization (text_or r.http_authorization []))))

-- The columns by which both programs look a key up.
abbrev pub has_public_id : Text → ApiKey → Bool
has_public_id p k = text_eq k.public_id p

-- `_load_active_key`
unfoldable pub load_active_key : List ApiKey → Text → Option ApiKey
load_active_key keys public_id = first (λ k. has_public_id public_id k && is_none k.revoked_at) keys

-- `if not token: raise …`; no header is no token either.
abbrev require_token : Option Text → Result AuthError Text
require_token none = err missing_bearer_token
require_token (some []) = err missing_bearer_token
require_token (some (c ∷ t)) = ok (c ∷ t)

module _ (hmac : Text → Text → Text) (secrets : Secrets) where
  check_key : ℕ → Text → ApiKey → Result AuthError ApiKey
  check_key now token key =
      if expired key.expires_at now
      then err api_key_expired
      else if timing_safe_equal key.secret_hash (hash_api_key hmac secrets token)
      then ok key
      else err invalid_api_key

  -- `resolve_bearer_api_key`, from the token on
  unfoldable pub resolve_token : List ApiKey → ℕ → Text → Result AuthError ApiKey
  unfolding check_key load_active_key
  resolve_token keys now token = do
    parsed ← or_raise (parse_api_key token) malformed_api_key
    key ← or_raise (load_active_key keys parsed.public_id) invalid_api_key
    check_key now token key

  unfoldable pub resolve_bearer_api_key : List ApiKey → ℕ → AuthHeaders → Result AuthError ApiKey
  unfolding extract_bearer_token resolve_token
  resolve_bearer_api_key keys now request = do
    token ← require_token (extract_bearer_token request)
    resolve_token keys now token

  -- `resolve_bearer_api_key_sync`, which makes the query itself
  unfoldable pub resolve_bearer_api_key_sync :
      List ApiKey → ℕ → AuthHeaders → Result AuthError ApiKey
  unfolding extract_bearer_token check_key
  resolve_bearer_api_key_sync keys now request = do
    token ← require_token (extract_bearer_token request)
    parsed ← or_raise (parse_api_key token) malformed_api_key
    key ←
        or_raise (first (λ k. has_public_id parsed.public_id k && is_none k.revoked_at) keys)
          invalid_api_key
    check_key now token key

-- `APIKeyContext`
pub record ApiKeyContext : Type 0 where
  pub id : ℕ
  pub user_id : ℕ
  pub rate_limit_rpm : ℕ

abbrev pub context_of : ApiKey → ApiKeyContext
context_of k = record { id = k.id; user_id = k.user; rate_limit_rpm = k.rate_limit_rpm }

-- `HTTPException`
pub data HttpException : Type 0 where
  http_exception : ℕ → String → HttpException

-- `_parse_bearer`
unfoldable pub parse_bearer : Option Text → Result HttpException Text
parse_bearer none = err (http_exception 401 "Missing or invalid Authorization header")
parse_bearer (some h) =
    or_raise (strip_some (strip_prefix bearer_prefix h))
      (http_exception 401 "Missing or invalid Authorization header")

module _ (hmac : Text → Text → Text) (secrets : Secrets) where
  check_row : ℕ → ParsedToken → ApiKey → Option ApiKeyContext
  check_row now parsed row =
      let actual_hex =
        hash_api_key_hex hmac parsed.raw_token secrets.api_key_hmac_pepper secrets.secret_key in
      if is_none row.revoked_at
      then if expired row.expires_at now
        then none
        else if timing_safe_equal row.secret_hash actual_hex
        then some (context_of row)
        else none
      else none

  check_found : ℕ → ParsedToken → Option ApiKey → Option ApiKeyContext
  unfolding check_row
  check_found now parsed none = none
  check_found now parsed (some row) = check_row now parsed row

  -- `verify_bearer_token`; the query is by the public id alone.
  unfoldable pub verify_bearer_token : List ApiKey → ℕ → Text → Option ApiKeyContext
  unfolding check_found
  verify_bearer_token keys now token = elim (gateway_parse_api_key token) [
    | none ↦ none
    | some parsed ↦ check_found now parsed (first (has_public_id parsed.public_id) keys)
  ]

  -- `require_api_key`
  unfoldable pub require_api_key :
      List ApiKey → ℕ → Option Text → Result HttpException ApiKeyContext
  unfolding parse_bearer verify_bearer_token
  require_api_key keys now authorization = do
    token ← parse_bearer authorization
    or_raise (verify_bearer_token keys now token) (http_exception 401 "Invalid API key")
