-- ===== src/ApiKeys/Model.antt =====
-- apps/api_keys/models.py, and the digests of apps/api_keys/crypto.py. A time is a number (the
-- microseconds since an epoch), a primary key is a number.
use ai_inference_gateway_pla.Base.{
  ℕ, Option, Text, Bool, true, false, none, some, [], ◌∷◌, text_eq, leb,
}

-- `APIKey`
pub record ApiKey : Type 0 where
  pub id : ℕ
  pub user : ℕ
  pub public_id : Text
  pub secret_hash : Text
  pub label : Text
  pub created_at : ℕ
  pub expires_at : Option ℕ
  pub revoked_at : Option ℕ
  pub last_used_at : Option ℕ
  pub rate_limit_rpm : ℕ
  pub requests_count : ℕ
  pub prompt_tokens_total : ℕ
  pub completion_tokens_total : ℕ

-- `APIKeyAuditLog`, without the id and the time that the table adds
pub record AuditEntry : Type 0 where
  pub actor : Option ℕ
  pub action : Text
  pub api_key : Option ℕ
  pub api_key_public_id : Text
  pub message : Text

-- The settings that the digests are keyed by.
pub record Secrets : Type 0 where
  pub api_key_hmac_pepper : Text
  pub secret_key : Text

-- `a or b` of two strings.
abbrev pub or_else : Text → Text → Text
or_else [] b = b
or_else (c ∷ a) b = c ∷ a

-- `_pepper_bytes`
abbrev pub pepper_bytes : Secrets → Text
pepper_bytes s = or_else s.api_key_hmac_pepper s.secret_key

-- `hmac` is HMAC-SHA256 in hexadecimal, of a key and a message.
module _ (hmac : Text → Text → Text) where
  -- `hash_api_key`
  abbrev pub hash_api_key : Secrets → Text → Text
  hash_api_key s raw_key = hmac (pepper_bytes s) raw_key

  -- `hash_api_key_hex` of the gateway
  abbrev pub hash_api_key_hex : Text → Text → Text → Text
  hash_api_key_hex raw_key pepper secret_key = hmac (or_else pepper secret_key) raw_key

-- `hmac.compare_digest`
abbrev pub timing_safe_equal : Text → Text → Bool
timing_safe_equal = text_eq

abbrev pub is_none {ℓ} : {A : Type ℓ} → Option A → Bool
is_none none = true
is_none (some a) = false

-- `expires_at is not None and expires_at <= now`
abbrev pub expired : Option ℕ → ℕ → Bool
expired none now = false
expired (some t) now = leb t now
