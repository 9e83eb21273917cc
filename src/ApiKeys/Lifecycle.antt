-- ===== src/ApiKeys/Lifecycle.antt =====
-- apps/api_keys/services/keys.py and audit.py, apps/inference/services/usage.py, and the gateway's
-- `touch_api_key_used`: what creates, changes and deletes the rows of the two tables.
-- The random texts of `secrets.token_hex`, a new primary key and the present time are arguments.
pub mod Rows
pub mod Unique
pub mod Secrecy
pub mod Audit
use ai_inference_gateway_pla.Base.{
  ℕ, zero, suc, ◌+◌, Bool, true, false, ◌||◌, Option, none, some, List, [], ◌∷◌, ◌++◌, Text, codes,
  first, keep, if◌then◌else◌, ◌==◌, not, map,
}
use ai_inference_gateway_pla.Base.Int.{ℤ, max_zero}
use ai_inference_gateway_pla.Base.Result.{Result, ok, err, ◌>>=◌, or_raise}
use ai_inference_gateway_pla.ApiKeys.Parsing.{format_raw_api_key}
use ai_inference_gateway_pla.ApiKeys.Model.{ApiKey, AuditEntry, Secrets, hash_api_key, or_else}
use ai_inference_gateway_pla.ApiKeys.Auth.{has_public_id}

-- The two tables.
pub record KeyStore : Type 0 where
  pub keys : List ApiKey
  pub audit : List AuditEntry

-- `CreatedAPIKey`
pub record CreatedApiKey : Type 0 where
  pub raw_key : Text
  pub api_key : ApiKey

-- The `RuntimeError` of `create_api_key`.
pub data CreateError : Type 0 where
  no_unique_public_id : CreateError

abbrev public_id_of : Option ApiKey → Text
public_id_of none = []
public_id_of (some k) = k.public_id

abbrev pk_of : Option ApiKey → Option ℕ
pk_of none = none
pk_of (some k) = some k.id

-- `write_audit`
unfoldable pub write_audit : Text → Option ℕ → Option ApiKey → Text → Text → KeyStore → KeyStore
write_audit action actor api_key api_key_public_id message st = record st {
  audit =
      st.audit
      ++ record {
        actor = actor;
        action = action;
        api_key = pk_of api_key;
        api_key_public_id = or_else api_key_public_id (public_id_of api_key);
        message = message;
      }
        ∷ [];
}

-- `APIKey.objects.filter(public_id=public_id).exists()`
abbrev pub exists : List ApiKey → Text → Bool
exists keys public_id = elim (first (has_public_id public_id) keys) [ none ↦ false | some _ ↦ true ]

-- The loop of `create_api_key`, with the rounds that are left; `draw i` is the text that round `i`
-- draws. The `else` of the loop is `none`.
unfoldable pub allocate : List ApiKey → (ℕ → Text) → ℕ → ℕ → Option Text
allocate keys draw zero i = none
allocate keys draw (suc n) i =
    let later = allocate keys draw n (i + 1) in
    if exists keys (draw i) then later else some (draw i)

-- What `create_api_key` is called with, and what it draws.
pub record CreateArgs : Type 0 where
  pub owner : ℕ
  pub actor : ℕ
  pub label : Text
  pub expires_at : Option ℕ
  pub rate_limit_rpm : ℕ
  pub draw : ℕ → Text
  pub secret_component : Text
  pub pk : ℕ
  pub now : ℕ

module _ (hmac : Text → Text → Text) (secrets : Secrets) where
  abbrev pub new_key : CreateArgs → Text → ApiKey
  new_key a public_id = record {
    id = a.pk;
    user = a.owner;
    public_id = public_id;
    secret_hash = hash_api_key hmac secrets (format_raw_api_key public_id a.secret_component);
    label = a.label;
    created_at = a.now;
    expires_at = a.expires_at;
    revoked_at = none;
    last_used_at = none;
    rate_limit_rpm = a.rate_limit_rpm;
    requests_count = 0;
    prompt_tokens_total = 0;
    completion_tokens_total = 0;
  }

  abbrev insert_key : ApiKey → KeyStore → KeyStore
  insert_key key st = record st { keys = st.keys ++ key ∷ [] }

  -- `create_api_key` from the public id on
  pub store_key : CreateArgs → Text → KeyStore → CreatedApiKey × KeyStore
  unfolding write_audit
  store_key a public_id st =
      let key = new_key a public_id in
      (
        record { raw_key = format_raw_api_key public_id a.secret_component; api_key = key },
        write_audit (codes "api_key.created") (some a.actor) (some key) [] a.label
            (insert_key key st),
      )

  -- `create_api_key`; both rows are written in one transaction.
  unfoldable pub create_api_key :
      CreateArgs → KeyStore → Result CreateError (CreatedApiKey × KeyStore)
  unfolding write_audit store_key
  create_api_key a st = do
    public_id ← or_raise (allocate st.keys a.draw 5 0) no_unique_public_id
    ok (store_key a public_id st)

-- An `UPDATE … WHERE id = pk`.
pub update_key : ℕ → (ApiKey → ApiKey) → List ApiKey → List ApiKey
update_key pk f = map (λ k. if k.id == pk then f k else k)

abbrev pub set_revoked : ℕ → ApiKey → ApiKey
set_revoked now k = record k { revoked_at = some now }

abbrev pub has_row : ℕ → List ApiKey → Bool
has_row pk [] = false
has_row pk (k ∷ ks) = (k.id == pk) || has_row pk ks

-- The caller's object and the tables behind `revoke_api_key`, and whether `save` raised: with
-- `update_fields` it does where the row is gone.
pub record Revocation : Type 0 where
  pub key : ApiKey
  pub store : KeyStore
  pub raised : Bool

-- `revoke_api_key` of a key that is not revoked
pub revoke_now : ApiKey → Option ℕ → Text → ℕ → KeyStore → Revocation
unfolding write_audit update_key
revoke_now key actor reason now st =
    if has_row key.id st.keys
    then record {
      key = set_revoked now key;
      store =
          write_audit (codes "api_key.revoked") actor (some (set_revoked now key)) [] reason
            (record st { keys = update_key key.id (set_revoked now) st.keys });
      raised = false;
    }
    else record { key = set_revoked now key; store = st; raised = true }

-- `revoke_api_key`, with the object that the caller holds; it is changed too.
unfoldable pub revoke_api_key : ApiKey → Option ℕ → Text → ℕ → KeyStore → Revocation
unfolding revoke_now
revoke_api_key key actor reason now st = elim key.revoked_at [
  | some _ ↦ record { key = key; store = st; raised = false }
  | none ↦ revoke_now key actor reason now st
]

-- `on_delete=SET_NULL` of the audit's reference
abbrev pub forget_key : ℕ → AuditEntry → AuditEntry
forget_key pk e = elim e.api_key [
  | none ↦ e
  | some j ↦ if j == pk then record e { api_key = none } else e
]

-- `delete_api_key`; `pk_text` is `str(pk)`.
unfoldable pub delete_api_key : ApiKey → Option ℕ → Text → KeyStore → KeyStore
unfolding write_audit
delete_api_key key actor pk_text st =
    write_audit (codes "api_key.deleted") actor none key.public_id pk_text (record {
      keys = keep (λ k. not (k.id == key.id)) st.keys;
      audit = map (forget_key key.id) st.audit;
    })

-- `bump_api_key_usage`
unfoldable pub bump_api_key_usage : ApiKey → ℤ → ℤ → ℕ → KeyStore → KeyStore
unfolding update_key
bump_api_key_usage key prompt_tokens completion_tokens now st = record st {
  keys =
      update_key key.id
        (λ k. record k {
          last_used_at = some now;
          requests_count = k.requests_count + 1;
          prompt_tokens_total = k.prompt_tokens_total + max_zero prompt_tokens;
          completion_tokens_total = k.completion_tokens_total + max_zero completion_tokens;
        })
        st.keys;
}

-- `touch_api_key_used` of the gateway
unfoldable pub touch_api_key_used : ℕ → ℕ → KeyStore → KeyStore
unfolding update_key
touch_api_key_used key_id now st = record st {
  keys =
      update_key key_id
        (λ k. record k { last_used_at = some now; requests_count = k.requests_count + 1 }) st.keys;
}
