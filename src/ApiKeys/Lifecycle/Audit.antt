-- ===== src/ApiKeys/Lifecycle/Audit.antt =====
-- The audit log: what each call records, and what a deletion leaves of older entries.
use ai_inference_gateway_pla.Base.{
  ℕ, ◌≡◌, ◌≢◌, refl, subst, Option, true, false, none, some, List, [], ◌∷◌, ◌++◌, arith, Text, All,
  All-append, codes, map, String,
}
use ai_inference_gateway_pla.Base.Result.{ok}
use ai_inference_gateway_pla.ApiKeys.Model.{ApiKey, AuditEntry, Secrets, or_else}
use ai_inference_gateway_pla.ApiKeys.Lifecycle.{
  KeyStore, CreatedApiKey, CreateArgs, create_api_key, store_key, revoke_api_key, revoke_now,
  has_row, delete_api_key, forget_key,
}
use ai_inference_gateway_pla.ApiKeys.Lifecycle.Rows.{revoke_api_key-none, revoke_api_key-some}
use ai_inference_gateway_pla.ApiKeys.Lifecycle.Unique.{create_api_key-ok}

abbrev pub entry : String → Option ℕ → Option ℕ → Text → Text → AuditEntry
entry action actor pk public_id message = record {
  actor = actor;
  action = codes action;
  api_key = pk;
  api_key_public_id = public_id;
  message = message;
}

or_else-nil : (t : Text) → or_else t [] ≡ t
or_else-nil [] = refl
or_else-nil (c ∷ t) = refl

module _ (hmac : Text → Text → Text) (secrets : Secrets) where
  -- A creation appends one entry that names the actor, the new key and its public id, and keeps
  -- the older entries.
  pub create_api_key-audit :
      (a : CreateArgs) (s : KeyStore) {c : CreatedApiKey} {t : KeyStore}
      → create_api_key hmac secrets a s ≡ ok (c, t)
      → t.audit
        ≡ s.audit
          ++ entry "api_key.created" (some a.actor) (some c.api_key.id) c.api_key.public_id a.label
            ∷ []
  create_api_key-audit a s h =
      let (p, e, k) = create_api_key-ok hmac secrets a s h in
      subst
        (λ (r : CreatedApiKey × KeyStore).
          r.1.audit
          ≡ s.audit
            ++ entry "api_key.created" (some a.actor) (some r.0.api_key.id) r.0.api_key.public_id
                a.label
              ∷ [])
        k (unfold store_key in refl)

-- The first revocation of a key that has a row appends one entry about it; a second call with the object that the
-- first returned changes nothing.
pub revoke_api_key_once :
    (key : ApiKey) (actor : Option ℕ) (reason : Text) (now : ℕ) (s : KeyStore)
    → key.revoked_at ≡ none
    → has_row key.id s.keys ≡ true
    → let end = revoke_api_key key actor reason now s in
      (end.store.audit
        ≡ s.audit ++ entry "api_key.revoked" actor (some key.id) key.public_id reason ∷ [])
      × ((actor' : Option ℕ) (reason' : Text) (later : ℕ)
          → revoke_api_key end.key actor' reason' later end.store
            ≡ record { key = end.key; store = end.store; raised = false })
unfolding revoke_api_key revoke_now
revoke_api_key_once key actor reason now s e row =
    rw (revoke_api_key-none key actor reason now s e, row)
      (refl, λ actor' reason' later. revoke_api_key-some _ actor' reason' later _ refl)

forget_key-ne : (pk : ℕ) (e : AuditEntry) → (forget_key pk e).api_key ≢ some pk
forget_key-ne pk e h = ground arith

forget-All :
    (pk : ℕ) (es : List AuditEntry) → All (λ e. e.api_key ≢ some pk) (map (forget_key pk) es)
forget-All pk [] = tt
forget-All pk (e ∷ es) = (forget_key-ne pk e, forget-All pk es)

-- A deletion appends one entry that names no key but its public id, and no entry refers to the
-- deleted row any more.
pub delete_api_key-audit :
    (key : ApiKey) (actor : Option ℕ) (pk_text : Text) (s : KeyStore)
    → (let t = delete_api_key key actor pk_text s in
        (t.audit
          ≡ map (forget_key key.id) s.audit
            ++ entry "api_key.deleted" actor none key.public_id pk_text ∷ [])
        × All (λ (e : AuditEntry). e.api_key ≢ some key.id) t.audit)
unfolding delete_api_key
delete_api_key-audit key actor pk_text s =
    (rw (or_else-nil key.public_id), All-append _ _ _ (forget-All key.id s.audit) ((λ h. cc), tt))
