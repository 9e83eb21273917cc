-- ===== src/ApiKeys/Lifecycle/Secrecy.antt =====
-- The raw key that `create_api_key` returns is accepted by both programs; after a revocation or a
-- deletion it is not.
use ai_inference_gateway_pla.Base.{
  ℕ, zero, suc, ◌+◌, ◌≡◌, ◌≢◌, refl, ap, ◌∙◌, subst, false, Option, none, some, List, ◌∷◌, ◌++◌,
  arith, Text, inl, inr, Bool-cases, Option-cases, not, ◌==◌, In, keep, strip, strip-inner, codes,
  is_space, strip_of_solid,
}
use ai_inference_gateway_pla.Base.Result.{ok, to_option}
use ai_inference_gateway_pla.ApiKeys.Parsing.{ParsedApiKey, IsHex, IsKey, build_full_raw_key}
use ai_inference_gateway_pla.ApiKeys.Parsing.RoundTrip.{key-IsSolid}
use ai_inference_gateway_pla.ApiKeys.Model.{ApiKey, Secrets, expired}
use ai_inference_gateway_pla.ApiKeys.Auth.{
  AuthHeaders, bearer_prefix, extract_bearer_token, resolve_bearer_api_key, require_api_key,
  context_of,
}
use ai_inference_gateway_pla.ApiKeys.Auth.Tables.{IsUnique}
use ai_inference_gateway_pla.ApiKeys.Auth.Acceptance.{IsAdmitted, resolve_bearer_api_key_iff}
use ai_inference_gateway_pla.ApiKeys.Auth.Agreement.{
  only_header, require_api_key-agrees, map_context,
}
use ai_inference_gateway_pla.ApiKeys.Lifecycle.{
  KeyStore, CreatedApiKey, CreateArgs, allocate, exists, new_key, create_api_key, store_key,
  revoke_api_key, set_revoked, update_key, delete_api_key,
}
use ai_inference_gateway_pla.ApiKeys.Lifecycle.Rows.{
  update_key-In, keep-In, append-In, insert-IsUnique, update_key-IsUnique, keep-IsUnique,
  revoke_api_key-none, revoke_api_key-some, revoke_now-keys, no_row,
}
use ai_inference_gateway_pla.ApiKeys.Lifecycle.Unique.{allocate-fresh, create_api_key-ok}

-- The header that a client sends with a raw key.
abbrev pub bearer : Text → AuthHeaders
bearer raw = only_header (bearer_prefix ++ raw)

-- A key's header value has no white space around it.
strip-bearer :
    (p : ParsedApiKey)
    → IsKey p
    → strip (bearer_prefix ++ build_full_raw_key p) ≡ bearer_prefix ++ build_full_raw_key p
unfolding is_space
strip-bearer p k =
    strip-inner b'B' (codes "earer ") b's'
      (codes "k_local_" ++ (p.public_id ++ (b'_' ∷ p.secret_component))) refl (key-IsSolid p k)

extract-bearer :
    (p : ParsedApiKey)
    → IsKey p
    → extract_bearer_token (bearer (build_full_raw_key p)) ≡ some (build_full_raw_key p)
unfolding extract_bearer_token
extract-bearer p k =
    rw (strip-bearer p k, extract_bearer_token)
      (ap some (strip_of_solid (build_full_raw_key p) (key-IsSolid p k)))

allocate-drawn :
    (keys : List ApiKey) (draw : ℕ → Text) (n i : ℕ) {p : Text}
    → ((j : ℕ) → IsHex 12 (draw j))
    → allocate keys draw n i ≡ some p
    → IsHex 12 p
unfolding allocate
allocate-drawn keys draw zero i hex h = cc
allocate-drawn keys draw (suc n) i {p} hex h = elim (Bool-cases (exists keys (draw i))) [
  | inl e ↦ allocate-drawn keys draw n (i + 1) hex (rw e at h)
  | inr e ↦ subst (IsHex 12) (ground arith) (hex i)
]

module _ (hmac : Text → Text → Text) (secrets : Secrets) where
  -- The new row admits the request that carries the new key.
  new_key-IsAdmitted :
      (a : CreateArgs) (p : Text) (s : KeyStore) (now : ℕ)
      → IsHex 12 p
      → IsHex 64 a.secret_component
      → expired a.expires_at now ≡ false
      → IsAdmitted hmac secrets now
          (store_key hmac secrets a p s).1.keys
          (bearer (store_key hmac secrets a p s).0.raw_key)
          (new_key hmac secrets a p)
  unfolding store_key
  new_key-IsAdmitted a p s now hp hs live = record {
    parsed = record { public_id = p; secret_component = a.secret_component };
    well_formed = (hp, hs);
    carried =
        extract-bearer (record { public_id = p; secret_component = a.secret_component }) (hp, hs);
    stored = append-In s.keys (new_key hmac secrets a p);
    same_id = refl;
    unrevoked = refl;
    unexpired = live;
    digest = refl;
  }

  -- The header `Bearer <raw key>` is resolved to the key by Django, and admitted with the key's
  -- context by the gateway.
  abbrev pub Works : ℕ → CreatedApiKey × KeyStore → Type 0
  Works now (c, t) =
      (resolve_bearer_api_key hmac secrets t.keys now (bearer c.raw_key) ≡ ok c.api_key)
      × (to_option (require_api_key hmac secrets t.keys now (some (bearer_prefix ++ c.raw_key)))
          ≡ some (context_of c.api_key))

  store_key-Works :
      (a : CreateArgs) (p : Text) (s : KeyStore) (now : ℕ)
      → IsUnique (store_key hmac secrets a p s).1.keys
      → IsHex 12 p
      → IsHex 64 a.secret_component
      → expired a.expires_at now ≡ false
      → Works now (store_key hmac secrets a p s)
  store_key-Works a p s now u hp hs live = unfold store_key in (resolved, admitted)
    where
      t : KeyStore
      t = (store_key hmac secrets a p s).1

      raw : Text
      raw = (store_key hmac secrets a p s).0.raw_key

      key : ApiKey
      key = new_key hmac secrets a p

      resolved : resolve_bearer_api_key hmac secrets t.keys now (bearer raw) ≡ ok key
      resolved =
          (resolve_bearer_api_key_iff hmac secrets now t.keys (bearer raw) key u).1
            (new_key-IsAdmitted a p s now hp hs live)

      admitted :
          to_option (require_api_key hmac secrets t.keys now (some (bearer_prefix ++ raw)))
          ≡ some (context_of key)
      admitted =
          require_api_key-agrees hmac secrets t.keys now (bearer_prefix ++ raw) u (
            unfold store_key in
            strip-bearer (record { public_id = p; secret_component = a.secret_component }) (hp, hs))
          ∙ ap (λ r. map_context (to_option r)) resolved

  -- A new key works at once. If `create_api_key` returns, the table had unique public ids and the
  -- random texts are hexadecimal, of 12 and 64 characters, then the header `Bearer <raw key>` is
  -- resolved to the new row, and the gateway admits it with that row's context, at every time
  -- before the key expires.
  pub created_key-Works :
      (a : CreateArgs) (s : KeyStore) (now : ℕ) {c : CreatedApiKey} {t : KeyStore}
      → IsUnique s.keys
      → ((j : ℕ) → IsHex 12 (a.draw j))
      → IsHex 64 a.secret_component
      → expired a.expires_at now ≡ false
      → create_api_key hmac secrets a s ≡ ok (c, t)
      → Works now (c, t)
  created_key-Works a s now u drawn hs live h =
      let (p, e, k) = create_api_key-ok hmac secrets a s h in
      let fresh = allocate-fresh s.keys a.draw 5 0 e in
      subst (Works now) k (
        store_key-Works a p s now
          (unfold store_key in insert-IsUnique (new_key hmac secrets a p) s.keys fresh u)
          (allocate-drawn s.keys a.draw 5 0 drawn e) hs live)

  -- The caller's object is not behind its row: the rows with its primary key are revoked if it is.
  abbrev pub InSync : ApiKey → List ApiKey → Type 0
  InSync key keys =
      (j : ApiKey) → In j keys → j.id ≡ key.id → j.revoked_at ≡ none → key.revoked_at ≡ none

  no_live_row :
      (keys : List ApiKey) (pk now : ℕ) (request : AuthHeaders) (k : ApiKey)
      → IsUnique keys
      → ((j : ApiKey) → In j keys → j.revoked_at ≡ none → j.id ≢ pk)
      → resolve_bearer_api_key hmac secrets keys now request ≡ ok k
      → k.id ≢ pk
  no_live_row keys pk now request k u dead h =
      let admitted = (resolve_bearer_api_key_iff hmac secrets now keys request k u).0 h in
      dead k admitted.stored admitted.unrevoked

  set_revoked-dead :
      (key : ApiKey) (at : ℕ) (ks : List ApiKey) (j : ApiKey)
      → In j (update_key key.id (set_revoked at) ks)
      → j.revoked_at ≡ none
      → j.id ≢ key.id
  set_revoked-dead key at ks j m r q =
      let (i, n, e) = update_key-In key.id (set_revoked at) ks m in absurd (ground arith)

  -- After `revoke_api_key` no request is resolved to the revoked key, at any time and with any
  -- token, if public ids are unique and the caller's object is in step with the table.
  pub revoked_key_refused :
      (key : ApiKey) (actor : Option ℕ) (reason : Text) (at : ℕ) (s : KeyStore)
      → IsUnique s.keys
      → InSync key s.keys
      → (now : ℕ) (request : AuthHeaders) (k : ApiKey)
      → resolve_bearer_api_key hmac secrets
          (revoke_api_key key actor reason at s).store.keys
          now
          request
        ≡ ok k
      → k.id ≢ key.id
  revoked_key_refused key actor reason at s u sync now request k h =
      elim (Option-cases key.revoked_at) [
        | inl e ↦
            let h' = rw (revoke_api_key-none key actor reason at s e) at h in
            elim (revoke_now-keys key actor reason at s) [
              | inl q ↦
                  no_live_row (update_key key.id (set_revoked at) s.keys) key.id now request k
                    (update_key-IsUnique key.id (set_revoked at) (λ k. refl) s.keys u)
                    (set_revoked-dead key at s.keys) (rw q at h')
              | inr (gone, q) ↦
                  no_live_row s.keys key.id now request k u (λ j m r. no_row key.id s.keys j gone m)
                    (rw q at h')
            ]
        | inr (t, e) ↦
            no_live_row s.keys key.id now request k u (λ j m r q. cc (e, sync j m q r))
              (rw (revoke_api_key-some key actor reason at s e) at h)
      ]

  -- After `delete_api_key` no request is resolved to the deleted key.
  pub deleted_key_refused :
      (key : ApiKey) (actor : Option ℕ) (pk_text : Text) (s : KeyStore)
      → IsUnique s.keys
      → (now : ℕ) (request : AuthHeaders) (k : ApiKey)
      → resolve_bearer_api_key hmac secrets (delete_api_key key actor pk_text s).keys now request
        ≡ ok k
      → k.id ≢ key.id
  unfolding delete_api_key
  deleted_key_refused key actor pk_text s u now request k h =
      no_live_row (keep (λ k. not (k.id == key.id)) s.keys) key.id now request k
        (keep-IsUnique _ s.keys u)
        (λ j m _ e. let (_, t) = keep-In _ s.keys m in absurd (ground arith)) h
