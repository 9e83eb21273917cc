-- ===== src/ApiKeys/Auth/Acceptance.antt =====
-- Which requests `resolve_bearer_api_key` admits, in both directions.
use ai_inference_gateway_pla.Base.{
  ℕ, ◌≡◌, refl, sym, ap, ◌∙◌, subst, ◌↔◌, true, false, Option, none, some, List, [], ◌∷◌, arith,
  Text, strip, strip_idem, In, first-In, text_eq, text_eq→eq, text_eq_refl,
}
use ai_inference_gateway_pla.Base.Result.{ok, or_raise, >>=-eq-ok, or_raise-eq-ok}
use ai_inference_gateway_pla.ApiKeys.Parsing.{
  ParsedApiKey, parse_api_key, build_full_raw_key, IsKey,
}
use ai_inference_gateway_pla.ApiKeys.Parsing.RoundTrip.{parse_api_key_iff}
use ai_inference_gateway_pla.ApiKeys.Model.{ApiKey, Secrets, hash_api_key, expired, is_none}
use ai_inference_gateway_pla.ApiKeys.Auth.{
  AuthHeaders, extract_bearer_token, resolve_token, resolve_bearer_api_key, check_key,
  load_active_key, strip_some, require_token, malformed_api_key, invalid_api_key,
}
use ai_inference_gateway_pla.ApiKeys.Auth.Tables.{
  IsUnique, by_public_id, active, load_active_key-eq, by_public_id-In,
}

strip_some-stripped : (o : Option Text) {t : Text} → strip_some o ≡ some t → strip t ≡ t
strip_some-stripped none h = cc
strip_some-stripped (some s) {t} h =
    let e : strip s ≡ t = ground arith in subst (λ x. strip x ≡ x) e (strip_idem s)

extract-stripped : (r : AuthHeaders) {t : Text} → extract_bearer_token r ≡ some t → strip t ≡ t
unfolding extract_bearer_token
extract-stripped r h = strip_some-stripped _ h

require_token-ok : (o : Option Text) {t : Text} → require_token o ≡ ok t → o ≡ some t
require_token-ok none h = cc
require_token-ok (some []) h = cc
require_token-ok (some (c ∷ s)) h = cc

is_none-eq : {A : Type 0} (o : Option A) → is_none o ≡ true → o ≡ none
is_none-eq none h = refl
is_none-eq (some a) h = cc

load_active_key_sound :
    (keys : List ApiKey) (p : Text) {k : ApiKey}
    → load_active_key keys p ≡ some k
    → In k keys × (k.public_id ≡ p) × (k.revoked_at ≡ none)
unfolding load_active_key
load_active_key_sound keys p {k} h =
    let (m, t) = first-In _ keys h in
    (m, ground (arith, text_eq→eq k.public_id p), is_none-eq k.revoked_at (ground arith))

module _ (hmac : Text → Text → Text) (secrets : Secrets) (now : ℕ) where
  -- The token is the full key of a row that is neither revoked nor expired, and the row holds the
  -- digest of the token.
  pub record IsAdmitted (keys : List ApiKey) (request : AuthHeaders) (key : ApiKey) : Type 0 where
    pub parsed : ParsedApiKey
    pub well_formed : IsKey parsed
    pub carried : extract_bearer_token request ≡ some (build_full_raw_key parsed)
    pub stored : In key keys
    pub same_id : key.public_id ≡ parsed.public_id
    pub unrevoked : key.revoked_at ≡ none
    pub unexpired : expired key.expires_at now ≡ false
    pub digest : key.secret_hash ≡ hash_api_key hmac secrets (build_full_raw_key parsed)

  check_key_sound :
      (t : Text) (k : ApiKey) {key : ApiKey}
      → check_key hmac secrets now t k ≡ ok key
      → (k ≡ key)
        × (expired k.expires_at now ≡ false)
        × (k.secret_hash ≡ hash_api_key hmac secrets t)
  unfolding check_key
  check_key_sound t k h = ground (arith, text_eq→eq k.secret_hash (hash_api_key hmac secrets t))

  resolve_token_sound :
      (keys : List ApiKey) (request : AuthHeaders) (key : ApiKey) (t : Text)
      → extract_bearer_token request ≡ some t
      → resolve_token hmac secrets keys now t ≡ ok key
      → IsAdmitted keys request key
  unfolding resolve_token
  resolve_token_sound keys request key t carried h =
      let (p, ep, h1) = >>=-eq-ok (or_raise (parse_api_key t) malformed_api_key) _ h in
      let (k, ek, h2) =
        >>=-eq-ok (or_raise (load_active_key keys p.public_id) invalid_api_key) _ h1 in
      let (whole, well_formed) = (parse_api_key_iff t p).0 (or_raise-eq-ok _ _ ep) in
      let (stored, same_id, unrevoked) =
        load_active_key_sound keys p.public_id (or_raise-eq-ok _ _ ek) in
      let (same, unexpired, digest) = check_key_sound t k h2 in
      let e : t ≡ build_full_raw_key p = sym (extract-stripped request carried) ∙ whole in
      subst (IsAdmitted keys request) same (record {
        parsed = p;
        well_formed = well_formed;
        carried = carried ∙ ap some e;
        stored = stored;
        same_id = same_id;
        unrevoked = unrevoked;
        unexpired = unexpired;
        digest = digest ∙ ap (hash_api_key hmac secrets) e;
      })

  resolve_sound :
      (keys : List ApiKey) (request : AuthHeaders) (key : ApiKey)
      → resolve_bearer_api_key hmac secrets keys now request ≡ ok key
      → IsAdmitted keys request key
  unfolding resolve_bearer_api_key
  resolve_sound keys request key h =
      let (t, et, h1) = >>=-eq-ok (require_token (extract_bearer_token request)) _ h in
      let carried = require_token-ok _ et in resolve_token_sound keys request key t carried h1

  check_key_complete :
      (t : Text) (key : ApiKey)
      → expired key.expires_at now ≡ false
      → key.secret_hash ≡ hash_api_key hmac secrets t
      → check_key hmac secrets now t key ≡ ok key
  unfolding check_key
  check_key_complete t key e d =
      ground (arith, ap (text_eq key.secret_hash) d, text_eq_refl key.secret_hash)

  loaded :
      (keys : List ApiKey) (request : AuthHeaders) (key : ApiKey)
      → IsUnique keys
      → (a : IsAdmitted keys request key) → load_active_key keys a.parsed.public_id ≡ some key
  loaded keys request key u a =
      let found : by_public_id a.parsed.public_id keys ≡ some key =
        subst (λ p. by_public_id p keys ≡ some key) a.same_id
          (by_public_id-In key keys u a.stored) in
      load_active_key-eq a.parsed.public_id keys u ∙ ap active found ∙ (rw a.unrevoked refl)

  resolve_complete :
      (keys : List ApiKey) (request : AuthHeaders) (key : ApiKey)
      → IsUnique keys
      → IsAdmitted keys request key
      → resolve_bearer_api_key hmac secrets keys now request ≡ ok key
  resolve_complete keys request key u a =
      let t = build_full_raw_key a.parsed in
      let e : parse_api_key t ≡ some a.parsed =
        (parse_api_key_iff t a.parsed).1 (extract-stripped request a.carried, a.well_formed) in
      unfold resolve_bearer_api_key in
      rw (a.carried, resolve_bearer_api_key)
        (rw (e, resolve_token)
          (rw (loaded keys request key u a) (check_key_complete t key a.unexpired a.digest)))

  -- With unique public ids, a request is resolved to a key exactly if the key is stored, neither
  -- revoked nor expired at `now`, and the request carries a well-formed token with its public id
  -- whose keyed digest is the stored one.
  pub resolve_bearer_api_key_iff :
      (keys : List ApiKey) (request : AuthHeaders) (key : ApiKey)
      → IsUnique keys
      → (resolve_bearer_api_key hmac secrets keys now request ≡ ok key)
        ↔ IsAdmitted keys request key
  resolve_bearer_api_key_iff keys request key u =
      (resolve_sound keys request key, resolve_complete keys request key u)
