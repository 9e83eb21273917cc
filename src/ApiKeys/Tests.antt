-- ===== src/ApiKeys/Tests.antt =====
-- Runs of the key functions on one key, and the theorems at that key.
use ai_inference_gateway_pla.Base.{
  ℕ, zero, suc, ◌≡◌, ◌≢◌, ◌↔◌, refl, true, none, some, [], ◌∷◌, ◌++◌, Text, codes, All, strip,
  IsSpace, is_space,
}
use ai_inference_gateway_pla.Base.Result.{ok, err, to_option}
use ai_inference_gateway_pla.ApiKeys.Parsing.{
  ParsedApiKey, parse_api_key, format_raw_api_key, build_full_raw_key, IsKey, is_hex,
}
use ai_inference_gateway_pla.ApiKeys.Parsing.RoundTrip.{parse_api_key-format}
use ai_inference_gateway_pla.ApiKeys.Model.{ApiKey, Secrets}
use ai_inference_gateway_pla.ApiKeys.Auth.{
  resolve_bearer_api_key, resolve_bearer_api_key_sync, require_api_key, invalid_api_key,
  malformed_api_key, missing_bearer_token, api_key_expired,
}
use ai_inference_gateway_pla.ApiKeys.Auth.Tables.{IsUnique}
use ai_inference_gateway_pla.ApiKeys.Auth.Acceptance.{IsAdmitted, resolve_bearer_api_key_iff}
use ai_inference_gateway_pla.ApiKeys.Auth.Agreement.{
  only_header, map_context, require_api_key-agrees,
}
use ai_inference_gateway_pla.ApiKeys.Lifecycle.{
  KeyStore, CreateArgs, new_key, create_api_key, allocate, revoke_api_key, delete_api_key,
}
use ai_inference_gateway_pla.ApiKeys.Lifecycle.Unique.{here, next, created, Reach-IsUnique}
use ai_inference_gateway_pla.ApiKeys.Lifecycle.Secrecy.{
  Works, bearer, created_key-Works, revoked_key_refused,
}
use ai_inference_gateway_pla.ApiKeys.Lifecycle.Audit.{entry}

abbrev repeat : ℕ → ℕ → Text
repeat zero c = []
repeat (suc n) c = c ∷ repeat n c

repeat-hex : (n c : ℕ) → is_hex c ≡ true → All (λ d. is_hex d ≡ true) (repeat n c)
repeat-hex zero c h = tt
repeat-hex (suc n) c h = (h, repeat-hex n c h)

abbrev sample : ParsedApiKey
sample = record { public_id = repeat 12 b'a'; secret_component = repeat 64 b'7' }

sample-IsKey : IsKey sample
sample-IsKey = ((refl, repeat-hex 12 b'a' refl), (refl, repeat-hex 64 b'7' refl))

parse_api_key-format_example :
    parse_api_key
      (codes " " ++ (format_raw_api_key sample.public_id sample.secret_component ++ codes "\n"))
    ≡ some sample
unfolding is_space
parse_api_key-format_example =
    parse_api_key-format sample (codes " ") (codes "\n") sample-IsKey (refl, tt) (refl, tt)

-- A stand-in for HMAC-SHA256: it only has to depend on the key and the message.
abbrev toy_hmac : Text → Text → Text
toy_hmac key message = key ++ message

abbrev secrets : Secrets
secrets = record { api_key_hmac_pepper = codes "pepper"; secret_key = codes "secret" }

abbrev args : CreateArgs
args = record {
  owner = 5;
  actor = 6;
  label = codes "ci";
  expires_at = some 900;
  rate_limit_rpm = 120;
  draw = λ i. repeat 12 b'a';
  secret_component = repeat 64 b'7';
  pk = 31;
  now = 100;
}

abbrev empty_store : KeyStore
empty_store = record { keys = []; audit = [] }

abbrev key : ApiKey
key = new_key toy_hmac secrets args (repeat 12 b'a')

abbrev one_key : KeyStore
one_key = record {
  keys = key ∷ [];
  audit = entry "api_key.created" (some 6) (some 31) (repeat 12 b'a') (codes "ci") ∷ [];
}

created_one_key :
    create_api_key toy_hmac secrets args empty_store
    ≡ ok (record { raw_key = build_full_raw_key sample; api_key = key }, one_key)
unfolding create_api_key allocate
created_one_key = refl

sample_parses : parse_api_key (codes " " ++ (build_full_raw_key sample ++ codes "\n")) ≡ some sample
unfolding parse_api_key strip is_space
sample_parses = refl

short_key_fails : parse_api_key (codes "sk_local_abc_def") ≡ none
unfolding parse_api_key strip is_space
short_key_fails = refl

IsSpace-line : All IsSpace (codes " ") × All IsSpace (codes "\n")
unfolding is_space
IsSpace-line = ((refl, tt), (refl, tt))

resolve_errors :
    (resolve_bearer_api_key toy_hmac secrets [] 7 (only_header []) ≡ err missing_bearer_token)
    × (resolve_bearer_api_key toy_hmac secrets [] 7 (only_header (codes "Bearer x"))
        ≡ err malformed_api_key)
    × (resolve_bearer_api_key toy_hmac secrets [] 7 (bearer (build_full_raw_key sample))
        ≡ err invalid_api_key)
    × (resolve_bearer_api_key toy_hmac secrets one_key.keys 900 (bearer (build_full_raw_key sample))
        ≡ err api_key_expired)
unfolding resolve_bearer_api_key parse_api_key strip is_space
resolve_errors = (refl, refl, refl, refl)

sync_resolves :
    resolve_bearer_api_key_sync toy_hmac secrets one_key.keys 7 (bearer (build_full_raw_key sample))
    ≡ ok key
unfolding resolve_bearer_api_key_sync parse_api_key strip is_space
sync_resolves = refl

resolve_bearer_api_key_iff_example :
    (resolve_bearer_api_key toy_hmac secrets one_key.keys 7 (bearer (build_full_raw_key sample))
      ≡ ok key)
    ↔ IsAdmitted toy_hmac secrets 7 one_key.keys (bearer (build_full_raw_key sample)) key
resolve_bearer_api_key_iff_example =
    resolve_bearer_api_key_iff toy_hmac secrets 7 one_key.keys (bearer (build_full_raw_key sample))
      key (tt, tt)

header_stripped : strip (codes "Bearer sk_local_x") ≡ codes "Bearer sk_local_x"
unfolding strip is_space
header_stripped = refl

require_api_key-agrees_example :
    to_option (require_api_key toy_hmac secrets one_key.keys 7 (some (codes "Bearer sk_local_x")))
    ≡ map_context (
        to_option (
          resolve_bearer_api_key toy_hmac secrets one_key.keys 7
            (only_header (codes "Bearer sk_local_x"))))
require_api_key-agrees_example =
    require_api_key-agrees toy_hmac secrets one_key.keys 7 (codes "Bearer sk_local_x") (tt, tt)
      header_stripped

Reach-IsUnique_example : IsUnique one_key.keys
Reach-IsUnique_example =
    Reach-IsUnique toy_hmac secrets {s = empty_store} {t = one_key} tt
      (next here (created args created_one_key))

created_key-Works_example :
    Works toy_hmac secrets 899
      (record { raw_key = build_full_raw_key sample; api_key = key }, one_key)
created_key-Works_example =
    created_key-Works toy_hmac secrets args empty_store 899 tt (λ j. sample-IsKey.0) sample-IsKey.1
      refl created_one_key

-- A second key, of which the digest in the table is right.
abbrev second : ParsedApiKey
second = record { public_id = repeat 12 b'b'; secret_component = repeat 64 b'7' }

abbrev second_key : ApiKey
second_key = new_key toy_hmac secrets (record args { pk = 32 }) (repeat 12 b'b')

abbrev two_keys : KeyStore
two_keys = record { keys = second_key ∷ key ∷ []; audit = one_key.audit }

second_resolves :
    resolve_bearer_api_key toy_hmac secrets
      (revoke_api_key key (some 6) [] 200 two_keys).store.keys
      300
      (bearer (build_full_raw_key second))
    ≡ ok second_key
unfolding resolve_bearer_api_key parse_api_key strip is_space revoke_api_key
second_resolves = refl

second_resolves_after_delete :
    resolve_bearer_api_key toy_hmac secrets
      (delete_api_key key (some 6) [] two_keys).keys
      300
      (bearer (build_full_raw_key second))
    ≡ ok second_key
unfolding resolve_bearer_api_key parse_api_key strip is_space delete_api_key
second_resolves_after_delete = refl

revoked_fails :
    resolve_bearer_api_key toy_hmac secrets
      (revoke_api_key key (some 6) [] 200 two_keys).store.keys
      300
      (bearer (build_full_raw_key sample))
    ≡ err invalid_api_key
unfolding resolve_bearer_api_key parse_api_key strip is_space revoke_api_key
revoked_fails = refl

revoked_key_refused_example : second_key.id ≢ key.id
revoked_key_refused_example =
    revoked_key_refused toy_hmac secrets key (some 6) [] 200 two_keys ((refl, tt), (tt, tt))
      (λ j m e r. refl) 300 (bearer (build_full_raw_key second)) second_key second_resolves
