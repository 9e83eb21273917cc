-- ===== src/ApiKeys/Parsing.antt =====
-- apps/api_keys/parsing.py, `format_raw_api_key` of apps/api_keys/crypto.py, and the parser of
-- deploy/gateway/gateway/crypto_auth.py. The two patterns are one text:
-- `^sk_local_([a-f0-9]{12})_([a-f0-9]{64})$`.
pub mod Matching
pub mod RoundTrip
use mathlib.Core.List.{append-nil, append_assoc}
use ai_inference_gateway_pla.Base.{
  ℕ, zero, suc, ◌≡◌, refl, sym, ap, ◌∙◌, ◌↔◌, ◌⊎◌, inl, inr, Bool, true, false, ◌&&◌, ◌||◌, Option,
  none, some, List, [], ◌∷◌, ◌++◌, arith, leb, ◌==◌, if◌then◌else◌, Bool-cases, Option-cases, ◌>>=◌,
  >>=-eq-some, if-eq-some, length, All, Text, codes, strip, is_space, strip_prefix,
  strip_prefix-append, strip_prefix_sound, IsSpace, IsSolid, strip-pad, strip-last, All-append,
}

-- `ParsedAPIKey` of apps/api_keys/parsing.py
pub record ParsedApiKey : Type 0 where
  pub public_id : Text
  pub secret_component : Text

-- `ParsedAPIKey` of the gateway, which keeps the whole token
pub record ParsedToken : Type 0 where
  pub public_id : Text
  pub raw_token : Text

-- `[a-f0-9]`
abbrev pub is_hex : ℕ → Bool
is_hex c = (leb b'a' c && leb c b'f') || (leb b'0' c && leb c b'9')

abbrev cons_run : ℕ → Option (Text × Text) → Option (Text × Text)
cons_run c none = none
cons_run c (some (run, rest)) = some (c ∷ run, rest)

-- `([a-f0-9]{n})`: the run and the text behind it
unfoldable pub hex_run : ℕ → Text → Option (Text × Text)
hex_run zero s = some ([], s)
hex_run (suc n) [] = none
hex_run (suc n) (c ∷ s) = let r = hex_run n s in if is_hex c then cons_run c r else none

-- `$` matches at the end, and before a line feed that ends the text.
abbrev pub at_end : Text → Bool
at_end [] = true
at_end (c ∷ []) = c == 10
at_end (c ∷ d ∷ s) = false

abbrev pub key_prefix : Text
key_prefix = codes "sk_local_"

-- `format_raw_api_key`
abbrev pub format_raw_api_key : Text → Text → Text
format_raw_api_key public_id secret = key_prefix ++ (public_id ++ (b'_' ∷ secret))

-- `build_full_raw_key`
abbrev pub build_full_raw_key : ParsedApiKey → Text
build_full_raw_key p = format_raw_api_key p.public_id p.secret_component

match_secret : Text → Text → Option ParsedApiKey
match_secret public_id v = do
  (secret, rest) ← hex_run 64 v
  if at_end rest then some (record { public_id = public_id; secret_component = secret }) else none

match_separator : Text × Text → Option ParsedApiKey
match_separator (public_id, u) = do v ← strip_prefix (b'_' ∷ []) u; match_secret public_id v

-- `_KEY_RE.match`. No part of the pattern has a choice, so the match takes it from left to right.
pub match_key : Text → Option ParsedApiKey
match_key s = do t ← strip_prefix key_prefix s; r ← hex_run 12 t; match_separator r

unfoldable pub parse_api_key : Text → Option ParsedApiKey
unfolding match_key match_separator match_secret hex_run
parse_api_key raw = match_key (strip raw)

-- `parse_api_key` of the gateway
unfoldable pub gateway_parse_api_key : Text → Option ParsedToken
unfolding match_key match_separator match_secret hex_run
gateway_parse_api_key raw = do
  m ← match_key (strip raw)
  some (record { public_id = m.public_id; raw_token = strip raw })

abbrev pub IsHex : ℕ → Text → Type 0
IsHex n s = (length s ≡ n) × All (λ c. is_hex c ≡ true) s

-- Both parts have the length and the characters that the pattern asks for.
abbrev pub IsKey : ParsedApiKey → Type 0
IsKey p = IsHex 12 p.public_id × IsHex 64 p.secret_component
