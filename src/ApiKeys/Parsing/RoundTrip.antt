-- ===== src/ApiKeys/Parsing/RoundTrip.antt =====
-- What the two parsers accept, and that a formatted key parses back.
use mathlib.Core.List.{append-nil}
use ai_inference_gateway_pla.Base.{
  ℕ, ◌≡◌, refl, ap, ◌∙◌, ◌↔◌, true, some, [], ◌∷◌, ◌++◌, arith, ◌>>=◌, All, Text, strip, is_space,
  IsSpace, IsSolid, strip-pad, strip-last, All-append,
}
use ai_inference_gateway_pla.ApiKeys.Parsing.{
  ParsedApiKey, is_hex, at_end, format_raw_api_key, build_full_raw_key, match_key, parse_api_key,
  gateway_parse_api_key, IsKey,
}
use ai_inference_gateway_pla.ApiKeys.Parsing.Matching.{match_key-build, match_key_sound}

-- The text that a pattern with `$` leaves is empty, once white space is stripped.
at_end-strip : (s x r : Text) → strip s ≡ x ++ r → at_end r ≡ true → r ≡ []
at_end-strip s x [] e h = refl
at_end-strip s x (c ∷ d ∷ r) e h = cc
at_end-strip s x (c ∷ []) e h =
    let solid = strip-last s x c e in
    let lf : c ≡ 10 = ground arith in absurd (unfold is_space in ground arith)

-- A raw text parses to `p` exactly if, stripped, it is the full key that `build_full_raw_key` builds
-- from `p`, and both parts of `p` are well formed.
pub parse_api_key_iff :
    (raw : Text) (p : ParsedApiKey)
    → (parse_api_key raw ≡ some p) ↔ ((strip raw ≡ build_full_raw_key p) × IsKey p)
parse_api_key_iff raw p = (sound, complete)
  where
    sound : parse_api_key raw ≡ some p → (strip raw ≡ build_full_raw_key p) × IsKey p
    sound h =
        let (key, r, e, at) = match_key_sound (strip raw) p (unfold parse_api_key in h) in
        let nil = at_end-strip raw (build_full_raw_key p) r e at in
        (rw (nil, append-nil (build_full_raw_key p)) at e, key)

    complete : (strip raw ≡ build_full_raw_key p) × IsKey p → parse_api_key raw ≡ some p
    complete (e, key) = unfold parse_api_key in ap match_key e ∙ match_key-build p key

hex-IsSolid : (c : ℕ) → is_hex c ≡ true → IsSolid c
unfolding is_space
hex-IsSolid c h = ground arith

hex-All-IsSolid : (s : Text) → All (λ c. is_hex c ≡ true) s → All IsSolid s
hex-All-IsSolid [] h = tt
hex-All-IsSolid (c ∷ s) h = (hex-IsSolid c h.0, hex-All-IsSolid s h.1)

pub key-IsSolid : (p : ParsedApiKey) → IsKey p → All IsSolid (build_full_raw_key p)
unfolding is_space
key-IsSolid p ((_, hp), (_, hs)) = (
  refl,
  (
    refl,
    (
      refl,
      (
        refl,
        (
          refl,
          (
            refl,
            (
              refl,
              (
                refl,
                (
                  refl,
                  All-append IsSolid p.public_id (b'_' ∷ p.secret_component)
                      (hex-All-IsSolid p.public_id hp)
                      (refl, hex-All-IsSolid p.secret_component hs),
                ),
              ),
            ),
          ),
        ),
      ),
    ),
  ),
)

-- The key that `format_raw_api_key` writes from two hexadecimal parts of 12 and 64 characters is
-- parsed back to these parts, also with white space on both sides.
pub parse_api_key-format :
    (p : ParsedApiKey) (before after : Text)
    → IsKey p
    → All IsSpace before
    → All IsSpace after
    → parse_api_key (before ++ (format_raw_api_key p.public_id p.secret_component ++ after))
      ≡ some p
parse_api_key-format p before after key hb ha =
    (parse_api_key_iff _ p).1 (strip-pad before _ after hb (key-IsSolid p key) ha, key)

-- The gateway's parser finds the same public id, and keeps the stripped text.
pub gateway_parse-eq :
    (raw : Text)
    → gateway_parse_api_key raw ≡ (
        parse_api_key raw >>= λ p. some (record { public_id = p.public_id; raw_token = strip raw }))
unfolding gateway_parse_api_key parse_api_key
gateway_parse-eq raw = refl
