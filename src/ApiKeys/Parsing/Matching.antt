-- ===== src/ApiKeys/Parsing/Matching.antt =====
-- `_KEY_RE` matches the full key of two well-formed parts, and nothing else.
use mathlib.Core.List.{append-nil, append_assoc}
use ai_inference_gateway_pla.Base.{
  ℕ, zero, suc, ◌≡◌, refl, sym, ap, ◌∙◌, inl, inr, true, Option, none, some, [], ◌∷◌, ◌++◌, arith,
  Bool-cases, >>=-eq-some, if-eq-some, Text, strip_prefix, strip_prefix_sound,
}
use ai_inference_gateway_pla.ApiKeys.Parsing.{
  ParsedApiKey, is_hex, hex_run, at_end, key_prefix, build_full_raw_key, match_secret,
  match_separator, match_key, IsHex, IsKey, cons_run,
}

hex_run-append : (n : ℕ) (s r : Text) → IsHex n s → hex_run n (s ++ r) ≡ some (s, r)
unfolding hex_run
hex_run-append zero [] r h = refl
hex_run-append zero (c ∷ s) r h = absurd (omega arith)
hex_run-append (suc n) [] r h = absurd (omega arith)
hex_run-append (suc n) (c ∷ s) r (len, (e, all)) = rw (e, hex_run-append n s r (omega arith, all))

abbrev RunOf : ℕ → Text → Text → Text → Type 0
RunOf n s x r = (s ≡ x ++ r) × IsHex n x

cons_run_sound :
    (n c : ℕ) (s : Text) (o : Option (Text × Text)) {x r : Text}
    → is_hex c ≡ true
    → ((y t : Text) → o ≡ some (y, t) → RunOf n s y t)
    → cons_run c o ≡ some (x, r)
    → RunOf (suc n) (c ∷ s) x r
cons_run_sound n c s none e ih k = cc
cons_run_sound n c s (some (y, t)) {x} {r} e ih k =
    let ex : c ∷ y ≡ x = ground arith in
    let er : t ≡ r = ground arith in
    let (es, hex) = ih y t refl in rw (← ex, ← er) (ap (◌∷◌ c) es, (ap suc hex.0, (e, hex.1)))

hex_run_sound : (n : ℕ) (s x r : Text) → hex_run n s ≡ some (x, r) → RunOf n s x r
unfolding hex_run
hex_run_sound zero s x r h = ground arith
hex_run_sound (suc n) [] x r h = cc
hex_run_sound (suc n) (c ∷ s) x r h = elim (Bool-cases (is_hex c)) [
  | inl e ↦ cons_run_sound n c s (hex_run n s) e (hex_run_sound n s) (rw e at h)
  | inr e ↦ absurd (ground arith)
]

-- A well-formed key with nothing around it is matched, whole.
pub match_key-build : (p : ParsedApiKey) → IsKey p → match_key (build_full_raw_key p) ≡ some p
unfolding match_key match_separator match_secret
match_key-build p (hp, hs) =
    let e : hex_run 64 p.secret_component ≡ some (p.secret_component, []) =
      ap (hex_run 64) (sym (append-nil p.secret_component))
      ∙ hex_run-append 64 p.secret_component [] hs in
    rw (hex_run-append 12 p.public_id (b'_' ∷ p.secret_component) hp, match_key) (rw e)

match_secret_sound :
    (public_id v : Text) (p : ParsedApiKey)
    → match_secret public_id v ≡ some p
    → (p.public_id ≡ public_id)
      × IsHex 64 p.secret_component
      × (r : Text) × (v ≡ p.secret_component ++ r)
      × (at_end r ≡ true)
unfolding match_secret
match_secret_sound public_id v p h =
    let ((secret, rest), e, k) = >>=-eq-some (hex_run 64 v) _ h in
    let (e_end, e_p) = if-eq-some (at_end rest) _ k in
    let (split, hex) = hex_run_sound 64 v secret rest e in
    let es : p.secret_component ≡ secret = ground arith in
    (ground arith, rw es hex, rest, rw es split, e_end)

match_separator_sound :
    (r : Text × Text) (p : ParsedApiKey)
    → match_separator r ≡ some p
    → (v : Text) × (r.1 ≡ b'_' ∷ v) × (match_secret r.0 v ≡ some p)
unfolding match_separator
match_separator_sound r p h =
    let (v, e, k) = >>=-eq-some (strip_prefix (b'_' ∷ []) r.1) _ h in
    (v, strip_prefix_sound (b'_' ∷ []) r.1 e, k)

-- What is matched is the key, and behind it nothing or one line feed.
pub match_key_sound :
    (s : Text) (p : ParsedApiKey)
    → match_key s ≡ some p
    → IsKey p × (r : Text) × (s ≡ build_full_raw_key p ++ r) × (at_end r ≡ true)
unfolding match_key
match_key_sound s p h =
    let (t, et, h1) = >>=-eq-some (strip_prefix key_prefix s) _ h in
    let (r, er, h2) = >>=-eq-some (hex_run 12 t) _ h1 in
    let (v, ev, h3) = match_separator_sound r p h2 in
    let (ep, hex_s, w, split, e_end) = match_secret_sound r.0 v p h3 in
    let (split_r, hex_p) = hex_run_sound 12 t r.0 r.1 er in
    let joined : t ≡ p.public_id ++ (b'_' ∷ (p.secret_component ++ w)) =
      rw (split_r, ev, split, ep) refl in
    (
      (rw ep hex_p, hex_s),
      w,
      strip_prefix_sound key_prefix s et
          ∙ ap (λ x. key_prefix ++ x) joined
          ∙ ap (λ x. key_prefix ++ x)
              (sym (append_assoc p.public_id (b'_' ∷ p.secret_component) w)),
      e_end,
    )
