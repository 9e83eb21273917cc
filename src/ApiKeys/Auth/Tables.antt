-- ===== src/ApiKeys/Auth/Tables.antt =====
-- The table of keys: public ids are unique (`unique=True`), so the two ways to look one up agree.
use ai_inference_gateway_pla.Base.{
  ◌≡◌, refl, subst, true, false, Option, none, some, List, [], ◌∷◌, arith, Text, text_eq,
  text_eq→eq, text_eq_refl, text_eq_comm, first, In, All, inl, inr,
}
use ai_inference_gateway_pla.ApiKeys.Model.{ApiKey, is_none}
use ai_inference_gateway_pla.ApiKeys.Auth.{has_public_id, load_active_key}

-- No two rows have one public id.
abbrev pub IsUnique : List ApiKey → Type 0
IsUnique [] = Unit
IsUnique (k ∷ ks) = All (λ j. has_public_id k.public_id j ≡ false) ks × IsUnique ks

abbrev pub by_public_id : Text → List ApiKey → Option ApiKey
by_public_id p = first (has_public_id p)

-- A key that is revoked is not loaded.
abbrev pub active : Option ApiKey → Option ApiKey
active none = none
active (some k) = elim (is_none k.revoked_at) [ true ↦ some k | false ↦ none ]

no_active :
    (p : Text) (ks : List ApiKey)
    → All (λ j. has_public_id p j ≡ false) ks
    → load_active_key ks p ≡ none
unfolding load_active_key
no_active p [] h = refl
no_active p (k ∷ ks) h = ground (arith, no_active p ks h.1)

-- The query for an active key finds the row with the public id, unless it is revoked.
pub load_active_key-eq :
    (p : Text) (ks : List ApiKey) → IsUnique ks → load_active_key ks p ≡ active (by_public_id p ks)
unfolding load_active_key
load_active_key-eq p [] u = refl
load_active_key-eq p (k ∷ ks) u =
    ground (arith, text_eq→eq k.public_id p, rest_inactive, load_active_key-eq p ks u.1)
  where
    rest_inactive : k.public_id ≡ p → load_active_key ks p ≡ none
    rest_inactive e = subst (λ q. load_active_key ks q ≡ none) e (no_active k.public_id ks u.0)

-- A row of the table is what a look-up by its public id finds.
pub by_public_id-In :
    (k : ApiKey) (ks : List ApiKey) → IsUnique ks → In k ks → by_public_id k.public_id ks ≡ some k
by_public_id-In k [] u m = absurd m
by_public_id-In k (j ∷ ks) u (inl e) = ground (arith, text_eq_refl k.public_id)
by_public_id-In k (j ∷ ks) u (inr m) =
    ground
      (arith, by_public_id-In k ks u.1 m, differs ks u.0 m, text_eq_comm j.public_id k.public_id)
  where
    differs :
        (xs : List ApiKey)
        → All (λ x. has_public_id j.public_id x ≡ false) xs
        → In k xs
        → text_eq k.public_id j.public_id ≡ false
    differs [] a m = absurd m
    differs (x ∷ xs) a (inl e) = rw e a.0
    differs (x ∷ xs) a (inr m) = differs xs a.1 m
