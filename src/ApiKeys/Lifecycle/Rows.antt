-- ===== src/ApiKeys/Lifecycle/Rows.antt =====
-- What an update, an insertion and a deletion do to the rows of the key table.
use ai_inference_gateway_pla.Base.{
  ℕ, ◌≡◌, refl, Bool, true, false, Option, Bool-cases, ◌≢◌, none, some, List, [], ◌∷◌, ◌++◌, arith,
  Text, In, All, keep, inl, inr, ◌⊎◌, text_eq_comm, if◌then◌else◌, ◌==◌,
}
use ai_inference_gateway_pla.ApiKeys.Model.{ApiKey}
use ai_inference_gateway_pla.ApiKeys.Auth.{has_public_id}
use ai_inference_gateway_pla.ApiKeys.Auth.Tables.{IsUnique}
use ai_inference_gateway_pla.ApiKeys.Lifecycle.{
  KeyStore, update_key, exists, revoke_api_key, revoke_now, has_row, set_revoked,
}

-- A row after an update is a row before it, changed if it has the primary key.
pub update_key-In :
    (pk : ℕ) (f : ApiKey → ApiKey) (ks : List ApiKey) {k : ApiKey}
    → In k (update_key pk f ks)
    → (j : ApiKey) × In j ks × (k ≡ (if j.id == pk then f j else j))
unfolding update_key
update_key-In pk f [] m = absurd m
update_key-In pk f (j ∷ ks) (inl e) = (j, inl refl, e)
update_key-In pk f (j ∷ ks) (inr m) = let (i, n, e) = update_key-In pk f ks m in (i, inr n, e)

keep_cons-In :
    {A : Type 0} (b : Bool) (x : A) (rest : List A) {a : A}
    → In a (elim b [ true ↦ x ∷ rest | false ↦ rest ])
    → ((b ≡ true) × (a ≡ x)) ⊎ In a rest
keep_cons-In true x rest (inl e) = inl (refl, e)
keep_cons-In true x rest (inr m) = inr m
keep_cons-In false x rest m = inr m

pub keep-In :
    {A : Type 0} (p : A → Bool) (xs : List A) {a : A} → In a (keep p xs) → In a xs × (p a ≡ true)
keep-In p [] m = absurd m
keep-In p (x ∷ xs) {a} m = elim (keep_cons-In (p x) x (keep p xs) m) [
  | inl (t, e) ↦ (inl e, rw e t)
  | inr n ↦ let (k, t) = keep-In p xs {a = a} n in (inr k, t)
]

module _ (pk : ℕ) (f : ApiKey → ApiKey)
    (same_id : (k : ApiKey) → (f k).public_id ≡ k.public_id) where
  update_key-differs :
      (p : Text) (ks : List ApiKey)
      → All (λ j. has_public_id p j ≡ false) ks
      → All (λ j. has_public_id p j ≡ false) (update_key pk f ks)
  unfolding update_key
  update_key-differs p [] h = tt
  update_key-differs p (k ∷ ks) h = (ground (arith, same_id k), update_key-differs p ks h.1)

  pub update_key-IsUnique : (ks : List ApiKey) → IsUnique ks → IsUnique (update_key pk f ks)
  unfolding update_key
  update_key-IsUnique [] u = tt
  update_key-IsUnique (k ∷ ks) u =
      let q : (if k.id == pk then f k else k).public_id ≡ k.public_id = ground (arith, same_id k) in
      (rw q (update_key-differs k.public_id ks u.0), update_key-IsUnique ks u.1)

module _ (p : ApiKey → Bool) where
  keep-differs :
      (t : Text) (ks : List ApiKey)
      → All (λ j. has_public_id t j ≡ false) ks
      → All (λ j. has_public_id t j ≡ false) (keep p ks)
  keep-differs t [] h = tt
  keep-differs t (k ∷ ks) h = ground (arith, keep-differs t ks h.1)

  pub keep-IsUnique : (ks : List ApiKey) → IsUnique ks → IsUnique (keep p ks)
  keep-IsUnique [] u = tt
  keep-IsUnique (k ∷ ks) u = ground (arith, keep-IsUnique ks u.1, keep-differs k.public_id ks u.0)

append-differs :
    (key : ApiKey) (p : Text) (ks : List ApiKey)
    → has_public_id p key ≡ false
    → All (λ j. has_public_id p j ≡ false) ks
    → All (λ j. has_public_id p j ≡ false) (ks ++ key ∷ [])
append-differs key p [] d h = (d, tt)
append-differs key p (k ∷ ks) d h = (h.0, append-differs key p ks d h.1)

pub insert-IsUnique :
    (key : ApiKey) (ks : List ApiKey)
    → exists ks key.public_id ≡ false
    → IsUnique ks
    → IsUnique (ks ++ key ∷ [])
insert-IsUnique key [] h u = (tt, tt)
insert-IsUnique key (k ∷ ks) h u =
    let d : has_public_id k.public_id key ≡ false =
      ground (arith, text_eq_comm key.public_id k.public_id) in
    let later : exists ks key.public_id ≡ false = ground arith in
    (append-differs key k.public_id ks d u.0, insert-IsUnique key ks later u.1)

pub append-In : {A : Type 0} (xs : List A) (y : A) → In y (xs ++ y ∷ [])
append-In [] y = inl refl
append-In (x ∷ xs) y = inr (append-In xs y)

-- Revoking a revoked key changes nothing.
pub revoke_api_key-some :
    (key : ApiKey) (actor : Option ℕ) (reason : Text) (now : ℕ) (s : KeyStore) {t : ℕ}
    → key.revoked_at ≡ some t
    → revoke_api_key key actor reason now s ≡ record { key = key; store = s; raised = false }
unfolding revoke_api_key
revoke_api_key-some key actor reason now s e = ground arith

pub revoke_api_key-none :
    (key : ApiKey) (actor : Option ℕ) (reason : Text) (now : ℕ) (s : KeyStore)
    → key.revoked_at ≡ none
    → revoke_api_key key actor reason now s ≡ revoke_now key actor reason now s
unfolding revoke_api_key
revoke_api_key-none key actor reason now s e = ground arith

-- Revoking now changes the rows with the key's primary key, and none where there are none.
pub revoke_now-keys :
    (key : ApiKey) (actor : Option ℕ) (reason : Text) (now : ℕ) (s : KeyStore)
    → ((revoke_now key actor reason now s).store.keys ≡ update_key key.id (set_revoked now) s.keys)
      ⊎ ((has_row key.id s.keys ≡ false)
          × ((revoke_now key actor reason now s).store.keys ≡ s.keys))
unfolding revoke_now
revoke_now-keys key actor reason now s = elim (Bool-cases (has_row key.id s.keys)) [
  | inl e ↦ rw e (inl refl)
  | inr e ↦ rw e (inr (refl, refl))
]

pub no_row :
    (pk : ℕ) (keys : List ApiKey) (j : ApiKey) → has_row pk keys ≡ false → In j keys → j.id ≢ pk
no_row pk [] j h m = absurd m
no_row pk (k ∷ ks) j h (inl e) = λ q. ground arith
no_row pk (k ∷ ks) j h (inr m) = no_row pk ks j (ground arith) m
