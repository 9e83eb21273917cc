-- ===== src/ApiKeys/Lifecycle/Unique.antt =====
-- Public ids stay unique through every change, and when `create_api_key` gives up.
use ai_inference_gateway_pla.Base.{
  ℕ, zero, suc, ◌+◌, ◌<◌, ◌≡◌, refl, subst, ◌↔◌, true, false, Option, none, some, List, arith, Text,
  inl, inr, Bool-cases, Option-cases, not, ◌==◌,
}
use ai_inference_gateway_pla.Base.Int.{ℤ}
use ai_inference_gateway_pla.Base.Result.{
  ok, err, or_raise, >>=-eq-ok, or_raise-eq-ok, ok-injective,
}
use ai_inference_gateway_pla.ApiKeys.Model.{ApiKey, Secrets}
use ai_inference_gateway_pla.ApiKeys.Auth.Tables.{IsUnique}
use ai_inference_gateway_pla.ApiKeys.Lifecycle.{
  KeyStore, CreatedApiKey, CreateArgs, no_unique_public_id, allocate, exists, new_key,
  create_api_key, revoke_api_key, delete_api_key, bump_api_key_usage, touch_api_key_used, store_key,
  set_revoked,
}
use ai_inference_gateway_pla.ApiKeys.Lifecycle.Rows.{
  update_key-IsUnique, keep-IsUnique, insert-IsUnique, revoke_api_key-some, revoke_api_key-none,
  revoke_now-keys,
}

-- An allocated public id is not in the table.
pub allocate-fresh :
    (keys : List ApiKey) (draw : ℕ → Text) (n i : ℕ) {p : Text}
    → allocate keys draw n i ≡ some p
    → exists keys p ≡ false
unfolding allocate
allocate-fresh keys draw zero i h = cc
allocate-fresh keys draw (suc n) i {p} h = elim (Bool-cases (exists keys (draw i))) [
  | inl e ↦ allocate-fresh keys draw n (i + 1) (rw e at h)
  | inr e ↦ subst (λ q. exists keys q ≡ false) (ground arith) e
]

abbrev AllTaken : List ApiKey → (ℕ → Text) → ℕ → ℕ → Type 0
AllTaken keys draw n i = (j : ℕ) → j < n → exists keys (draw (i + j)) ≡ true

none-AllTaken :
    (keys : List ApiKey) (draw : ℕ → Text) (n i : ℕ)
    → allocate keys draw n i ≡ none
    → AllTaken keys draw n i
unfolding allocate
none-AllTaken keys draw zero i h j below = absurd (omega arith)
none-AllTaken keys draw (suc n) i h zero below =
    let e : i + 0 ≡ i = omega arith in rw e (ground arith)
none-AllTaken keys draw (suc n) i h (suc j) below =
    let e : i + suc j ≡ i + 1 + j = omega arith in
    rw e (none-AllTaken keys draw n (i + 1) (ground arith) j (omega arith))

AllTaken-none :
    (keys : List ApiKey) (draw : ℕ → Text) (n i : ℕ)
    → AllTaken keys draw n i
    → allocate keys draw n i ≡ none
unfolding allocate
AllTaken-none keys draw zero i h = refl
AllTaken-none keys draw (suc n) i h =
    let first_taken : exists keys (draw i) ≡ true =
      subst (λ k. exists keys (draw k) ≡ true) (omega arith) (h 0 (omega arith)) in
    rw first_taken (AllTaken-none keys draw n (i + 1) later)
  where
    later : AllTaken keys draw n (i + 1)
    later j below = subst (λ k. exists keys (draw k) ≡ true) (omega arith) (h (suc j) (omega arith))

module _ (hmac : Text → Text → Text) (secrets : Secrets) where
  -- One call that changes the tables.
  pub data Change (s : KeyStore) : KeyStore → Type 0 where
    created :
        (a : CreateArgs) {c : CreatedApiKey} {t : KeyStore}
        → create_api_key hmac secrets a s ≡ ok (c, t)
        → Change s t
    revoked :
        (key : ApiKey) (actor : Option ℕ) (reason : Text) (now : ℕ)
        → Change s (revoke_api_key key actor reason now s).store
    deleted :
        (key : ApiKey) (actor : Option ℕ) (pk_text : Text)
        → Change s (delete_api_key key actor pk_text s)
    bumped :
        (key : ApiKey) (prompt_tokens completion_tokens : ℤ) (now : ℕ)
        → Change s (bump_api_key_usage key prompt_tokens completion_tokens now s)
    touched : (key_id now : ℕ) → Change s (touch_api_key_used key_id now s)

  pub data Reach (s : KeyStore) : KeyStore → Type 0 where
    here : Reach s s
    next : {t u : KeyStore} → Reach s t → Change t u → Reach s u

  pub create_api_key-ok :
      (a : CreateArgs) (s : KeyStore) {r : CreatedApiKey × KeyStore}
      → create_api_key hmac secrets a s ≡ ok r
      → (p : Text) × (allocate s.keys a.draw 5 0 ≡ some p) × (store_key hmac secrets a p s ≡ r)
  unfolding create_api_key
  create_api_key-ok a s h =
      let (p, e, k) = >>=-eq-ok (or_raise (allocate s.keys a.draw 5 0) no_unique_public_id) _ h in
      (p, or_raise-eq-ok _ _ e, ok-injective k)

  Change-IsUnique : {s t : KeyStore} → Change s t → IsUnique s.keys → IsUnique t.keys
  Change-IsUnique {s} (created a {c} {t} h) u =
      let (p, e, k) = create_api_key-ok a s h in
      subst (λ (r : CreatedApiKey × KeyStore). IsUnique r.1.keys) k
        (unfold store_key in
          insert-IsUnique (new_key hmac secrets a p) s.keys (allocate-fresh s.keys a.draw 5 0 e) u)
  Change-IsUnique {s} (revoked key actor reason now) u = elim (Option-cases key.revoked_at) [
    | inl e ↦
        rw (revoke_api_key-none key actor reason now s e)
          (elim (revoke_now-keys key actor reason now s) [
            | inl q ↦ rw q (update_key-IsUnique key.id (set_revoked now) (λ k. refl) s.keys u)
            | inr (_, q) ↦ rw q u
          ])
    | inr (t, e) ↦ rw (revoke_api_key-some key actor reason now s e) u
  ]
  Change-IsUnique {s} (deleted key actor pk_text) u =
      unfold delete_api_key in keep-IsUnique (λ k. not (k.id == key.id)) s.keys u
  Change-IsUnique {s} (bumped key x y now) u =
      unfold bump_api_key_usage in update_key-IsUnique key.id _ (λ k. refl) s.keys u
  Change-IsUnique {s} (touched key_id now) u =
      unfold touch_api_key_used in update_key-IsUnique key_id _ (λ k. refl) s.keys u

  -- Whatever keys are created, revoked, deleted and used, two rows never share a public id, if none
  -- do at the start.
  pub Reach-IsUnique : {s t : KeyStore} → IsUnique s.keys → Reach s t → IsUnique t.keys
  Reach-IsUnique u here = u
  Reach-IsUnique u (next r c) = Change-IsUnique c (Reach-IsUnique u r)

  -- `create_api_key` raises exactly if each of its five draws is the public id of some row.
  pub create_api_key-raises :
      (a : CreateArgs) (s : KeyStore)
      → (create_api_key hmac secrets a s ≡ err no_unique_public_id)
        ↔ ((j : ℕ) → j < 5 → exists s.keys (a.draw j) ≡ true)
  create_api_key-raises a s = (only_if, if_all)
    where
      only_if :
          create_api_key hmac secrets a s ≡ err no_unique_public_id
          → (j : ℕ) → j < 5
          → exists s.keys (a.draw j) ≡ true
      only_if h j below = elim (Option-cases (allocate s.keys a.draw 5 0)) [
        | inl e ↦
            subst (λ k. exists s.keys (a.draw k) ≡ true) (omega arith)
              (none-AllTaken s.keys a.draw 5 0 e j below)
        | inr (p, e) ↦ absurd (unfold create_api_key in ground arith)
      ]

      if_all :
          ((j : ℕ) → j < 5 → exists s.keys (a.draw j) ≡ true)
          → create_api_key hmac secrets a s ≡ err no_unique_public_id
      if_all h =
          let e : allocate s.keys a.draw 5 0 ≡ none =
            AllTaken-none s.keys a.draw 5 0
              (λ j below. subst (λ k. exists s.keys (a.draw k) ≡ true) (omega arith) (h j below)) in
          unfold create_api_key in rw (e, create_api_key)
