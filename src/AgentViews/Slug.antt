-- ===== src/AgentViews/Slug.antt =====
-- The loop that looks for a free slug ends, and with one.
use mathlib.Core.Option.{some-injective}
use ai_inference_gateway_pla.Base.{
  ℕ, zero, suc, ◌+◌, ◌≤◌, ◌<◌, ◌≡◌, ◌≢◌, ◌⊎◌, refl, sym, ap, subst, ◌∙◌, inl, inr, true, false,
  Bool-cases, Option, Option-cases, none, some, List, [], ◌∷◌, ◌++◌, Text, codes, length,
  length-map, In, text_eq, text_eq→eq, arith, ==_iff, ◌==◌, strip, drop, drop-length-append,
  decimal, decimal-injective, if◌then◌else◌, pigeonhole,
}
use ai_inference_gateway_pla.Base.Result.{Result, err, ok}
use ai_inference_gateway_pla.Chunker.{is_empty}
use ai_inference_gateway_pla.AgentViews.{
  AgentData, AgentRow, Response, name_required, created, get, slugs_of, exists, free_slug,
  new_agent, raised, insert_agent, create_agent, after_loop, post,
}

-- What the loop tries in round `n`.
abbrev pub candidate : Text → ℕ → Text
candidate slug_base zero = slug_base
candidate slug_base (suc n) = slug_base ++ (codes "-" ++ decimal (suc n))

behind-base :
    (slug_base : Text) (n : ℕ)
    → drop (length slug_base) (candidate slug_base (suc n)) ≡ codes "-" ++ decimal (suc n)
behind-base slug_base n = drop-length-append slug_base (codes "-" ++ decimal (suc n))

base_alone : (slug_base : Text) → drop (length slug_base) slug_base ≡ []
base_alone [] = refl
base_alone (c ∷ s) = base_alone s

candidate-injective :
    (slug_base : Text) (i j : ℕ) → candidate slug_base i ≡ candidate slug_base j → i ≡ j
candidate-injective slug_base zero zero h = refl
candidate-injective slug_base zero (suc j) h =
    let empty =
      sym (base_alone slug_base) ∙ ap (drop (length slug_base)) h ∙ behind-base slug_base j in
    let never : [] ≡ b'-' ∷ decimal (suc j) = empty in cc
candidate-injective slug_base (suc i) zero h =
    let empty =
      sym (behind-base slug_base i) ∙ ap (drop (length slug_base)) h ∙ base_alone slug_base in
    let never : b'-' ∷ decimal (suc i) ≡ [] = empty in cc
candidate-injective slug_base (suc i) (suc j) h = decimal-injective (suc i) (suc j) (
    ap (drop 1)
      (sym (behind-base slug_base i) ∙ ap (drop (length slug_base)) h ∙ behind-base slug_base j))

exists-In : (slug : Text) (slugs : List Text) → exists slug slugs ≡ true → In slug slugs
exists-In slug [] h = cc
exists-In slug (other ∷ others) h = elim (Bool-cases (text_eq slug other)) [
  | inl e ↦ inl (text_eq→eq slug other e)
  | inr e ↦ inr (exists-In slug others (rw e at h))
]

text_eq_self : (s : Text) → text_eq s s ≡ true
text_eq_self [] = refl
text_eq_self (c ∷ s) = ground (arith, text_eq_self s)

In-exists : (slug : Text) (slugs : List Text) → In slug slugs → exists slug slugs ≡ true
In-exists slug [] m = absurd m
In-exists slug (other ∷ others) (inl e) =
    let same : text_eq slug other ≡ true =
      subst (λ t. text_eq slug t ≡ true) e (text_eq_self slug) in
    rw same refl
In-exists slug (other ∷ others) (inr m) = elim (Bool-cases (text_eq slug other)) [
  | inl e ↦ rw e refl
  | inr e ↦ rw e (In-exists slug others m)
]

module _ (slugs : List Text) (slug_base : Text) where
  -- The loop in round `n`.
  abbrev from : ℕ → ℕ → Option Text
  from rounds n = free_slug rounds slugs slug_base (candidate slug_base n) (suc n)

  from_taken :
      (rounds n : ℕ)
      → exists (candidate slug_base n) slugs ≡ true
      → from (suc rounds) n ≡ from rounds (suc n)
  unfolding free_slug
  from_taken rounds n e = rw (e, free_slug) refl

  from_free :
      (rounds n : ℕ)
      → exists (candidate slug_base n) slugs ≡ false
      → from (suc rounds) n ≡ some (candidate slug_base n)
  unfolding free_slug
  from_free rounds n e = rw (e, free_slug) refl

  -- Where the loop has too few rounds, all that it tried is taken.
  from-none :
      (rounds n i : ℕ)
      → from rounds n ≡ none
      → n ≤ i
      → i < n + rounds
      → In (candidate slug_base i) slugs
  from-none zero n i h low high = absurd (omega (arith, low, high))
  from-none (suc rounds) n i h low high = elim (Bool-cases (exists (candidate slug_base n) slugs)) [
    | inr e ↦ let never : some (candidate slug_base n) ≡ none = sym (from_free rounds n e) ∙ h in cc
    | inl e ↦ elim (Bool-cases (i == n)) [
      | inl f ↦
          subst (λ k. In (candidate slug_base k) slugs) (sym ((==_iff i n).0 f))
            (exists-In (candidate slug_base n) slugs e)
      | inr f ↦
          from-none rounds (suc n) i (sym (from_taken rounds n e) ∙ h) (ground arith)
            (omega (arith, high))
    ]
  ]

  -- What the loop ends with is the first candidate that is not taken.
  abbrev pub IsUnused : ℕ → Type 0
  IsUnused n =
      (In (candidate slug_base n) slugs → ⊥) × ((i : ℕ) → i < n → In (candidate slug_base i) slugs)

  from-some :
      (rounds n : ℕ) (slug : Text)
      → ((i : ℕ) → i < n → In (candidate slug_base i) slugs)
      → from rounds n ≡ some slug
      → (k : ℕ) × (slug ≡ candidate slug_base k) × IsUnused k
  unfolding free_slug
  from-some zero n slug taken h = cc
  from-some (suc rounds) n slug taken h = elim (Bool-cases (exists (candidate slug_base n) slugs)) [
    | inr e ↦ (
      n,
      some-injective slug (candidate slug_base n) (sym h ∙ from_free rounds n e),
      (
        λ m. let never : true ≡ false = sym (In-exists (candidate slug_base n) slugs m) ∙ e in cc,
        taken,
      ),
    )
    | inl e ↦
        from-some rounds (suc n) slug
          (λ i low. elim (Bool-cases (i == n)) [
            | inl f ↦
                subst (λ k. In (candidate slug_base k) slugs) (sym ((==_iff i n).0 f))
                  (exists-In (candidate slug_base n) slugs e)
            | inr f ↦ taken i (ground arith)
          ])
          (sym (from_taken rounds n e) ∙ h)
  ]

  free_slug-some :
      (rounds : ℕ)
      → length slugs < rounds
      → (k : ℕ) × (from rounds 0 ≡ some (candidate slug_base k)) × IsUnused k
  free_slug-some rounds enough = elim (Option-cases (from rounds 0)) [
    | inl e ↦
        let fits =
          pigeonhole (candidate slug_base) 0 rounds slugs (candidate-injective slug_base)
            (λ i low high. from-none rounds 0 i e low high) in
        absurd (omega (arith, fits, enough))
    | inr (slug, e) ↦
        let (k, same, free) = from-some rounds 0 slug (λ i low. absurd (omega (arith, low))) e in
        (k, e ∙ ap some same, free)
  ]

module _ (slugify : Text → Text) (insert_raises : AgentRow → Option Text) (rows : List AgentRow)
    (body : AgentData) where
  -- What the insertion of this agent leaves: the agent behind the others, or its exception.
  abbrev pub IsInserted : AgentRow → List AgentRow × Option Response → Type 0
  IsInserted agent end =
      ((insert_raises agent ≡ none) × (end ≡ (rows ++ (agent ∷ []), some (created agent.slug))))
      ⊎ ((exc : Text) × (insert_raises agent ≡ some exc) × (end ≡ (rows, some (raised exc))))

  -- What the creation under this slug leaves.
  abbrev pub IsCreated : Text → Text → List AgentRow × Option Response → Type 0
  IsCreated name slug end =
      ((exc : Text) × (get body.max_results (ok 25) ≡ err exc) × (end ≡ (rows, some (raised exc))))
      ⊎ ((n : ℕ) × (get body.max_results (ok 25) ≡ ok n)
          × IsInserted (new_agent body name slug n) end)

  -- Refused, or the creation under the first candidate that no agent has.
  abbrev pub IsPosted : Text → List AgentRow × Option Response → Type 0
  IsPosted name end =
      ((name ≡ []) × (end ≡ (rows, some name_required)))
      ⊎ ((name ≢ [])
          × ((k : ℕ) × IsUnused (slugs_of rows) (slugify name) k
              × IsCreated name (candidate (slugify name) k) end))

  insert_agent-IsInserted :
      (agent : AgentRow) → IsInserted agent (insert_agent slugify insert_raises rows agent)
  insert_agent-IsInserted agent = elim (Option-cases (insert_raises agent)) [
    | inl e ↦ inl (e, rw (insert_agent, e) refl)
    | inr (exc, e) ↦ inr (exc, e, rw (insert_agent, e) refl)
  ]

  create_agent-IsCreated :
      (name slug : Text) (count : Result Text ℕ)
      → get body.max_results (ok 25) ≡ count
      → IsCreated name slug (create_agent slugify insert_raises rows body name slug count)
  create_agent-IsCreated name slug (err exc) e = inl (exc, e, refl)
  create_agent-IsCreated name slug (ok n) e =
      inr (n, e, insert_agent-IsInserted (new_agent body name slug n))

  named_IsPosted :
      (name : Text)
      → IsPosted name (
          if is_empty name
          then (rows, some name_required)
          else after_loop slugify insert_raises rows body name
              (free_slug (suc (length rows)) (slugs_of rows) (slugify name) (slugify name) 1))
  named_IsPosted [] = inl (refl, refl)
  named_IsPosted (c ∷ s) =
      let (k, found, free) =
        free_slug-some (slugs_of rows) (slugify (c ∷ s)) (suc (length rows))
          (omega (arith, length-map (λ (r : AgentRow). r.slug) rows)) in
      inr (
        (λ h. cc),
        (
          k,
          free,
          subst
              (λ o.
                IsCreated (c ∷ s) (candidate (slugify (c ∷ s)) k)
                  (after_loop slugify insert_raises rows body (c ∷ s) o))
              (sym found)
              (create_agent-IsCreated (c ∷ s) (candidate (slugify (c ∷ s)) k)
                (get body.max_results (ok 25)) refl),
        ),
      )

  -- Every request to create an agent is answered, since the loop over the slugs ends: a name that is
  -- empty without its white space is refused and changes nothing, and any other creates one agent,
  -- unless `max_results` is no number or the insertion raises, which changes nothing. No agent had
  -- the new one's slug; it is the first of the slug of the name and the numbered ones behind it that
  -- is free.
  pub post-IsPosted : IsPosted (strip (get body.name [])) (post slugify insert_raises rows body)
  unfolding post
  post-IsPosted = named_IsPosted (strip (get body.name []))
