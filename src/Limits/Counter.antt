-- ===== src/Limits/Counter.antt =====
-- `try: cache.incr(key) except ValueError: cache.add(key, 1, timeout=…)`, which the rate limit and
-- the request quota share.
use ai_inference_gateway_pla.Base.{ℕ, ◌+◌, ◌<◌, ◌≡◌, ◌≢◌, refl, ◌∙◌, Option, none, some, arith}
use ai_inference_gateway_pla.Limits.Cache.{Cache, CacheKey, IsDead, seconds}

module _ (cache : Cache) where
  open cache use {Store, lookup, incr, add}

  or_add : CacheKey → ℕ → ℕ → Option ℕ × Store → ℕ × Store
  or_add key timeout now (some n, s) = (n, s)
  or_add key timeout now (none, s) = (1, add key 1 timeout now s)

  -- The new count and the store.
  unfoldable pub incr_or_add : CacheKey → ℕ → ℕ → Store → ℕ × Store
  unfolding or_add
  incr_or_add key timeout now s = or_add key timeout now (incr key now s)

  -- What a caller counts as, by what the increment gave.
  abbrev pub count_of : Option ℕ → ℕ
  count_of none = 1
  count_of (some n) = n

  or_add-count :
      (key : CacheKey) (timeout now : ℕ) (r : Option ℕ × Store)
      → (or_add key timeout now r).0 ≡ count_of r.0
  unfolding or_add
  or_add-count key timeout now (none, s) = refl
  or_add-count key timeout now (some n, s) = refl

  pub incr_or_add-count :
      (key : CacheKey) (timeout now : ℕ) (s : Store)
      → (incr_or_add key timeout now s).0 ≡ count_of (incr key now s).0
  unfolding incr_or_add
  incr_or_add-count key timeout now s = or_add-count key timeout now (incr key now s)

  or_add-none :
      (key : CacheKey) (timeout now : ℕ) (r : Option ℕ × Store)
      → r.0 ≡ none
      → or_add key timeout now r ≡ (1, add key 1 timeout now r.1)
  unfolding or_add
  or_add-none key timeout now (none, s) h = refl
  or_add-none key timeout now (some n, s) h = cc

  or_add-some :
      (key : CacheKey) (timeout now n : ℕ) (r : Option ℕ × Store)
      → r.0 ≡ some n
      → or_add key timeout now r ≡ (n, r.1)
  unfolding or_add
  or_add-some key timeout now n (none, s) h = cc
  or_add-some key timeout now n (some m, s) h = ground arith

  -- A counter that is not there starts at 1, and lives for the timeout.
  pub incr_or_add-dead :
      (key : CacheKey) (timeout now : ℕ) (s : Store)
      → IsDead now (lookup s key)
      → ((incr_or_add key timeout now s).0 ≡ 1)
        × (lookup (incr_or_add key timeout now s).1 key ≡ some (1, now + seconds timeout))
  unfolding incr_or_add
  incr_or_add-dead key timeout now s dead =
      let (missed, still) = cache.incr_dead key now s dead in
      rw (or_add-none key timeout now (incr key now s) missed)
        (refl, cache.add_dead key 1 timeout now (incr key now s).1 still)

  -- A live counter goes up by one, and keeps its deadline.
  pub incr_or_add-live :
      (key : CacheKey) (timeout now v d : ℕ) (s : Store)
      → lookup s key ≡ some (v, d)
      → now < d
      → ((incr_or_add key timeout now s).0 ≡ v + 1)
        × (lookup (incr_or_add key timeout now s).1 key ≡ some (v + 1, d))
  unfolding incr_or_add
  incr_or_add-live key timeout now v d s stored live =
      let (found, next) = cache.incr_live key now v d s stored live in
      rw (or_add-some key timeout now (v + 1) (incr key now s) found) (refl, next)

  or_add-frame :
      (key other : CacheKey) (timeout now : ℕ) (r : Option ℕ × Store)
      → key ≢ other
      → lookup (or_add key timeout now r).1 other ≡ lookup r.1 other
  unfolding or_add
  or_add-frame key other timeout now (none, s) apart =
      cache.add_frame key other 1 timeout now s apart
  or_add-frame key other timeout now (some n, s) apart = refl

  pub incr_or_add-frame :
      (key other : CacheKey) (timeout now : ℕ) (s : Store)
      → key ≢ other
      → lookup (incr_or_add key timeout now s).1 other ≡ lookup s other
  unfolding incr_or_add
  incr_or_add-frame key other timeout now s apart =
      or_add-frame key other timeout now (incr key now s) apart
      ∙ cache.incr_frame key other now s apart
