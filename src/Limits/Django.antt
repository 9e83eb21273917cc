-- ===== src/Limits/Django.antt =====
-- `consume_rate_limit` of apps/api_keys/services/limits.py.
use ai_inference_gateway_pla.Base.{
  ℕ, zero, suc, ◌+◌, ◌<◌, ◌≡◌, ◌≢◌, refl, ap, ◌∙◌, Bool, true, false, Option, none, some, List, [],
  ◌∷◌, arith, leb, ◌==◌, if◌then◌else◌, min, All,
}
use ai_inference_gateway_pla.Limits.Cache.{Cache, CacheKey, rpm, IsDead, seconds}
use ai_inference_gateway_pla.Limits.Counter.{
  incr_or_add, incr_or_add-dead, incr_or_add-live, incr_or_add-frame, count_of, incr_or_add-count,
}
use ai_inference_gateway_pla.Limits.Window.{
  window_of, calls_in, admitted_in, run_calls, run_calls-admits,
}

module _ (cache : Cache) where
  open cache use {Store, lookup, incr}

  abbrev answer : ℕ → ℕ × Store → Bool × Store
  answer limit (n, s) = (leb n limit, s)

  unfoldable pub consume_rate_limit : ℕ → ℕ → ℕ → Store → Bool × Store
  consume_rate_limit pk limit now s =
      let key = rpm pk (window_of now) in
      if limit == 0 then (true, s) else answer limit (incr_or_add cache key 120 now s)

  -- The store has counted `c` calls of the key in the window, and will have to its end.
  abbrev pub Counts : ℕ → ℕ → ℕ → Store → Type 0
  Counts pk w zero s = (t : ℕ) → window_of t ≡ w → IsDead t (lookup s (rpm pk w))
  Counts pk w (suc c) s =
      (d : ℕ) × (lookup s (rpm pk w) ≡ some (suc c, d)) × ((t : ℕ) → window_of t ≡ w → t < d)

  consume-counts :
      (pk limit now : ℕ) (s : Store)
      → limit ≢ 0
      → consume_rate_limit pk limit now s
        ≡ answer limit (incr_or_add cache (rpm pk (window_of now)) 120 now s)
  unfolding consume_rate_limit
  consume-counts pk limit now s pos =
      let nonzero : (limit == 0) ≡ false = ground arith in rw nonzero

  Answers : ℕ → ℕ → ℕ → ℕ → Bool × Store → Type 0
  Answers pk limit now c (b, s') = (b ≡ leb (suc c) limit) × Counts pk (window_of now) (suc c) s'

  consume-hit :
      (pk limit now c : ℕ) (s : Store)
      → limit ≢ 0
      → Counts pk (window_of now) c s
      → Answers pk limit now c (consume_rate_limit pk limit now s)
  unfolding Answers
  consume-hit pk limit now zero s pos h =
      let key = rpm pk (window_of now) in
      let (n, stored) = incr_or_add-dead cache key 120 now s (h now refl) in
      rw (consume-counts pk limit now s pos)
        (ap (λ m. leb m limit) n, (now + seconds 120, stored, λ t same. omega arith))
  consume-hit pk limit now (suc c) s pos (d, e, live) =
      let key = rpm pk (window_of now) in
      let (n, stored) = incr_or_add-live cache key 120 now (suc c) d s e (live now refl) in
      let next : suc c + 1 ≡ suc (suc c) = omega arith in
      rw (consume-counts pk limit now s pos)
        (ap (λ m. leb m limit) (n ∙ next), (d, stored ∙ ap (λ m. some (m, d)) next, live))

  rpm-ne : (pk v w : ℕ) → v ≢ w → rpm pk v ≢ rpm pk w
  rpm-ne pk v w apart e = apart (cc)

  Counts-frame :
      (pk w c : ℕ) (s s' : Store)
      → lookup s' (rpm pk w) ≡ lookup s (rpm pk w)
      → Counts pk w c s
      → Counts pk w c s'
  Counts-frame pk w zero s s' e h = λ t q. rw e (h t q)
  Counts-frame pk w (suc c) s s' e (d, f, live) = (d, e ∙ f, live)

  consume-frame :
      (pk limit now w : ℕ) (s : Store)
      → window_of now ≢ w
      → lookup (consume_rate_limit pk limit now s).1 (rpm pk w) ≡ lookup s (rpm pk w)
  unfolding consume_rate_limit
  consume-frame pk limit now w s apart = ground (
    arith,
    incr_or_add-frame cache (rpm pk (window_of now)) (rpm pk w) 120 now s
        (rpm-ne pk (window_of now) w apart),
  )

  -- With a positive limit, the calls of one key, made one after the other, are admitted exactly up
  -- to the limit in every window that the cache has no counter for at the start, whatever the order
  -- of the times. Calls that overlap are not covered: they may exceed the limit.
  pub consume_rate_limit-admits :
      (pk limit w : ℕ) (times : List ℕ) (s : Store)
      → limit ≢ 0
      → lookup s (rpm pk w) ≡ none
      → admitted_in w (run_calls (consume_rate_limit pk limit) times s)
        ≡ min limit (calls_in w times)
  unfolding Answers
  consume_rate_limit-admits pk limit w times s pos fresh =
      run_calls-admits (consume_rate_limit pk limit) limit (Counts pk) (λ t c x h. hit t c x h)
        (λ t v c x apart h. Counts-frame pk v c x _ (consume-frame pk limit t v x apart) h) w times
        s (λ t q. rw fresh tt)
    where
      hit :
          (t c : ℕ) (x : Store)
          → Counts pk (window_of t) c x
          → ((consume_rate_limit pk limit t x).0 ≡ leb (c + 1) limit)
            × Counts pk (window_of t) (c + 1) (consume_rate_limit pk limit t x).1
      hit t c x h = let e : c + 1 ≡ suc c = omega arith in rw e (consume-hit pk limit t c x pos h)

  -- The increments of `m` requests, one after the other.
  pub increments : CacheKey → ℕ → ℕ → Store → List (Option ℕ)
  increments key now zero s = []
  increments key now (suc m) s = (incr key now s).0 ∷ increments key now m (incr key now s).1

  -- The answer of a call rests on its increment alone: 1 counts on a `ValueError`, whether or not
  -- the `add` that follows finds a counter that another request has added in between.
  consume_rate_limit-increment :
      (pk limit now : ℕ) (s : Store)
      → limit ≢ 0
      → (consume_rate_limit pk limit now s).0
        ≡ leb (count_of cache (incr (rpm pk (window_of now)) now s).0) limit
  consume_rate_limit-increment pk limit now s pos =
      rw (consume-counts pk limit now s pos)
        (ap (λ n. leb n limit) (incr_or_add-count cache (rpm pk (window_of now)) 120 now s))

  -- The call is not atomic. With a positive limit and no live counter, the answer of a call is what
  -- its increment makes it; and however many requests increment before the first of them adds the
  -- counter, the answer that each increment makes is yes.
  pub overlap_admits :
      (pk limit now m : ℕ) (s : Store)
      → limit ≢ 0
      → IsDead now (lookup s (rpm pk (window_of now)))
      → ((consume_rate_limit pk limit now s).0
          ≡ leb (count_of cache (incr (rpm pk (window_of now)) now s).0) limit)
        × All
            (λ r. leb (count_of cache r) limit ≡ true)
            (increments (rpm pk (window_of now)) now m s)
  unfolding increments
  overlap_admits pk limit now m s pos dead =
      (consume_rate_limit-increment pk limit now s pos, missed_all m s dead)
    where
      missed_all :
          (k : ℕ) (x : Store)
          → IsDead now (lookup x (rpm pk (window_of now)))
          → All
              (λ r. leb (count_of cache r) limit ≡ true)
              (increments (rpm pk (window_of now)) now k x)
      missed_all zero x gone = tt
      missed_all (suc k) x gone =
          let key = rpm pk (window_of now) in
          let (missed, still) = cache.incr_dead key now x gone in
          (rw missed (ground arith), missed_all k (incr key now x).1 still)
