-- ===== src/Limits/Gateway.antt =====
-- `consume_rate_limit` of deploy/gateway/gateway/limits.py, which lets a request pass when Redis
-- fails.
use ai_inference_gateway_pla.Base.{
  ℕ, zero, suc, ◌+◌, ◌<◌, ◌≡◌, ◌≢◌, refl, ap, ◌∙◌, Bool, true, false, Option, none, some, List,
  arith, leb, ◌==◌, if◌then◌else◌, min, inl, inr, Option-cases, Bool-cases, ==_iff,
}
use ai_inference_gateway_pla.Limits.Cache.{Redis, CacheKey, rpm, IsGone, seconds}
use ai_inference_gateway_pla.Limits.Window.{
  window_of, calls_in, admitted_in, run_calls, run_calls-admits,
}

module _ (redis : Redis) where
  open redis use {Store, lookup, incr, expire}

  abbrev after_expire : Bool → Option (Unit {0}) × Store → Bool × Store
  after_expire within (none, s) = (true, s)
  after_expire within (some _, s) = (within, s)

  abbrev after_incr : CacheKey → ℕ → ℕ → Option ℕ × Store → Bool × Store
  after_incr key limit now (none, s) = (true, s)
  after_incr key limit now (some n, s) =
      if n == 1 then after_expire (leb n limit) (expire key 120 now s) else (leb n limit, s)

  unfoldable pub consume_rate_limit : ℕ → ℕ → ℕ → Store → Bool × Store
  consume_rate_limit api_key_id limit now s =
      let key = rpm api_key_id (window_of now) in
      if limit == 0 then (true, s) else after_incr key limit now (incr key now s)

  -- Redis answers every call.
  pub record IsUp : Type 0 where
    pub incr_up : (k : CacheKey) (now : ℕ) (s : Store) → (incr k now s).0 ≢ none
    pub expire_up : (k : CacheKey) (timeout now : ℕ) (s : Store) → (expire k timeout now s).0 ≢ none

  -- The store has counted `c` calls of the key in the window, and will have to its end.
  abbrev pub Counts : ℕ → ℕ → ℕ → Store → Type 0
  Counts pk w zero s = (t : ℕ) → window_of t ≡ w → IsGone t (lookup s (rpm pk w))
  Counts pk w (suc c) s =
      (d : ℕ) × (lookup s (rpm pk w) ≡ some (suc c, some d)) × ((t : ℕ) → window_of t ≡ w → t < d)

  Answers : ℕ → ℕ → ℕ → ℕ → Bool × Store → Type 0
  Answers pk limit now c (b, s') = (b ≡ leb (suc c) limit) × Counts pk (window_of now) (suc c) s'

  after_incr-first :
      (key : CacheKey) (limit now : ℕ) (r : Option ℕ × Store)
      → r.0 ≡ some 1
      → after_incr key limit now r ≡ after_expire (leb 1 limit) (expire key 120 now r.1)
  after_incr-first key limit now (none, x) e = cc
  after_incr-first key limit now (some m, x) e = let q : m ≡ 1 = ground arith in rw q refl

  after_incr-later :
      (key : CacheKey) (limit now c : ℕ) (r : Option ℕ × Store)
      → r.0 ≡ some (suc (suc c))
      → after_incr key limit now r ≡ (leb (suc (suc c)) limit, r.1)
  after_incr-later key limit now c (none, x) e = cc
  after_incr-later key limit now c (some m, x) e =
      let q : m ≡ suc (suc c) = ground arith in
      rw q (let far : (suc (suc c) == 1) ≡ false = ground arith in rw far)

  after_expire-up :
      (b : Bool) (q : Option (Unit {0}) × Store) → q.0 ≢ none → after_expire b q ≡ (b, q.1)
  after_expire-up b (none, s) h = absurd (h refl)
  after_expire-up b (some u, s) h = refl

  answered : (k : CacheKey) (now : ℕ) (s : Store) → IsUp → (n : ℕ) × ((incr k now s).0 ≡ some n)
  answered k now s up = elim (Option-cases (incr k now s).0) [
    | inl e ↦ absurd (up.incr_up k now s e)
    | inr (n, e) ↦ (n, e)
  ]

  consume-incr :
      (pk limit now : ℕ) (s : Store) (r : Bool × Store)
      → limit ≢ 0
      → after_incr (rpm pk (window_of now)) limit now (incr (rpm pk (window_of now)) now s) ≡ r
      → consume_rate_limit pk limit now s ≡ r
  unfolding consume_rate_limit
  consume-incr pk limit now s r pos e =
      let nonzero : (limit == 0) ≡ false = ground arith in rw nonzero e

  consume-hit :
      (pk limit now c : ℕ) (s : Store)
      → limit ≢ 0
      → IsUp
      → Counts pk (window_of now) c s
      → Answers pk limit now c (consume_rate_limit pk limit now s)
  unfolding Answers
  consume-hit pk limit now zero s pos up h =
      let key = rpm pk (window_of now) in
      let (n, e) = answered key now s up in
      let (en, fresh) = redis.incr_gone key now n s (h now refl) e in
      let x = (incr key now s).1 in
      let up' = up.expire_up key 120 now x in
      rw
        (consume-incr pk limit now s _ pos (
          after_incr-first key limit now (incr key now s) (e ∙ ap some en)
          ∙ after_expire-up (leb 1 limit) (expire key 120 now x) up'))
        (
          refl,
          (
            now + seconds 120,
            redis.expire_current key 120 now 1 none x fresh tt up',
            λ t same. omega arith,
          ),
        )
  consume-hit pk limit now (suc c) s pos up (d, stored, live) =
      let key = rpm pk (window_of now) in
      let (n, e) = answered key now s up in
      let (en, kept) = redis.incr_current key now (suc c) n (some d) s stored (live now refl) e in
      let next : suc c + 1 ≡ suc (suc c) = omega arith in
      rw
        (consume-incr pk limit now s _ pos
          (after_incr-later key limit now c (incr key now s) (e ∙ ap some (en ∙ next))))
        (refl, (d, kept ∙ ap (λ m. some (m, some d)) next, live))

  rpm-ne : (pk v w : ℕ) → v ≢ w → rpm pk v ≢ rpm pk w
  rpm-ne pk v w apart e = apart (cc)

  Counts-frame :
      (pk w c : ℕ) (s s' : Store)
      → lookup s' (rpm pk w) ≡ lookup s (rpm pk w)
      → Counts pk w c s
      → Counts pk w c s'
  Counts-frame pk w zero s s' e h = λ t q. rw e (h t q)
  Counts-frame pk w (suc c) s s' e (d, f, live) = (d, e ∙ f, live)

  after_expire-store : (b : Bool) (q : Option (Unit {0}) × Store) → (after_expire b q).1 ≡ q.1
  after_expire-store b (none, s) = refl
  after_expire-store b (some u, s) = refl

  after_incr-frame :
      (key other : CacheKey) (limit now : ℕ) (r : Option ℕ × Store)
      → key ≢ other
      → lookup (after_incr key limit now r).1 other ≡ lookup r.1 other
  after_incr-frame key other limit now (none, s) apart = refl
  after_incr-frame key other limit now (some n, s) apart = ground (
    arith,
    after_expire-store (leb n limit) (expire key 120 now s),
    redis.expire_frame key other 120 now s apart,
  )

  consume-frame :
      (pk limit now w : ℕ) (s : Store)
      → window_of now ≢ w
      → lookup (consume_rate_limit pk limit now s).1 (rpm pk w) ≡ lookup s (rpm pk w)
  unfolding consume_rate_limit
  consume-frame pk limit now w s apart =
      let key = rpm pk (window_of now) in
      let far = rpm-ne pk (window_of now) w apart in
      ground (
        arith,
        after_incr-frame key (rpm pk w) limit now (incr key now s) far,
        redis.incr_frame key (rpm pk w) now s far,
      )

  -- With a positive limit and while Redis answers, the calls of one key are admitted exactly up to
  -- the limit in every window that Redis has no counter for at the start, whatever the order of the
  -- times.
  pub redis_limit-admits :
      (pk limit w : ℕ) (times : List ℕ) (s : Store)
      → limit ≢ 0
      → IsUp
      → lookup s (rpm pk w) ≡ none
      → admitted_in w (run_calls (consume_rate_limit pk limit) times s)
        ≡ min limit (calls_in w times)
  unfolding Answers
  redis_limit-admits pk limit w times s pos up fresh =
      run_calls-admits (consume_rate_limit pk limit) limit (Counts pk) hit
        (λ t v c x apart h. Counts-frame pk v c x _ (consume-frame pk limit t v x apart) h) w times
        s (λ t q. rw fresh tt)
    where
      hit :
          (t c : ℕ) (x : Store)
          → Counts pk (window_of t) c x
          → ((consume_rate_limit pk limit t x).0 ≡ leb (c + 1) limit)
            × Counts pk (window_of t) (c + 1) (consume_rate_limit pk limit t x).1
      hit t c x h =
          let e : c + 1 ≡ suc c = omega arith in rw e (consume-hit pk limit t c x pos up h)

  after_expire-refuses :
      (b : Bool) (q : Option (Unit {0}) × Store) → (after_expire b q).0 ≡ false → b ≡ false
  after_expire-refuses b (none, s) h = cc
  after_expire-refuses b (some u, s) h = h

  after_incr-refuses :
      (key : CacheKey) (limit now : ℕ) (r : Option ℕ × Store)
      → (after_incr key limit now r).0 ≡ false
      → (n : ℕ) × (r.0 ≡ some n) × (limit < n)
  after_incr-refuses key limit now (none, s) h = cc
  after_incr-refuses key limit now (some n, s) h =
      (n, refl, ground (arith, after_expire-refuses (leb n limit) (expire key 120 now s)))

  -- A request is refused only on evidence: the limit is positive, Redis answered the increment, and
  -- the count that it gave is above the limit. So no failure of Redis refuses a request.
  pub redis_limit-refuses :
      (pk limit now : ℕ) (s : Store)
      → (consume_rate_limit pk limit now s).0 ≡ false
      → (limit ≢ 0) × (n : ℕ) × ((incr (rpm pk (window_of now)) now s).0 ≡ some n) × (limit < n)
  unfolding consume_rate_limit
  redis_limit-refuses pk limit now s h = elim (Bool-cases (limit == 0)) [
    | inl e ↦ absurd (ground arith)
    | inr e ↦
        let key = rpm pk (window_of now) in
        let (n, answer, over) = after_incr-refuses key limit now (incr key now s) (rw e at h) in
        (λ q. cc (e, (==_iff limit 0).1 q), n, answer, over)
  ]
