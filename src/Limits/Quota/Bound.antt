-- ===== src/Limits/Quota/Bound.antt =====
-- What the daily counters hold while requests are recorded.
use ai_inference_gateway_pla.Base.{
  ℕ, ◌+◌, ◌≤◌, ◌<◌, ◌≡◌, ◌≢◌, refl, sym, ◌∙◌, Option, none, some, arith, ◌⊎◌, inl, inr, leb,
  Bool-cases,
}
use ai_inference_gateway_pla.Base.Int.{ℤ}
use ai_inference_gateway_pla.Limits.Cache.{Cache, CacheKey, requests, tokens, IsDead, seconds}
use ai_inference_gateway_pla.Limits.Counter.{
  incr_or_add, incr_or_add-dead, incr_or_add-live, incr_or_add-frame,
}
use ai_inference_gateway_pla.Limits.Quota.{
  day_of, seconds_until_next_utc_day, UserProfile, QuotaResult, allowed, sum_tokens, check_tokens,
  check_requests, check_profile, record_request, record_tokens, record_profile,
}
use ai_inference_gateway_pla.Limits.Quota.Day.{day_end, early-live}

-- A moment of the day before its last second.
abbrev pub IsEarly : ℕ → ℕ → Type 0
IsEarly day t = (day_of t ≡ day) × (t + seconds 1 ≤ day_end t)

module _ (cache : Cache) where
  open cache use {Store, lookup, get, set}

  -- In the day's early moments the counter reads `v`.
  unfoldable pub Reads : ℕ → CacheKey → ℕ → Store → Type 0
  Reads day key v s =
      ((v ≡ 0) × ((t : ℕ) → IsEarly day t → IsDead t (lookup s key)))
      ⊎ ((d : ℕ) × (lookup s key ≡ some (v, d)) × ((t : ℕ) → IsEarly day t → t < d))

  get-Reads :
      (day now v : ℕ) (key : CacheKey) (s : Store)
      → IsEarly day now
      → Reads day key v s
      → get key 0 now s ≡ v
  unfolding Reads
  get-Reads day now v key s early (inl (e, dead)) =
      rw e (cache.get_dead key 0 now s (dead now early))
  get-Reads day now v key s early (inr (d, e, live)) =
      cache.get_live key 0 now v d s e (live now early)

  incr-Reads :
      (day now v : ℕ) (key : CacheKey) (s : Store)
      → IsEarly day now
      → Reads day key v s
      → Reads day key (v + 1) (incr_or_add cache key (seconds_until_next_utc_day now) now s).1
  unfolding Reads
  incr-Reads day now v key s early (inl (e, dead)) =
      let ttl = seconds_until_next_utc_day now in
      let (_, stored) = incr_or_add-dead cache key ttl now s (dead now early) in
      rw e (inr (now + seconds ttl, stored, λ t h. early-live now t (h.0 ∙ sym early.0) h.1))
  incr-Reads day now v key s early (inr (d, e, live)) =
      let (_, stored) =
        incr_or_add-live cache key (seconds_until_next_utc_day now) now v d s e (live now early) in
      inr (d, stored, live)

  set-Reads :
      (day now v : ℕ) (key : CacheKey) (s : Store)
      → IsEarly day now
      → Reads day key v (set key v (seconds_until_next_utc_day now) now s)
  unfolding Reads
  set-Reads day now v key s early =
      let ttl = seconds_until_next_utc_day now in
      inr (
        now + seconds ttl,
        cache.set_self key v ttl now s,
        λ t h. early-live now t (h.0 ∙ sym early.0) h.1,
      )

  Reads-frame :
      (day v : ℕ) (key : CacheKey) (s s' : Store)
      → lookup s' key ≡ lookup s key
      → Reads day key v s
      → Reads day key v s'
  unfolding Reads
  Reads-frame day v key s s' e (inl (z, dead)) = inl (z, λ t h. rw e (dead t h))
  Reads-frame day v key s s' e (inr (d, f, live)) = inr (d, e ∙ f, live)

  -- A counter that is kept only under a limit.
  unfoldable pub Counts : ℕ → CacheKey → Option ℕ → ℕ → Store → Type 0
  Counts day key none v s = Unit
  Counts day key (some limit) v s = (v ≤ limit) × Reads day key v s

  Counts-frame :
      (day v : ℕ) (key : CacheKey) (limit : Option ℕ) (s s' : Store)
      → lookup s' key ≡ lookup s key
      → Counts day key limit v s
      → Counts day key limit v s'
  unfolding Counts
  Counts-frame day v key none s s' e h = tt
  Counts-frame day v key (some limit) s s' e (le, h) = (le, Reads-frame day v key s s' e h)

  apart : (user day : ℕ) → requests user day ≢ tokens user day
  apart user day e = cc

  apart' : (user day : ℕ) → tokens user day ≢ requests user day
  apart' user day e = cc

  check_requests-allowed :
      (user now : ℕ) (limit : Option ℕ) (s : Store) (rest : QuotaResult)
      → check_requests cache user limit now s rest ≡ allowed
      → (rest ≡ allowed) × ((l : ℕ) → limit ≡ some l → get (requests user (day_of now)) 0 now s < l)
  check_requests-allowed user now none s rest h = (h, λ l e. cc)
  check_requests-allowed user now (some limit) s rest h =
      elim (Bool-cases (leb limit (get (requests user (day_of now)) 0 now s))) [
        | inl e ↦ cc
        | inr e ↦ (ground arith, λ l q. ground arith)
      ]

  check_tokens-allowed :
      (user now : ℕ) (limit : Option ℕ) (estimate : ℤ × ℤ) (s : Store)
      → check_tokens cache user limit estimate now s ≡ allowed
      → (l : ℕ) → limit ≡ some l
      → get (tokens user (day_of now)) 0 now s + sum_tokens estimate ≤ l
  check_tokens-allowed user now none estimate s h l e = cc
  check_tokens-allowed user now (some limit) estimate s h l e = ground arith

  record_request-Counts :
      (user now c k : ℕ) (rl tl : Option ℕ) (s : Store)
      → IsEarly (day_of now) now
      → ((l : ℕ) → rl ≡ some l → get (requests user (day_of now)) 0 now s < l)
      → Counts (day_of now) (requests user (day_of now)) rl c s
      → Counts (day_of now) (tokens user (day_of now)) tl k s
      → Counts
          (day_of now)
          (requests user (day_of now))
          rl
          (c + 1)
          (record_request cache user rl now s)
        × Counts (day_of now) (tokens user (day_of now)) tl k (record_request cache user rl now s)
  unfolding Counts
  record_request-Counts user now c k none tl s early room hr ht = (tt, ht)
  record_request-Counts user now c k (some l) tl s early room (le, hr) ht =
      let key = requests user (day_of now) in
      let under : get key 0 now s < l = room l refl in
      (
        (
          omega (arith, (get-Reads (day_of now) now c key s early hr)),
          incr-Reads (day_of now) now c key s early hr,
        ),
        Counts-frame (day_of now) k (tokens user (day_of now)) tl s _
            (incr_or_add-frame cache key (tokens user (day_of now)) (seconds_until_next_utc_day now)
              now s (apart user (day_of now)))
            ht,
      )

  record_tokens-Counts :
      (user now c k : ℕ) (rl tl : Option ℕ) (used : ℤ × ℤ) (s : Store)
      → IsEarly (day_of now) now
      → ((l : ℕ) → tl ≡ some l → k + sum_tokens used ≤ l)
      → Counts (day_of now) (requests user (day_of now)) rl c s
      → Counts (day_of now) (tokens user (day_of now)) tl k s
      → Counts
          (day_of now)
          (requests user (day_of now))
          rl
          c
          (record_tokens cache user tl used now s)
        × Counts
            (day_of now)
            (tokens user (day_of now))
            tl
            (k + sum_tokens used)
            (record_tokens cache user tl used now s)
  unfolding Counts
  record_tokens-Counts user now c k rl none used s early room hr ht = (hr, tt)
  record_tokens-Counts user now c k rl (some l) used s early room hr (le, ht) =
      let key = tokens user (day_of now) in
      rw (record_tokens, get-Reads (day_of now) now k key s early ht)
        (
          Counts-frame (day_of now) c (requests user (day_of now)) rl s _
              (cache.set_frame key (requests user (day_of now)) (k + sum_tokens used)
                (seconds_until_next_utc_day now) now s (apart' user (day_of now)))
              hr,
          (room l refl, set-Reads (day_of now) now (k + sum_tokens used) key s early),
        )

  space_left :
      (user now k add : ℕ) (tl : Option ℕ) (s : Store)
      → IsEarly (day_of now) now
      → Counts (day_of now) (tokens user (day_of now)) tl k s
      → ((l : ℕ) → tl ≡ some l → get (tokens user (day_of now)) 0 now s + add ≤ l)
      → (l : ℕ) → tl ≡ some l
      → k + add ≤ l
  unfolding Counts
  space_left user now k add none s early ht space l e = cc
  space_left user now k add (some m) s early (le, ht) space l e =
      let under = space l e in
      omega (arith, (get-Reads (day_of now) now k (tokens user (day_of now)) s early ht))

  -- The requests and tokens recorded so far, as the counters have them.
  unfoldable pub Tallies : ℕ → ℕ → Option UserProfile → ℕ × ℕ → Store → Type 0
  Tallies user day none _ s = Unit
  Tallies user day (some p) n s =
      Counts day (requests user day) p.daily_request_limit n.0 s
      × Counts day (tokens user day) p.daily_token_limit n.1 s

  pub record_profile-Tallies :
      (user now : ℕ) (p : Option UserProfile) (estimate used : ℤ × ℤ) (n : ℕ × ℕ) (s : Store)
      → IsEarly (day_of now) now
      → sum_tokens used ≤ sum_tokens estimate
      → check_profile cache user p estimate now s ≡ allowed
      → Tallies user (day_of now) p n s
      → Tallies user
          (day_of now)
          p
          (n.0 + 1, n.1 + sum_tokens used)
          (record_profile cache user p used now s)
  unfolding Tallies
  record_profile-Tallies user now none estimate used n s early below h t = tt
  record_profile-Tallies user now (some p) estimate used n s early below h (hr, ht) =
      let (h', room) = check_requests-allowed user now p.daily_request_limit s _ h in
      let space = check_tokens-allowed user now p.daily_token_limit estimate s h' in
      let (hr', ht') =
        record_request-Counts user now n.0 n.1 p.daily_request_limit p.daily_token_limit s early
          room hr ht in
      record_tokens-Counts user now (n.0 + 1) n.1 p.daily_request_limit p.daily_token_limit used _
        early
        (λ l e.
          let fits =
            space_left user now n.1 (sum_tokens estimate) p.daily_token_limit s early ht space l
              e in
          omega arith)
        hr' ht'
