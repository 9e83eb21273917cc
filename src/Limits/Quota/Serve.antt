-- ===== src/Limits/Quota/Serve.antt =====
-- Requests that are checked and then counted, one after the other.
use ai_inference_gateway_pla.Base.{
  ℕ, ◌+◌, ◌≤◌, ◌≡◌, refl, sym, subst, Option, none, some, List, [], ◌∷◌, arith, inl, All,
}
use ai_inference_gateway_pla.Base.Int.{ℤ}
use ai_inference_gateway_pla.Limits.Cache.{Cache, CacheKey, requests, tokens}
use ai_inference_gateway_pla.Limits.Quota.{
  day_of, UserProfile, profile_for, QuotaResult, allowed, daily_request_limit_exceeded,
  daily_token_limit_exceeded, sum_tokens, check_user_daily_quota, record_user_quota_success,
}
use ai_inference_gateway_pla.Limits.Quota.Bound.{
  IsEarly, Counts, Reads, Tallies, record_profile-Tallies,
}

-- One request: its time, its estimated and its real prompt and completion tokens.
pub record Request : Type 0 where
  pub time : ℕ
  pub estimate : ℤ × ℤ
  pub used : ℤ × ℤ

abbrev pub Within : Option ℕ → ℕ → Type 0
Within none n = Unit
Within (some limit) n = n ≤ limit

module _ (cache : Cache) where
  open cache use {Store, lookup}

  abbrev serve_result : ℕ → List UserProfile → Request → Store → QuotaResult → (ℕ × ℕ) × Store
  serve_result user rows r s allowed =
      ((1, sum_tokens r.used), record_user_quota_success cache user rows r.used r.time s)
  serve_result user rows r s daily_request_limit_exceeded = ((0, 0), s)
  serve_result user rows r s daily_token_limit_exceeded = ((0, 0), s)

  -- A request that the check allows succeeds and is recorded: what it adds, and the store.
  pub serve : ℕ → List UserProfile → Request → Store → (ℕ × ℕ) × Store
  serve user rows r s =
      serve_result user rows r s (check_user_daily_quota cache user rows r.estimate r.time s)

  -- The requests that succeed, and their tokens.
  pub serve_all : ℕ → List UserProfile → List Request → Store → ℕ × ℕ
  serve_all user rows [] s = (0, 0)
  serve_all user rows (r ∷ rs) s =
      let one = serve user rows r s in
      let rest = serve_all user rows rs one.1 in (one.0.0 + rest.0, one.0.1 + rest.1)

  add_zero : (n : ℕ) → n + 0 ≡ n
  add_zero n = omega arith

  zero_add : (n : ℕ) → 0 + n ≡ n
  zero_add n = omega arith

  serve_result-Tallies :
      (user now : ℕ) (rows : List UserProfile) (r : Request) (n : ℕ × ℕ) (s : Store)
      (q : QuotaResult)
      → r.time ≡ now
      → IsEarly (day_of now) now
      → sum_tokens r.used ≤ sum_tokens r.estimate
      → Tallies cache user (day_of now) (profile_for user rows) n s
      → check_user_daily_quota cache user rows r.estimate r.time s ≡ q
      → Tallies cache user
          (day_of now)
          (profile_for user rows)
          (n.0 + (serve_result user rows r s q).0.0, n.1 + (serve_result user rows r s q).0.1)
          (serve_result user rows r s q).1
  unfolding check_user_daily_quota record_user_quota_success
  serve_result-Tallies user now rows r n s allowed same early below t h =
      rw (record_user_quota_success, same)
        (record_profile-Tallies cache user now (profile_for user rows) r.estimate r.used n s early
          below (rw same at h) t)
  serve_result-Tallies user now rows r n s daily_request_limit_exceeded same early below t h =
      rw (serve_result, add_zero n.0, add_zero n.1) t
  serve_result-Tallies user now rows r n s daily_token_limit_exceeded same early below t h =
      rw (serve_result, add_zero n.0, add_zero n.1) t

  Counts-fresh :
      (day : ℕ) (key : CacheKey) (limit : Option ℕ) (s : Store)
      → lookup s key ≡ none
      → Counts cache day key limit 0 s
  unfolding Counts Reads
  Counts-fresh day key none s h = tt
  Counts-fresh day key (some limit) s h = (omega arith, inl (refl, λ t e. rw h tt))

  Tallies-fresh :
      (user day : ℕ) (p : Option UserProfile) (s : Store)
      → lookup s (requests user day) ≡ none
      → lookup s (tokens user day) ≡ none
      → Tallies cache user day p (0, 0) s
  unfolding Tallies
  Tallies-fresh user day none s hr ht = tt
  Tallies-fresh user day (some p) s hr ht = (
    Counts-fresh day (requests user day) p.daily_request_limit s hr,
    Counts-fresh day (tokens user day) p.daily_token_limit s ht,
  )

  -- A request of an early moment of the day, whose real tokens are within its estimate.
  abbrev pub IsFitting : ℕ → Request → Type 0
  IsFitting day r = IsEarly day r.time × (sum_tokens r.used ≤ sum_tokens r.estimate)

  serve-Tallies :
      (user day : ℕ) (rows : List UserProfile) (r : Request) (n : ℕ × ℕ) (s : Store)
      → IsFitting day r
      → Tallies cache user day (profile_for user rows) n s
      → Tallies cache user day
          (profile_for user rows)
          (n.0 + (serve user rows r s).0.0, n.1 + (serve user rows r s).0.1)
          (serve user rows r s).1
  unfolding serve
  serve-Tallies user day rows r n s ((same, early), below) t =
      subst
        (λ d.
          Tallies cache user d (profile_for user rows)
            (n.0 + (serve user rows r s).0.0, n.1 + (serve user rows r s).0.1)
            (serve user rows r s).1)
        same
        (serve_result-Tallies user r.time rows r n s _ refl (refl, early) below
          (subst (λ d. Tallies cache user d (profile_for user rows) n s) (sym same) t) refl)

  Counts-Within :
      (day v : ℕ) (key : CacheKey) (limit : Option ℕ) (s : Store)
      → Counts cache day key limit v s
      → Within limit v
  unfolding Counts
  Counts-Within day v key none s h = tt
  Counts-Within day v key (some limit) s (le, _) = le

  serve_all-Tallies :
      (user day : ℕ) (rows : List UserProfile) (rs : List Request) (n : ℕ × ℕ) (s : Store)
      → All (IsFitting day) rs
      → Tallies cache user day (profile_for user rows) n s
      → (s' : Store) × Tallies cache user day
          (profile_for user rows)
          (n.0 + (serve_all user rows rs s).0, n.1 + (serve_all user rows rs s).1)
          s'
  unfolding serve_all
  serve_all-Tallies user day rows [] n s fit t = (s, rw (add_zero n.0, add_zero n.1) t)
  serve_all-Tallies user day rows (r ∷ rs) n s (f, fit) t =
      let one = serve user rows r s in
      let (s', t') =
        serve_all-Tallies user day rows rs (n.0 + one.0.0, n.1 + one.0.1) one.1 fit
          (serve-Tallies user day rows r n s f t) in
      (
        s',
        rw
            (
              ← assoc n.0 one.0.0 (serve_all user rows rs one.1).0,
              ← assoc n.1 one.0.1 (serve_all user rows rs one.1).1,
            )
            t',
      )
    where
      assoc : (a b c : ℕ) → a + b + c ≡ a + (b + c)
      assoc a b c = omega arith

  -- A user with a profile and no counters yet, whose requests come one after the other on one day,
  -- none of them in its last second, and use no more tokens than their estimates: the requests that
  -- succeed are within the daily request limit if one is set, and their tokens within the daily
  -- token limit if one is set.
  pub quota_bounds :
      (user day : ℕ) (rows : List UserProfile) (p : UserProfile) (rs : List Request) (s : Store)
      → profile_for user rows ≡ some p
      → lookup s (requests user day) ≡ none
      → lookup s (tokens user day) ≡ none
      → All (IsFitting day) rs
      → Within p.daily_request_limit (serve_all user rows rs s).0
        × Within p.daily_token_limit (serve_all user rows rs s).1
  unfolding Tallies
  quota_bounds user day rows p rs s e hr ht fit =
      let (s', t) =
        serve_all-Tallies user day rows rs (0, 0) s fit
          (Tallies-fresh user day (profile_for user rows) s hr ht) in
      let (tr, tk) = rw e at t in
      (
        rw (zero_add (serve_all user rows rs s).0) at
            (Counts-Within day _ (requests user day) p.daily_request_limit s' tr),
        rw (zero_add (serve_all user rows rs s).1) at
            (Counts-Within day _ (tokens user day) p.daily_token_limit s' tk),
      )
