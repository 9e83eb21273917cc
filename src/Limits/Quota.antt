-- ===== src/Limits/Quota.antt =====
-- The daily quotas of apps/api_keys/services/limits.py: `check_user_daily_quota` and
-- `record_user_quota_success`, with the limits of apps/users/models.py. Days are UTC days.
use ai_inference_gateway_pla.Base.{
  ℕ, ◌+◌, ◌-◌, ◌*◌, ◌/◌, ◌%◌, max, Bool, true, false, Option, none, some, List, if◌then◌else◌, ◌==◌,
  leb, ltb, first,
}
use ai_inference_gateway_pla.Base.Int.{ℤ, max_zero}
use ai_inference_gateway_pla.Limits.Cache.{Cache, requests, tokens}
use ai_inference_gateway_pla.Limits.Counter.{incr_or_add}
pub mod Bound
pub mod Serve
pub mod Day

abbrev pub day_length : ℕ
day_length = 86400000000

abbrev pub day_of : ℕ → ℕ
day_of now = now / 86400000000

-- `max(60, int((nxt - utc_now).total_seconds()))`
unfoldable pub seconds_until_next_utc_day : ℕ → ℕ
seconds_until_next_utc_day now = max 60 ((86400000000 - now % 86400000000) / 1000000)

pub record UserProfile : Type 0 where
  pub user : ℕ
  pub daily_request_limit : Option ℕ
  pub daily_token_limit : Option ℕ

-- `UserProfile.objects.filter(user=user).first()`
abbrev pub profile_for : ℕ → List UserProfile → Option UserProfile
profile_for user = first (λ (p : UserProfile). p.user == user)

pub data QuotaResult : Type 0 where
  allowed : QuotaResult
  daily_request_limit_exceeded : QuotaResult
  daily_token_limit_exceeded : QuotaResult

-- `max(0, int(prompt_tokens)) + max(0, int(completion_tokens))`
abbrev pub sum_tokens : ℤ × ℤ → ℕ
sum_tokens (prompt_tokens, completion_tokens) = max_zero prompt_tokens + max_zero completion_tokens

module _ (cache : Cache) where
  open cache use {Store, get, set}

  abbrev pub check_tokens : ℕ → Option ℕ → ℤ × ℤ → ℕ → Store → QuotaResult
  check_tokens user none estimate now s = allowed
  check_tokens user (some limit) estimate now s =
      if ltb limit (get (tokens user (day_of now)) 0 now s + sum_tokens estimate)
      then daily_token_limit_exceeded
      else allowed

  abbrev pub check_requests : ℕ → Option ℕ → ℕ → Store → QuotaResult → QuotaResult
  check_requests user none now s rest = rest
  check_requests user (some limit) now s rest =
      if leb limit (get (requests user (day_of now)) 0 now s)
      then daily_request_limit_exceeded
      else rest

  abbrev pub check_profile : ℕ → Option UserProfile → ℤ × ℤ → ℕ → Store → QuotaResult
  check_profile user none estimate now s = allowed
  check_profile user (some p) estimate now s =
      check_requests user p.daily_request_limit now s
        (check_tokens user p.daily_token_limit estimate now s)

  -- It reads the counters and changes nothing.
  unfoldable pub check_user_daily_quota : ℕ → List UserProfile → ℤ × ℤ → ℕ → Store → QuotaResult
  check_user_daily_quota user rows estimate now s =
      check_profile user (profile_for user rows) estimate now s

  abbrev pub record_request : ℕ → Option ℕ → ℕ → Store → Store
  record_request user none now s = s
  record_request user (some _) now s =
      (incr_or_add cache (requests user (day_of now)) (seconds_until_next_utc_day now) now s).1

  abbrev pub record_tokens : ℕ → Option ℕ → ℤ × ℤ → ℕ → Store → Store
  record_tokens user none used now s = s
  record_tokens user (some _) used now s =
      let key = tokens user (day_of now) in
      set key (get key 0 now s + sum_tokens used) (seconds_until_next_utc_day now) now s

  abbrev pub record_profile : ℕ → Option UserProfile → ℤ × ℤ → ℕ → Store → Store
  record_profile user none used now s = s
  record_profile user (some p) used now s =
      record_tokens user p.daily_token_limit used now
        (record_request user p.daily_request_limit now s)

  unfoldable pub record_user_quota_success : ℕ → List UserProfile → ℤ × ℤ → ℕ → Store → Store
  record_user_quota_success user rows used now s =
      record_profile user (profile_for user rows) used now s
