-- ===== src/Limits/Tests.antt =====
-- The limits at concrete times, on the toy stores.
use ai_inference_gateway_pla.Base.{ℕ, ◌≡◌, refl, Option, none, some, List, [], ◌∷◌, arith, min}
use ai_inference_gateway_pla.Base.Int.{pos, negsuc}
use ai_inference_gateway_pla.Limits.Cache.{CacheKey, Entry}
use ai_inference_gateway_pla.Limits.Toy.{toy_cache, toy_redis, toy_redis-IsUp}
use ai_inference_gateway_pla.Limits.Window.{admitted_in, run_calls, calls_in}
use ai_inference_gateway_pla.Limits.Django
use ai_inference_gateway_pla.Limits.Gateway
use ai_inference_gateway_pla.Limits.Quota.{UserProfile}
use ai_inference_gateway_pla.Limits.Quota.Serve.{Request, Within, serve_all, quota_bounds}

abbrev no_entries : CacheKey → Option Entry
no_entries k = none

abbrev no_counters : CacheKey → Option (ℕ × Option ℕ)
no_counters k = none

-- Five calls, the last of them in the next minute.
abbrev call_times : List ℕ
call_times = 1000000 ∷ 2000000 ∷ 3000000 ∷ 59000000 ∷ 61000000 ∷ []

consume_rate_limit-admits_example :
    admitted_in 0 (run_calls (Django.consume_rate_limit toy_cache 7 3) call_times no_entries)
    ≡ min 3 (calls_in 0 call_times)
consume_rate_limit-admits_example =
    Django.consume_rate_limit-admits toy_cache 7 3 0 call_times no_entries (omega arith) refl

redis_limit-admits_example :
    admitted_in 0 (run_calls (Gateway.consume_rate_limit toy_redis 7 3) call_times no_counters)
    ≡ min 3 (calls_in 0 call_times)
redis_limit-admits_example =
    Gateway.redis_limit-admits toy_redis 7 3 0 call_times no_counters (omega arith) toy_redis-IsUp
      refl

-- A counter that stands at its limit.
abbrev full_counters : CacheKey → Option (ℕ × Option ℕ)
full_counters k = some (3, some 100000000)

abbrev profile_rows : List UserProfile
profile_rows = record { user = 4; daily_request_limit = some 2; daily_token_limit = some 50 } ∷ []

abbrev two_requests : List Request
two_requests =
    record { time = 1000000; estimate = (pos 10, pos 10); used = (pos 10, pos 5) }
    ∷ record { time = 2000000; estimate = (pos 5, negsuc 0); used = (pos 5, pos 0) }
    ∷ []

quota_bounds_example :
    Within (some 2) (serve_all toy_cache 4 profile_rows two_requests no_entries).0
    × Within (some 50) (serve_all toy_cache 4 profile_rows two_requests no_entries).1
quota_bounds_example =
    quota_bounds toy_cache 4 0 profile_rows
      (record { user = 4; daily_request_limit = some 2; daily_token_limit = some 50 }) two_requests
      no_entries refl refl refl
      (((refl, omega arith), omega arith), (((refl, omega arith), omega arith), tt))
