-- ===== src/Limits/Quota/Day.antt =====
-- How long a counter of a day lives.
use ai_inference_gateway_pla.Base.{ℕ, ◌+◌, ◌*◌, ◌≤◌, ◌<◌, ◌≡◌, arith}
use ai_inference_gateway_pla.Limits.Cache.{seconds}
use ai_inference_gateway_pla.Limits.Quota.{seconds_until_next_utc_day, day_of}

-- The end of the day that `now` is in, in microseconds.
abbrev pub day_end : ℕ → ℕ
day_end now = (day_of now + 1) * 86400000000

-- A counter that is made at `now` reaches into the last second of the day, and with a minute or
-- more of the day left it does not outlive the day: it may be gone up to a second before midnight.
pub ttl_covers_day :
    (now : ℕ)
    → (day_end now < now + seconds (seconds_until_next_utc_day now) + seconds 1)
      × (now + seconds 60 ≤ day_end now
          → now + seconds (seconds_until_next_utc_day now) ≤ day_end now)
unfolding seconds_until_next_utc_day
ttl_covers_day now = (omega arith, λ h. omega arith)

-- Any later moment of the day of `now` but those of its last second is before the deadline.
pub early-live :
    (now t : ℕ)
    → day_of t ≡ day_of now
    → t + seconds 1 ≤ day_end t
    → t < now + seconds (seconds_until_next_utc_day now)
early-live now t same early = let (late, _) = ttl_covers_day now in omega arith
