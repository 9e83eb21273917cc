-- ===== src/Limits.antt =====
-- apps/api_keys/services/limits.py and deploy/gateway/gateway/limits.py: requests per minute and
-- daily quotas, counted in a cache. A time is a number of microseconds.
pub mod Cache
pub mod Window
pub mod Counter
mod Toy
mod Tests
pub mod Gateway
pub mod Django
pub mod Quota
