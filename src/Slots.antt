-- ===== src/Slots.antt =====
-- The concurrency limiters: deploy/gateway/gateway/concurrency.py and
-- apps/inference/services/concurrency.py.
pub mod Semaphore
pub mod Limiter
pub mod Reach
pub mod Invariant
mod Tests
