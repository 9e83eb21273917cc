-- ===== src/Slots/Limiter.antt =====
-- `acquire_slot` and `release_slot` of deploy/gateway/gateway/concurrency.py, and `acquire` and
-- `release` of apps/inference/services/concurrency.py, which differ in when the queue is full. Each
-- definition is what one task does between two awaits.
use ai_inference_gateway_pla.Base.{
  ℕ, take_out, take_out-length, zero, suc, ◌+◌, ◌-◌, ◌≡◌, Bool, true, false, Option, none, some,
  List, [], ◌∷◌, ◌++◌, leb, ltb, if◌then◌else◌, not,
}
use ai_inference_gateway_pla.Slots.Semaphore.{Semaphore, fresh, locked, release, wait, leave}
pub mod Effects

-- The queue is full at the depth that counts the request itself.
abbrev pub gateway_full : ℕ → ℕ → Bool
gateway_full inference_queue_size queue_count = ltb inference_queue_size queue_count

abbrev pub django_full : ℕ → ℕ → Bool
django_full queue_size qd = leb queue_size qd

pub record Limiter : Type 0 where
  pub sem : Semaphore
  pub queue_count : ℕ

pub data Outcome : Type 0 where
  acquired : Outcome
  queued : Outcome
  rejected : Outcome

-- A request's call up to its first suspension: it has a slot, it waits, or it is turned away.
unfoldable pub acquire_slot : (ℕ → Bool) → ℕ → Limiter → Outcome × Limiter
acquire_slot full i l =
    if locked l.sem
    then if full (l.queue_count + 1)
      then (rejected, l)
      else (queued, record l { sem = wait i l.sem; queue_count = l.queue_count + 1 })
    else (acquired, record l { sem = record l.sem { value = l.sem.value - 1 } })

unfoldable pub release_slot : Limiter → Limiter
release_slot l = record l { sem = release l.sem }

-- What the task of a future that is out of `woken` or `cancelled` does next.
abbrev off_woken : ℕ → ℕ → Limiter → Option (List ℕ) → Option Limiter
off_woken count back l none = none
off_woken count back l (some woken) = some (record {
  sem = leave (l.sem.value + back) l.sem.pending woken l.sem.cancelled;
  queue_count = l.queue_count - count;
})

abbrev off_cancelled : ℕ → Limiter → Option (List ℕ) → Option Limiter
off_cancelled count l none = none
off_cancelled count l (some gone) = some (record {
  sem = leave l.sem.value l.sem.pending l.sem.woken gone;
  queue_count = l.queue_count - count;
})

abbrev off_pending : ℕ → Limiter → Option (List ℕ) → Option Limiter
off_pending i l none = none
off_pending i l (some pending) =
    some (record l {
      sem = record l.sem { pending = pending; cancelled = l.sem.cancelled ++ (i ∷ []) };
    })

-- A task whose future has its result goes on with the slot.
unfoldable pub resume : ℕ → Limiter → Option Limiter
resume i l = off_woken 1 0 l (take_out i l.sem.woken)

-- The future is cancelled, by `wait_for`'s timeout or with the whole request.
unfoldable pub cancel : ℕ → Limiter → Option Limiter
cancel i l = off_pending i l (take_out i l.sem.pending)

-- The branch `except TimeoutError`, of a cancelled future and of one that has its result, whose
-- slot goes back.
unfoldable pub time_out : ℕ → Limiter → Option Limiter
time_out i l = off_cancelled 1 l (take_out i l.sem.cancelled)

unfoldable pub time_out_late : ℕ → Limiter → Option Limiter
time_out_late i l = off_woken 1 1 l (take_out i l.sem.woken)

-- A request that is itself cancelled meets no branch: the `CancelledError` passes the count by.
unfoldable pub abandon : ℕ → Limiter → Option Limiter
abandon i l = off_cancelled 0 l (take_out i l.sem.cancelled)

unfoldable pub abandon_late : ℕ → Limiter → Option Limiter
abandon_late i l = off_woken 0 1 l (take_out i l.sem.woken)
