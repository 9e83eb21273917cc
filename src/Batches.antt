-- ===== src/Batches.antt =====
-- The batch barrier of deploy/gateway/gateway/batcher.py, and `_on_batch_flush` of
-- deploy/gateway/gateway/main.py. No task awaits anything while it holds the lock, so each
-- definition here is one step of the loop.
use ai_inference_gateway_pla.Base.{
  ℕ, suc, ◌+◌, ◌-◌, ◌≡◌, Bool, Option, none, some, List, [], ◌∷◌, ◌++◌, leb, ltb, ◌==◌,
  if◌then◌else◌, length,
}
pub mod Reach
pub mod Release
mod Tests

-- The totals and gauges that `_on_batch_flush` keeps. `efficiency` is a fraction.
pub record Totals : Type 0 where
  pub reqs : ℕ
  pub dispatches : ℕ
  pub singles : ℕ
  pub efficiency : ℕ × ℕ

abbrev pub no_totals : Totals
no_totals = record { reqs = 0; dispatches = 0; singles = 0; efficiency = (0, 1) }

unfoldable pub on_batch_flush : ℕ → Totals → Totals
on_batch_flush batch_size t =
    let reqs = t.reqs + batch_size in
    let dispatches = t.dispatches + 1 in
    record {
      reqs = reqs;
      dispatches = dispatches;
      singles = if batch_size == 1 then t.singles + 1 else t.singles;
      efficiency = if ltb 0 reqs then (reqs - dispatches, reqs) else t.efficiency;
    }

-- The waiting requests in their order, the timers that sleep and the flush tasks that are
-- scheduled, and the batches that were released.
pub record Barrier : Type 0 where
  pub pending : List ℕ
  pub timer_gen : ℕ
  pub sleeping : List ℕ
  pub flush_tasks : ℕ
  pub queue_depth : ℕ
  pub released : List (List ℕ)
  pub totals : Totals

abbrev pub fresh : Barrier
fresh = record {
  pending = [];
  timer_gen = 0;
  sleeping = [];
  flush_tasks = 0;
  queue_depth = 0;
  released = [];
  totals = no_totals;
}

abbrev start_timer : ℕ → Barrier → Barrier
start_timer batch_size b =
    if batch_size == 1
    then record b { timer_gen = b.timer_gen + 1; sleeping = b.sleeping ++ ((b.timer_gen + 1) ∷ []) }
    else b

abbrev schedule_flush : ℕ → ℕ → Barrier → Barrier
schedule_flush max_batch_size batch_size b =
    if leb max_batch_size batch_size then record b { flush_tasks = b.flush_tasks + 1 } else b

-- `wait` up to `event.wait()`.
unfoldable pub wait : ℕ → ℕ → Barrier → Barrier
wait max_batch_size request b =
    let pending = b.pending ++ (request ∷ []) in
    let batch_size = length pending in
    schedule_flush max_batch_size batch_size
      (start_timer batch_size (record b { pending = pending; queue_depth = batch_size }))

abbrev flush_pending : List ℕ → Barrier → Barrier
flush_pending [] b = b
flush_pending (x ∷ rest) b = record b {
  pending = [];
  queue_depth = 0;
  released = b.released ++ ((x ∷ rest) ∷ []);
  totals = on_batch_flush (length (x ∷ rest)) b.totals;
}

unfoldable pub flush : Barrier → Barrier
flush b = flush_pending b.pending b

-- `_timer_flush` after its sleep.
unfoldable pub timer_flush : ℕ → Barrier → Barrier
timer_flush gen b = if gen == b.timer_gen then flush b else b
