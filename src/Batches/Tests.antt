-- ===== src/Batches/Tests.antt =====
-- The barrier on a short schedule: two requests make a full batch, a third comes before the flush.
use ai_inference_gateway_pla.Base.{join, ◌≤◌, ◌≡◌, [], ◌∷◌, ◌++◌, length, In}
use ai_inference_gateway_pla.Batches.{Barrier, no_totals, wait, timer_flush}
use ai_inference_gateway_pla.Batches.Reach.{Reach, starts, waits}
use ai_inference_gateway_pla.Batches.Release.{barrier_in_order, IsReleased, window_releases}

abbrev three_waiting : Barrier
three_waiting = record {
  pending = 1 ∷ 2 ∷ 3 ∷ [];
  timer_gen = 1;
  sleeping = 1 ∷ [];
  flush_tasks = 2;
  queue_depth = 3;
  released = [];
  totals = no_totals;
}

Reach-three : Reach 2 (1 ∷ 2 ∷ 3 ∷ []) three_waiting
unfolding wait
Reach-three = waits 3 (waits 2 (waits 1 starts))

barrier_in_order_example :
    (join three_waiting.released ++ three_waiting.pending ≡ 1 ∷ 2 ∷ 3 ∷ [])
    × (three_waiting.queue_depth ≡ length three_waiting.pending)
    × (three_waiting.totals.reqs ≡ length (join three_waiting.released))
    × (three_waiting.totals.dispatches ≡ length three_waiting.released)
    × (three_waiting.totals.dispatches ≤ three_waiting.totals.reqs)
barrier_in_order_example = barrier_in_order Reach-three

window_releases_example :
    In three_waiting.timer_gen three_waiting.sleeping
    × IsReleased three_waiting (timer_flush 1 (record three_waiting { sleeping = [] }))
window_releases_example = window_releases [] Reach-three (λ e. cc)
