-- ===== src/Batches/Release.antt =====
-- What a request that waits at the barrier can rely on.
use ai_inference_gateway_pla.Base.{
  join, ℕ, ◌≤◌, ◌<◌, ◌≡◌, ◌≢◌, refl, List, [], ◌∷◌, ◌++◌, length, In, arith, inl, inr, ◌⊎◌, ==_refl,
}
use ai_inference_gateway_pla.Batches.{Barrier, flush, flush_pending, timer_flush}
use ai_inference_gateway_pla.Batches.Reach.{Reach, Reach-Inv}

-- Under every schedule the released batches, followed by the requests that wait, are the requests
-- that arrived, each once and in their order; the depth gauge is the number that wait; and the
-- totals count the released requests and the batches, of which there are no more than requests.
pub barrier_in_order :
    {max_batch_size : ℕ} {arrived : List ℕ} {b : Barrier}
    → Reach max_batch_size arrived b
    → (join b.released ++ b.pending ≡ arrived)
      × (b.queue_depth ≡ length b.pending)
      × (b.totals.reqs ≡ length (join b.released))
      × (b.totals.dispatches ≡ length b.released)
      × (b.totals.dispatches ≤ b.totals.reqs)
barrier_in_order r =
    let inv = Reach-Inv r in (inv.in_order, inv.depth, inv.counted, inv.dispatched, inv.few)

-- Everybody who waits is let go as one batch.
abbrev pub IsReleased : Barrier → Barrier → Type 0
IsReleased b c = (c.pending ≡ []) × (c.released ≡ b.released ++ (b.pending ∷ []))

flush_pending-IsReleased :
    (pending : List ℕ) (b c : Barrier)
    → b.pending ≡ pending
    → c.released ≡ b.released
    → pending ≢ []
    → IsReleased b (flush_pending pending c)
flush_pending-IsReleased [] b c e h ne = absurd (ne refl)
flush_pending-IsReleased (x ∷ rest) b c e h ne = rw (h, e) (refl, refl)

waiting_timed : {A : Type 0} (pending : List ℕ) → pending ≢ [] → (length pending ≡ 0) ⊎ A → A
waiting_timed [] ne h = absurd (ne refl)
waiting_timed (x ∷ rest) ne (inl e) = absurd (ground arith)
waiting_timed (x ∷ rest) ne (inr a) = a

-- Under every schedule, while requests wait the timer of their batch sleeps, and when that timer
-- fires all of them are released as one batch.
pub window_releases :
    {max_batch_size : ℕ} {arrived : List ℕ} {b : Barrier} (sleeping : List ℕ)
    → Reach max_batch_size arrived b
    → b.pending ≢ []
    → In b.timer_gen b.sleeping
      × IsReleased b (timer_flush b.timer_gen (record b { sleeping = sleeping }))
unfolding timer_flush flush
window_releases {b} sleeping r waits =
    let inv = Reach-Inv r in
    (
      waiting_timed b.pending waits inv.timed,
      rw (timer_flush, ==_refl b.timer_gen)
          (flush_pending-IsReleased b.pending b (record b { sleeping = sleeping }) refl refl waits),
    )

-- Under every schedule, when `max_batch_size` requests or more wait, and one at least, a flush is
-- scheduled, and it releases all of them as one batch.
pub full_batch_releases :
    {max_batch_size : ℕ} {arrived : List ℕ} {b : Barrier} (tasks : ℕ)
    → Reach max_batch_size arrived b
    → max_batch_size ≤ length b.pending
    → b.pending ≢ []
    → (0 < b.flush_tasks) × IsReleased b (flush (record b { flush_tasks = tasks }))
unfolding flush
full_batch_releases {b} tasks r full waits =
    let inv = Reach-Inv r in
    (
      waiting_timed b.pending waits (inv.full full),
      flush_pending-IsReleased b.pending b (record b { flush_tasks = tasks }) refl refl waits,
    )
