-- ===== src/Batches/Reach.antt =====
-- Every schedule of the barrier, and what holds under it.
use mathlib.Core.List.{append_assoc, append-nil}
use ai_inference_gateway_pla.Base.{
  join, ℕ, suc, ◌+◌, ◌≤◌, ◌<◌, ◌≡◌, refl, sym, ap, subst, ◌∙◌, some, List, [], ◌∷◌, ◌++◌, leb, ◌==◌,
  length, length-append, In, take_out, take_out-In, arith, Bool-cases, inl, inr, ◌⊎◌,
}
use ai_inference_gateway_pla.Batches.{
  Barrier, fresh, wait, flush, flush_pending, timer_flush, on_batch_flush, start_timer,
  schedule_flush,
}

-- The requests that arrived, in their order, and the barrier.
pub data Reach (max_batch_size : ℕ) : List ℕ → Barrier → Type 0 where
  starts : Reach max_batch_size [] fresh
  waits :
      {arrived : List ℕ} {b : Barrier}
      → (request : ℕ) → Reach max_batch_size arrived b
      → Reach max_batch_size (arrived ++ (request ∷ [])) (wait max_batch_size request b)
  timer_fires :
      {arrived : List ℕ} {b : Barrier}
      → (gen : ℕ) (sleeping : List ℕ) → take_out gen b.sleeping ≡ some sleeping
      → Reach max_batch_size arrived b
      → Reach max_batch_size arrived (timer_flush gen (record b { sleeping = sleeping }))
  flushes :
      {arrived : List ℕ} {b : Barrier}
      → (tasks : ℕ) → b.flush_tasks ≡ suc tasks
      → Reach max_batch_size arrived b
      → Reach max_batch_size arrived (flush (record b { flush_tasks = tasks }))

-- Nobody is forgotten: while requests wait, the timer of their batch sleeps, and a full batch has a
-- flush scheduled.
pub record Inv (max_batch_size : ℕ) (arrived : List ℕ) (b : Barrier) : Type 0 where
  pub in_order : join b.released ++ b.pending ≡ arrived
  pub depth : b.queue_depth ≡ length b.pending
  pub timed : (length b.pending ≡ 0) ⊎ In b.timer_gen b.sleeping
  pub full : max_batch_size ≤ length b.pending → (length b.pending ≡ 0) ⊎ (0 < b.flush_tasks)
  pub counted : b.totals.reqs ≡ length (join b.released)
  pub dispatched : b.totals.dispatches ≡ length b.released
  pub few : b.totals.dispatches ≤ b.totals.reqs

join-snoc : (xss : List (List ℕ)) (xs : List ℕ) → join (xss ++ (xs ∷ [])) ≡ join xss ++ xs
join-snoc [] xs = append-nil xs
join-snoc (ys ∷ xss) xs = ap (ys ++◌) (join-snoc xss xs) ∙ sym (append_assoc ys (join xss) xs)

flush_pending-Inv :
    (m : ℕ) (arrived pending : List ℕ) (b : Barrier)
    → b.pending ≡ pending
    → join b.released ++ b.pending ≡ arrived
    → b.queue_depth ≡ length b.pending
    → b.totals.reqs ≡ length (join b.released)
    → b.totals.dispatches ≡ length b.released
    → b.totals.dispatches ≤ b.totals.reqs
    → Inv m arrived (flush_pending pending b)
unfolding on_batch_flush
flush_pending-Inv m arrived [] b e a c d f g = record {
  in_order = a;
  depth = c;
  timed = inl (rw e refl);
  full = λ _. inl (rw e refl);
  counted = d;
  dispatched = f;
  few = g;
}
flush_pending-Inv m arrived (x ∷ rest) b e a c d f g =
    let done = join-snoc b.released (x ∷ rest) in
    let longer = length-append (join b.released) (x ∷ rest) in
    let one_more = length-append b.released ((x ∷ rest) ∷ []) in
    record {
      in_order = append-nil (join (b.released ++ ((x ∷ rest) ∷ []))) ∙ done ∙ rw e at a;
      depth = refl;
      timed = inl refl;
      full = λ _. inl refl;
      counted = rw done (omega arith);
      dispatched = omega arith;
      few = omega arith;
    }

flush-Inv :
    (m : ℕ) (arrived : List ℕ) (b : Barrier) (tasks : ℕ)
    → Inv m arrived b
    → Inv m arrived (flush (record b { flush_tasks = tasks }))
unfolding flush
flush-Inv m arrived b tasks inv =
    flush_pending-Inv m arrived b.pending (record b { flush_tasks = tasks }) refl inv.in_order
      inv.depth inv.counted inv.dispatched inv.few

other_timer :
    {A B : Type 0} (pending : List ℕ)
    → (length pending ≡ 0) ⊎ A
    → (A → B)
    → (length pending ≡ 0) ⊎ B
other_timer pending (inl e) f = inl e
other_timer pending (inr a) f = inr (f a)

timer-Inv :
    (m : ℕ) (arrived : List ℕ) (b : Barrier) (gen : ℕ) (sleeping : List ℕ)
    → take_out gen b.sleeping ≡ some sleeping
    → Inv m arrived b
    → Inv m arrived (timer_flush gen (record b { sleeping = sleeping }))
unfolding timer_flush flush
timer-Inv m arrived b gen sleeping e inv = elim (Bool-cases (gen == b.timer_gen)) [
  | inl t ↦
      rw (timer_flush, t)
        (flush_pending-Inv m arrived b.pending (record b { sleeping = sleeping }) refl inv.in_order
          inv.depth inv.counted inv.dispatched inv.few)
  | inr f ↦
      rw (timer_flush, f)
        (record {
          in_order = inv.in_order;
          depth = inv.depth;
          timed =
              other_timer b.pending inv.timed
                (λ n. take_out-In b.timer_gen gen b.sleeping sleeping e (λ q. ground arith) n);
          full = inv.full;
          counted = inv.counted;
          dispatched = inv.dispatched;
          few = inv.few;
        })
]

In-last : (i : ℕ) (xs : List ℕ) → In i (xs ++ (i ∷ []))
In-last i [] = inl refl
In-last i (x ∷ xs) = inr (In-last i xs)

-- What `wait` leaves as it is.
abbrev Alike : Barrier → Barrier → Type 0
Alike b c =
    (c.pending ≡ b.pending)
    × (c.queue_depth ≡ b.queue_depth)
    × (c.released ≡ b.released)
    × (c.totals ≡ b.totals)

start_timer-Alike :
    (n : ℕ) (b : Barrier)
    → Alike b (start_timer n b)
      × ((n ≡ 1) ⊎ In b.timer_gen b.sleeping
          → In (start_timer n b).timer_gen (start_timer n b).sleeping)
start_timer-Alike n b = elim (Bool-cases (n == 1)) [
  | inl t ↦
      rw (start_timer, t) ((refl, refl, refl, refl), λ _. In-last (b.timer_gen + 1) b.sleeping)
  | inr f ↦ rw (start_timer, f) ((refl, refl, refl, refl), λ h. ground arith)
]

schedule_flush-Alike :
    (m n : ℕ) (b : Barrier)
    → Alike b (schedule_flush m n b)
      × ((schedule_flush m n b).timer_gen ≡ b.timer_gen)
      × ((schedule_flush m n b).sleeping ≡ b.sleeping)
      × (m ≤ n → 0 < (schedule_flush m n b).flush_tasks)
schedule_flush-Alike m n b = elim (Bool-cases (leb m n)) [
  | inl t ↦ rw (schedule_flush, t) ((refl, refl, refl, refl), refl, refl, λ h. omega arith)
  | inr f ↦
      rw (schedule_flush, f) ((refl, refl, refl, refl), refl, refl, λ h. absurd (ground arith))
]

first_or_timed : {A : Type 0} {n k : ℕ} → (n ≡ 0) ⊎ A → k ≡ n + 1 → (k ≡ 1) ⊎ A
first_or_timed (inl e) h = inl (omega arith)
first_or_timed (inr a) h = inr a

wait-Inv :
    (m : ℕ) (arrived : List ℕ) (b : Barrier) (request : ℕ)
    → Inv m arrived b
    → Inv m (arrived ++ (request ∷ [])) (wait m request b)
unfolding wait
wait-Inv m arrived b request inv =
    let pending = b.pending ++ (request ∷ []) in
    let one = length-append b.pending (request ∷ []) in
    let b' = record b { pending = pending; queue_depth = length pending } in
    let ((p, d, r, q), timed) = start_timer-Alike (length pending) b' in
    let ((p', d', r', q'), gen, sleeping, tasks) =
      schedule_flush-Alike m (length pending) (start_timer (length pending) b') in
    let ps = p' ∙ p in
    let rs = r' ∙ r in
    let qs = q' ∙ q in
    record {
      in_order =
          ap (λ x. join x ++ (wait m request b).pending) rs
          ∙ ap (join b.released ++◌) ps
          ∙ sym (append_assoc (join b.released) b.pending (request ∷ []))
          ∙ ap (λ x. x ++ (request ∷ [])) inv.in_order;
      depth = d' ∙ d ∙ sym (ap length ps);
      timed = inr (rw (gen, sleeping) (timed (first_or_timed inv.timed one)));
      full = λ h. inr (tasks (subst (λ x. m ≤ length x) ps h));
      counted = ap (λ x. x.reqs) qs ∙ inv.counted ∙ sym (ap (λ x. length (join x)) rs);
      dispatched = ap (λ x. x.dispatches) qs ∙ inv.dispatched ∙ sym (ap length rs);
      few = rw qs inv.few;
    }

pub Reach-Inv : {m : ℕ} {arrived : List ℕ} {b : Barrier} → Reach m arrived b → Inv m arrived b
Reach-Inv starts = record {
  in_order = refl;
  depth = refl;
  timed = inl refl;
  full = λ _. inl refl;
  counted = refl;
  dispatched = refl;
  few = omega arith;
}
Reach-Inv {m} (waits {arrived} {b} request r) = wait-Inv m arrived b request (Reach-Inv r)
Reach-Inv {m} (timer_fires {arrived} {b} gen sleeping e r) =
    timer-Inv m arrived b gen sleeping e (Reach-Inv r)
Reach-Inv {m} (flushes {arrived} {b} tasks e r) = flush-Inv m arrived b tasks (Reach-Inv r)
