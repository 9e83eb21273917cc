-- ===== src/Slots/Invariant.antt =====
-- What holds of the limiter under every schedule.
use ai_inference_gateway_pla.Base.{
  ℕ, ◌+◌, ◌-◌, ◌≤◌, ◌<◌, ◌≡◌, ◌≢◌, refl, Bool, true, false, arith, length, ltb, Bool-cases, inl,
  inr,
}
use ai_inference_gateway_pla.Slots.Semaphore.{
  locked, queue_length, release-keeps, wait-keeps, free-keeps,
}
use ai_inference_gateway_pla.Slots.Limiter.{
  Limiter, rejected, acquire_slot, release_slot, resume, cancel, time_out, time_out_late, abandon,
  abandon_late, gateway_full, django_full,
}
use ai_inference_gateway_pla.Slots.Limiter.Effects.{
  Effect, off_woken-Effect, off_cancelled-Effect, off_pending-Effect,
}
use ai_inference_gateway_pla.Slots.Reach.{
  System, admit, Step, Reach, Inv, arrives, resumes, cancels, times_out, times_out_late, abandons,
  abandons_late, releases, starts, next,
}

-- What a caller can see of a reachable limiter.
abbrev pub IsSafe : ℕ → ℕ → System → Type 0
IsSafe max_concurrency bound s =
    (s.held ≤ max_concurrency)
    × (queue_length s.limiter.sem ≤ bound)
    × (s.held < max_concurrency → length s.limiter.sem.pending ≢ 0 → 0 < length s.limiter.sem.woken)

module _ (full : ℕ → Bool) (max_concurrency bound : ℕ)
    (stops : (n : ℕ) → full n ≡ false → n ≤ bound) where
  acquire-Inv :
      (s : System) (i : ℕ)
      → Inv max_concurrency bound s
      → Inv max_concurrency bound (admit s (acquire_slot full i s.limiter))
  unfolding acquire_slot
  acquire-Inv s i inv = elim (Bool-cases (locked s.limiter.sem)) [
    | inl e ↦ elim (Bool-cases (full (s.limiter.queue_count + 1))) [
      | inl f ↦ rw (acquire_slot, e, f) inv
      | inr f ↦
          let (a, b, c) = wait-keeps i s.limiter.sem e inv.busy in
          let fits = stops (s.limiter.queue_count + 1) f in
          rw (acquire_slot, e, f)
            (record {
              slots = omega (arith, inv.slots);
              counted = omega (arith, inv.counted);
              bounded = fits;
              busy = c;
            })
    ]
    | inr e ↦
        let (some_free, none_pending, none_woken) = free-keeps s.limiter.sem e in
        rw (acquire_slot, e)
          (record {
            slots = omega (arith, inv.slots);
            counted = inv.counted;
            bounded = inv.bounded;
            busy = inr (inl none_pending);
          })
  ]

  -- A task out of the queue, which gives back its slot or holds it, and is off the count or
  -- abandoned.
  leave-Inv :
      (s : System) (l : Limiter) (back count held abandoned : ℕ)
      → back + held ≡ s.held + 1
      → count + abandoned ≡ s.abandoned + 1
      → Effect back count s.limiter l
      → Inv max_concurrency bound s
      → Inv max_concurrency bound (record { limiter = l; held = held; abandoned = abandoned })
  leave-Inv s l back count held abandoned h k (a, b, c, busy) inv = record {
    slots = omega (arith, inv.slots);
    counted = omega (arith, inv.counted);
    bounded = omega (arith, inv.bounded);
    busy = busy;
  }

  Step-Inv :
      {s t : System} → Inv max_concurrency bound s → Step full s t → Inv max_concurrency bound t
  unfolding resume cancel time_out time_out_late abandon abandon_late release_slot
  Step-Inv inv (arrives {s} i) = acquire-Inv s i inv
  Step-Inv inv (resumes {s} i l e) =
      leave-Inv s l 0 1 (s.held + 1) s.abandoned (omega arith) (omega arith)
        (off_woken-Effect 1 0 i s.limiter l e) inv
  Step-Inv inv (cancels {s} i l e) =
      let (a, b, c, d) = off_pending-Effect i s.limiter l e inv.busy in
      record {
        slots = omega (arith, inv.slots);
        counted = omega (arith, inv.counted);
        bounded = omega (arith, inv.bounded);
        busy = d;
      }
  Step-Inv inv (times_out {s} i l e) =
      leave-Inv s l 1 1 s.held s.abandoned (omega arith) (omega arith)
        (off_cancelled-Effect 1 i s.limiter l e) inv
  Step-Inv inv (times_out_late {s} i l e) =
      leave-Inv s l 1 1 s.held s.abandoned (omega arith) (omega arith)
        (off_woken-Effect 1 1 i s.limiter l e) inv
  Step-Inv inv (abandons {s} i l e) =
      leave-Inv s l 1 0 s.held (s.abandoned + 1) (omega arith) (omega arith)
        (off_cancelled-Effect 0 i s.limiter l e) inv
  Step-Inv inv (abandons_late {s} i l e) =
      leave-Inv s l 1 0 s.held (s.abandoned + 1) (omega arith) (omega arith)
        (off_woken-Effect 0 1 i s.limiter l e) inv
  Step-Inv inv (releases {s} h e) =
      let (a, b, c) = release-keeps s.limiter.sem in
      record {
        slots = omega (arith, inv.slots);
        counted = omega (arith, inv.counted);
        bounded = inv.bounded;
        busy = c;
      }

  pub Reach-Inv : {s : System} → Reach full max_concurrency s → Inv max_concurrency bound s
  Reach-Inv starts = record {
    slots = omega arith;
    counted = omega arith;
    bounded = omega arith;
    busy = inr (inl refl);
  }
  Reach-Inv (next r step) = Step-Inv (Reach-Inv r) step

  Reach-IsSafe : {s : System} → Reach full max_concurrency s → IsSafe max_concurrency bound s
  Reach-IsSafe {s} r =
      let inv = Reach-Inv r in
      (
        omega (arith, inv.slots),
        omega (arith, inv.counted, inv.bounded),
        λ below waits. ground (arith, inv.slots, inv.busy),
      )

-- Under every schedule of the gateway, no more requests than `inference_max_concurrency` hold a
-- slot, no more than `inference_queue_size` are in the queue, and while a slot is not held but a
-- request waits, some waiting request has already been given a slot.
pub gateway_limits :
    (inference_max_concurrency inference_queue_size : ℕ) {s : System}
    → Reach (gateway_full inference_queue_size) inference_max_concurrency s
    → IsSafe inference_max_concurrency inference_queue_size s
gateway_limits m q r = Reach-IsSafe (gateway_full q) m q (λ n h. ground arith) r

-- Under every schedule of the Django process the same holds with a queue that is one shorter: no more
-- than one less than `INFERENCE_QUEUE_SIZE` requests are in it, and none if that is 0.
pub django_limits :
    (max_conc queue_size : ℕ) {s : System}
    → Reach (django_full queue_size) max_conc s
    → IsSafe max_conc (queue_size - 1) s
django_limits m q r = Reach-IsSafe (django_full q) m (q - 1) (λ n h. ground arith) r

-- When as many waiting requests as the queue has places have been cancelled, the gateway turns
-- away every request that finds no free slot: in a reachable state with that many
-- abandoned, an arrival that meets a locked semaphore is rejected.
pub abandoned_fill_queue :
    (inference_max_concurrency inference_queue_size i : ℕ) {s : System}
    → Reach (gateway_full inference_queue_size) inference_max_concurrency s
    → inference_queue_size ≤ s.abandoned
    → locked s.limiter.sem ≡ true
    → acquire_slot (gateway_full inference_queue_size) i s.limiter ≡ (rejected, s.limiter)
unfolding acquire_slot
abandoned_fill_queue m q i {s} r many busy =
    let inv = Reach-Inv (gateway_full q) m q (λ n h. ground arith) r in
    let over : ltb q (s.limiter.queue_count + 1) ≡ true = ground (arith, inv.counted) in
    rw (acquire_slot, busy, over) refl
