-- ===== src/Slots/Limiter/Effects.antt =====
-- What each step of a queued request does to the slots, the queue and the count.
use mathlib.Core.Option.{some-injective}
use ai_inference_gateway_pla.Base.{
  ℕ, take_out, take_out-length, ◌+◌, ◌-◌, ◌≡◌, refl, some, [], ◌∷◌, arith, length-append,
  Option-cases, inl, inr,
}
use ai_inference_gateway_pla.Slots.Semaphore.{supply, queue_length, IsBusy, leave-keeps}
use ai_inference_gateway_pla.Slots.Limiter.{Limiter, off_woken, off_cancelled, off_pending}

-- The slots and the queue afterwards, with `gain` slots and `count` of the queue count taken off.
abbrev pub Effect : ℕ → ℕ → Limiter → Limiter → Type 0
Effect back count l l' =
    (supply l'.sem + 1 ≡ supply l.sem + back)
    × (queue_length l'.sem + 1 ≡ queue_length l.sem)
    × (l'.queue_count ≡ l.queue_count - count)
    × IsBusy l'.sem

pub off_woken-Effect :
    (count back i : ℕ) (l l' : Limiter)
    → off_woken count back l (take_out i l.sem.woken) ≡ some l'
    → Effect back count l l'
off_woken-Effect count back i l l' h = elim (Option-cases (take_out i l.sem.woken)) [
  | inl e ↦ cc
  | inr (woken, e) ↦
      let shorter = take_out-length i l.sem.woken woken e in
      let (a, b, c) = leave-keeps (l.sem.value + back) l.sem.pending woken l.sem.cancelled in
      rw (← some-injective _ l' (rw e at h)) (omega arith, omega arith, refl, c)
]

pub off_cancelled-Effect :
    (count i : ℕ) (l l' : Limiter)
    → off_cancelled count l (take_out i l.sem.cancelled) ≡ some l'
    → Effect 1 count l l'
off_cancelled-Effect count i l l' h = elim (Option-cases (take_out i l.sem.cancelled)) [
  | inl e ↦ cc
  | inr (gone, e) ↦
      let shorter = take_out-length i l.sem.cancelled gone e in
      let (a, b, c) = leave-keeps l.sem.value l.sem.pending l.sem.woken gone in
      rw (← some-injective _ l' (rw e at h)) (omega arith, omega arith, refl, c)
]

pub off_pending-Effect :
    (i : ℕ) (l l' : Limiter)
    → off_pending i l (take_out i l.sem.pending) ≡ some l'
    → IsBusy l.sem
    → (supply l'.sem ≡ supply l.sem)
      × (queue_length l'.sem ≡ queue_length l.sem)
      × (l'.queue_count ≡ l.queue_count)
      × IsBusy l'.sem
off_pending-Effect i l l' h busy = elim (Option-cases (take_out i l.sem.pending)) [
  | inl e ↦ cc
  | inr (pending, e) ↦
      let shorter = take_out-length i l.sem.pending pending e in
      let one = length-append l.sem.cancelled (i ∷ []) in
      rw (← some-injective _ l' (rw e at h)) (refl, omega arith, refl, ground arith)
]
