-- ===== src/Slots/Semaphore.antt =====
-- `asyncio.Semaphore`, as the limiters use it, between two points where the loop switches tasks. A
-- future that has its result, and one that is cancelled, stay in the queue until their task runs.
use ai_inference_gateway_pla.Base.{
  ℕ, zero, suc, ◌+◌, ◌-◌, ◌<◌, ◌≡◌, ◌≢◌, refl, Bool, true, false, ◌||◌, List, [], ◌∷◌, ◌++◌, ◌==◌,
  arith, length, length-append, ◌⊎◌, inl, inr, not,
}

pub record Semaphore : Type 0 where
  pub value : ℕ
  pub pending : List ℕ
  pub woken : List ℕ
  pub cancelled : List ℕ

abbrev pub fresh : ℕ → Semaphore
fresh max_concurrency = record { value = max_concurrency; pending = []; woken = []; cancelled = [] }

abbrev is_empty : List ℕ → Bool
is_empty [] = true
is_empty (x ∷ xs) = false

-- `self._value == 0 or any(not w.cancelled() for w in self._waiters)`
abbrev pub locked : Semaphore → Bool
locked s = (s.value == 0) || not (is_empty s.pending) || not (is_empty s.woken)

-- The first future without a result gets one, and the slot with it.
abbrev wake : ℕ → List ℕ → List ℕ → List ℕ → Semaphore
wake value [] woken gone = record { value = value; pending = []; woken = woken; cancelled = gone }
wake value (i ∷ rest) woken gone = record {
  value = value - 1;
  pending = rest;
  woken = woken ++ (i ∷ []);
  cancelled = gone;
}

unfoldable pub release : Semaphore → Semaphore
release s = wake (s.value + 1) s.pending s.woken s.cancelled

-- `while self._value > 0: if not self._wake_up_next(): break`
abbrev wake_all : ℕ → List ℕ → List ℕ → List ℕ → Semaphore
wake_all value [] woken gone = record {
  value = value;
  pending = [];
  woken = woken;
  cancelled = gone;
}
wake_all zero (i ∷ rest) woken gone = record {
  value = 0;
  pending = i ∷ rest;
  woken = woken;
  cancelled = gone;
}
wake_all (suc value) (i ∷ rest) woken gone = wake_all value rest (woken ++ (i ∷ [])) gone

unfoldable pub wait : ℕ → Semaphore → Semaphore
wait i s = record s { pending = s.pending ++ (i ∷ []) }

-- A task whose future is out of the queue wakes whom it can.
unfoldable pub leave : ℕ → List ℕ → List ℕ → List ℕ → Semaphore
leave value pending woken gone = wake_all value pending woken gone

-- The slots that are free or handed over, the tasks in the queue, and whether no slot is free while
-- a task waits that nobody is about to wake.
abbrev pub supply : Semaphore → ℕ
supply s = s.value + length s.woken

abbrev pub queue_length : Semaphore → ℕ
queue_length s = length s.pending + length s.woken + length s.cancelled

abbrev pub IsBusy : Semaphore → Type 0
IsBusy s = (s.value ≡ 0) ⊎ ((length s.pending ≡ 0) ⊎ (0 < length s.woken))

pub leave-keeps :
    (value : ℕ) (pending woken gone : List ℕ)
    → let s = leave value pending woken gone in
      (supply s ≡ value + length woken)
      × (queue_length s ≡ length pending + length woken + length gone)
      × IsBusy s
unfolding leave
leave-keeps value [] woken gone = (refl, refl, inr (inl refl))
leave-keeps zero (i ∷ rest) woken gone = (refl, refl, inl refl)
leave-keeps (suc value) (i ∷ rest) woken gone =
    let (a, b, c) = leave-keeps value rest (woken ++ (i ∷ [])) gone in
    let one = length-append woken (i ∷ []) in (omega arith, omega arith, c)

wake-keeps :
    (value : ℕ) (pending woken gone : List ℕ)
    → (supply (wake (value + 1) pending woken gone) ≡ suc (value + length woken))
      × (queue_length (wake (value + 1) pending woken gone)
          ≡ length pending + length woken + length gone)
      × IsBusy (wake (value + 1) pending woken gone)
wake-keeps value [] woken gone = (omega arith, refl, inr (inl refl))
wake-keeps value (i ∷ rest) woken gone =
    let one = length-append woken (i ∷ []) in (omega arith, omega arith, inr (inr (omega arith)))

pub release-keeps :
    (s : Semaphore)
    → (supply (release s) ≡ suc (supply s))
      × (queue_length (release s) ≡ queue_length s)
      × IsBusy (release s)
unfolding release
release-keeps s = wake-keeps s.value s.pending s.woken s.cancelled

pub wait-keeps :
    (i : ℕ) (s : Semaphore)
    → locked s ≡ true
    → IsBusy s
    → (supply (wait i s) ≡ supply s)
      × (queue_length (wait i s) ≡ suc (queue_length s))
      × IsBusy (wait i s)
unfolding wait
wait-keeps i s l busy = ground (arith, length-append s.pending (i ∷ []))

-- A semaphore that is not locked has a slot, and nobody waits.
pub free-keeps :
    (s : Semaphore)
    → locked s ≡ false
    → (s.value ≢ 0) × (length s.pending ≡ 0) × (length s.woken ≡ 0)
free-keeps s h = free_lem s.value s.pending s.woken h
  where
    free_lem :
        (v : ℕ) (p w : List ℕ)
        → ((v == 0) || not (is_empty p) || not (is_empty w)) ≡ false
        → (v ≢ 0) × (length p ≡ 0) × (length w ≡ 0)
    free_lem v [] [] h = (ground arith, refl, refl)
    free_lem v [] (x ∷ w) h = absurd (ground arith)
    free_lem v (x ∷ p) w h = absurd (ground arith)
