-- ===== src/Slots/Reach.antt =====
-- Every schedule of requests, time-outs, cancellations and releases.
use ai_inference_gateway_pla.Base.{ℕ, suc, ◌+◌, ◌≤◌, ◌≡◌, Bool, some}
use ai_inference_gateway_pla.Slots.Semaphore.{fresh, supply, queue_length, IsBusy}
use ai_inference_gateway_pla.Slots.Limiter.{
  Limiter, Outcome, acquired, queued, rejected, acquire_slot, release_slot, resume, cancel,
  time_out, time_out_late, abandon, abandon_late,
}

-- The limiter, the slots that requests hold, and the cancelled requests that the count still has.
pub record System : Type 0 where
  pub limiter : Limiter
  pub held : ℕ
  pub abandoned : ℕ

abbrev pub start : ℕ → System
start max_concurrency = record {
  limiter = record { sem = fresh max_concurrency; queue_count = 0 };
  held = 0;
  abandoned = 0;
}

abbrev pub admit : System → Outcome × Limiter → System
admit s (acquired, l) = record s { limiter = l; held = s.held + 1 }
admit s (queued, l) = record s { limiter = l }
admit s (rejected, l) = record s { limiter = l }

pub data Step (full : ℕ → Bool) : System → System → Type 0 where
  arrives : {s : System} → (i : ℕ) → Step full s (admit s (acquire_slot full i s.limiter))
  resumes :
      {s : System}
      → (i : ℕ) (l : Limiter) → resume i s.limiter ≡ some l
      → Step full s (record s { limiter = l; held = s.held + 1 })
  cancels :
      {s : System}
      → (i : ℕ) (l : Limiter) → cancel i s.limiter ≡ some l
      → Step full s (record s { limiter = l })
  times_out :
      {s : System}
      → (i : ℕ) (l : Limiter) → time_out i s.limiter ≡ some l
      → Step full s (record s { limiter = l })
  times_out_late :
      {s : System}
      → (i : ℕ) (l : Limiter) → time_out_late i s.limiter ≡ some l
      → Step full s (record s { limiter = l })
  abandons :
      {s : System}
      → (i : ℕ) (l : Limiter) → abandon i s.limiter ≡ some l
      → Step full s (record s { limiter = l; abandoned = s.abandoned + 1 })
  abandons_late :
      {s : System}
      → (i : ℕ) (l : Limiter) → abandon_late i s.limiter ≡ some l
      → Step full s (record s { limiter = l; abandoned = s.abandoned + 1 })
  releases :
      {s : System}
      → (h : ℕ) → s.held ≡ suc h
      → Step full s (record s { limiter = release_slot s.limiter; held = h })

pub data Reach (full : ℕ → Bool) (max_concurrency : ℕ) : System → Type 0 where
  starts : Reach full max_concurrency (start max_concurrency)
  next :
      {s t : System} → Reach full max_concurrency s → Step full s t → Reach full max_concurrency t

-- Every slot is free, handed over or held; the count is the queue and the abandoned; it is within
-- the bound; and no slot is free while a task waits that nobody is about to wake.
pub record Inv (max_concurrency bound : ℕ) (s : System) : Type 0 where
  pub slots : supply s.limiter.sem + s.held ≡ max_concurrency
  pub counted : s.limiter.queue_count ≡ queue_length s.limiter.sem + s.abandoned
  pub bounded : s.limiter.queue_count ≤ bound
  pub busy : IsBusy s.limiter.sem
