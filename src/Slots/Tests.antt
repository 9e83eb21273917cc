-- ===== src/Slots/Tests.antt =====
-- The limiters on short schedules.
use ai_inference_gateway_pla.Base.{refl, [], ◌∷◌}
use ai_inference_gateway_pla.Slots.Semaphore.{wait, leave}
use ai_inference_gateway_pla.Slots.Limiter.{
  acquire_slot, cancel, abandon, gateway_full, django_full,
}
use ai_inference_gateway_pla.Slots.Reach.{System, Reach, starts, next, arrives, cancels, abandons}
use ai_inference_gateway_pla.Slots.Invariant.{IsSafe, gateway_limits}

-- One slot held, one request in the queue.
abbrev waiting : System
waiting = record {
  limiter = record {
    sem = record { value = 0; pending = 2 ∷ []; woken = []; cancelled = [] };
    queue_count = 1;
  };
  held = 1;
  abandoned = 0;
}

gateway_waiting : Reach (gateway_full 1) 1 waiting
unfolding acquire_slot wait
gateway_waiting = next (next starts (arrives 1)) (arrives 2)

gateway_limits_example : IsSafe 1 1 waiting
gateway_limits_example = gateway_limits 1 1 gateway_waiting

django_waiting : Reach (django_full 2) 1 waiting
unfolding acquire_slot wait
django_waiting = next (next starts (arrives 1)) (arrives 2)

-- The request in the queue was cancelled.
abbrev forsaken : System
forsaken = record {
  limiter = record {
    sem = record { value = 0; pending = []; woken = []; cancelled = [] };
    queue_count = 1;
  };
  held = 1;
  abandoned = 1;
}

gateway_forsaken : Reach (gateway_full 1) 1 forsaken
unfolding cancel abandon leave
gateway_forsaken = next (next gateway_waiting (cancels 2 _ refl)) (abandons 2 _ refl)
