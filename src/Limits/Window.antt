-- ===== src/Limits/Window.antt =====
-- A fixed-window counter, whatever store it stands on: how many calls a window admits.
use ai_inference_gateway_pla.Base.{
  ℕ, ◌+◌, ◌/◌, ◌≡◌, ◌≢◌, sym, subst, Bool, List, [], ◌∷◌, arith, leb, ◌==◌, if◌then◌else◌, min, inl,
  inr, Bool-cases, ==_iff,
}

-- `int(time // 60)`
abbrev pub window_of : ℕ → ℕ
window_of t = t / 60000000

-- The calls that were made in a window, and those of them that were admitted.
abbrev pub calls_in : ℕ → List ℕ → ℕ
calls_in w [] = 0
calls_in w (t ∷ ts) = (if window_of t == w then 1 else 0) + calls_in w ts

abbrev pub admitted_in : ℕ → List (ℕ × Bool) → ℕ
admitted_in w [] = 0
admitted_in w ((t, b) ∷ rs) =
    (if b then (if window_of t == w then 1 else 0) else 0) + admitted_in w rs

module _ {S : Type 0} (step : ℕ → S → Bool × S) where
  -- One call after another, at these times, each with its answer.
  pub run_calls : List ℕ → S → List (ℕ × Bool)
  run_calls [] s = []
  run_calls (t ∷ ts) s = (t, (step t s).0) ∷ run_calls ts (step t s).1

  module _ (limit : ℕ) (Counts : ℕ → ℕ → S → Type 0)
      (hit : (t c : ℕ) (s : S)
        → Counts (window_of t) c s
        → ((step t s).0 ≡ leb (c + 1) limit) × Counts (window_of t) (c + 1) (step t s).1)
      (miss : (t w c : ℕ) (s : S) → window_of t ≢ w → Counts w c s → Counts w c (step t s).1) where
    -- From a store that has counted `c` calls of the window.
    run_calls-admits_from :
        (w c : ℕ) (ts : List ℕ) (s : S)
        → Counts w c s
        → admitted_in w (run_calls ts s) + min limit c ≡ min limit (c + calls_in w ts)
    unfolding run_calls
    run_calls-admits_from w c [] s h = omega arith
    run_calls-admits_from w c (t ∷ ts) s h = elim (Bool-cases (window_of t == w)) [
      | inl e ↦
          let q : window_of t ≡ w = (==_iff (window_of t) w).0 e in
          let (answer, kept) = hit t c s (subst (λ v. Counts v c s) (sym q) h) in
          let counted = subst (λ v. Counts v (c + 1) (step t s).1) q kept in
          rw (e, answer) (ground (arith, run_calls-admits_from w (c + 1) ts (step t s).1 counted))
      | inr e ↦
          let apart : window_of t ≢ w = λ q. cc (e, (==_iff (window_of t) w).1 q) in
          rw e (ground (arith, run_calls-admits_from w c ts (step t s).1 (miss t w c s apart h)))
    ]

    -- From a store that has counted no call of the window.
    pub run_calls-admits :
        (w : ℕ) (ts : List ℕ) (s : S)
        → Counts w 0 s
        → admitted_in w (run_calls ts s) ≡ min limit (calls_in w ts)
    run_calls-admits w ts s h = omega (arith, run_calls-admits_from w 0 ts s h)
