-- ===== src/Base/Pigeonhole.antt =====
-- A list that has all of `k` different elements has `k` places.
use Prim.Native.Nat.{ℕ, zero, suc, ◌+◌, ◌≤◌, ◌<◌}
use mathlib.Core.Path.{◌≡◌, refl, sym, ◌∙◌}
use mathlib.Core.Logic.{◌≢◌, inl, inr}
use mathlib.Core.List.{List, [], ◌∷◌}
use native.Mathlib.Omega.{arith}
use ai_inference_gateway_pla.Base.Lists.{length, In}

module _ {A : Type 0} where
  without : (x : A) (ys : List A) → In x ys → List A
  without x [] m = absurd m
  without x (y ∷ ys) (inl e) = ys
  without x (y ∷ ys) (inr m) = y ∷ without x ys m

  length-without : (x : A) (ys : List A) (m : In x ys) → length ys ≡ suc (length (without x ys m))
  unfolding without
  length-without x [] m = absurd m
  length-without x (y ∷ ys) (inl e) = refl
  length-without x (y ∷ ys) (inr m) = omega (arith, length-without x ys m)

  without-In : (x z : A) (ys : List A) (m : In x ys) → z ≢ x → In z ys → In z (without x ys m)
  unfolding without
  without-In x z [] m apart k = absurd m
  without-In x z (y ∷ ys) (inl e) apart (inl f) = absurd (apart (f ∙ sym e))
  without-In x z (y ∷ ys) (inl e) apart (inr k) = k
  without-In x z (y ∷ ys) (inr m) apart (inl f) = inl f
  without-In x z (y ∷ ys) (inr m) apart (inr k) = inr (without-In x z ys m apart k)

  pub pigeonhole :
      (f : ℕ → A) (n k : ℕ) (ys : List A)
      → ((i j : ℕ) → f i ≡ f j → i ≡ j)
      → ((i : ℕ) → n ≤ i → i < n + k → In (f i) ys)
      → k ≤ length ys
  pigeonhole f n zero ys injective h = omega arith
  pigeonhole f n (suc k) ys injective h =
      let m = h n (omega arith) (omega arith) in
      let later = pigeonhole f (suc n) k (without (f n) ys m) injective (λ i low high.
        without-In (f n) (f i) ys m (λ e. absurd (apart i low (injective i n e)))
          (h i (omega arith) (omega arith))) in
      omega (arith, later, length-without (f n) ys m)
    where
      apart : (i : ℕ) → suc n ≤ i → i ≢ n
      apart i low e = omega (arith, low, e)
