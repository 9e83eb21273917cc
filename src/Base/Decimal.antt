-- ===== src/Base/Decimal.antt =====
-- The decimal digits of a number, as an f-string prints an `int`.
use Prim.Native.Nat.{ℕ, zero, suc, ◌+◌, ◌-◌, ◌*◌, ◌/◌, ◌%◌, ◌≤◌, ◌<◌}
use mathlib.Core.Path.{◌≡◌, refl, sym, ap, ◌∙◌}
use mathlib.Core.Logic.{inl, inr}
use mathlib.Core.List.{List, [], ◌∷◌, ◌++◌}
use native.Mathlib.Omega.{arith}
use ai_inference_gateway_pla.Base.Tests.{ltb, if◌then◌else◌, Bool-cases}
use ai_inference_gateway_pla.Base.Lists.{length, length-append}

-- The last digit stands last; the first argument bounds the number of digits.
digits : ℕ → ℕ → List ℕ
digits zero n = []
digits (suc f) n =
    let rest = digits f (n / 10) ++ ((48 + n % 10) ∷ []) in if ltb n 10 then (48 + n) ∷ [] else rest

-- `str(n)`
unfoldable pub decimal : ℕ → List ℕ
unfolding digits
decimal n = digits (suc n) n

value_from : ℕ → List ℕ → ℕ
value_from n [] = n
value_from n (c ∷ s) = value_from (n * 10 + (c - 48)) s

value_from-append :
    (n c : ℕ) (s : List ℕ) → value_from n (s ++ (c ∷ [])) ≡ value_from n s * 10 + (c - 48)
unfolding value_from
value_from-append n c [] = refl
value_from-append n c (d ∷ s) = value_from-append (n * 10 + (d - 48)) c s

value_from-digits : (f n : ℕ) → n < f → value_from 0 (digits f n) ≡ n
unfolding digits value_from
value_from-digits zero n h = elim h [ ]
value_from-digits (suc f) n h = elim (Bool-cases (ltb n 10)) [
  | inl small ↦ rw small (omega arith)
  | inr large ↦
      let again = value_from-digits f (n / 10) (ground arith) in
      rw large (value_from-append 0 (48 + n % 10) (digits f (n / 10)) ∙ rw again (omega arith))
]

-- Different numbers print differently.
pub decimal-injective : (n m : ℕ) → decimal n ≡ decimal m → n ≡ m
unfolding decimal
decimal-injective n m same =
    sym (value_from-digits (suc n) n (omega arith))
    ∙ ap (value_from 0) same
    ∙ value_from-digits (suc m) m (omega arith)

-- `10 ^ k`
abbrev pub ten_to : ℕ → ℕ
ten_to zero = 1
ten_to (suc k) = ten_to k * 10

length-digits : (f n k : ℕ) → n < ten_to k → 1 ≤ k → length (digits f n) ≤ k
unfolding digits
length-digits zero n k h p = omega arith
length-digits (suc f) n zero h p = absurd (omega arith)
length-digits (suc f) n (suc zero) h p = elim (Bool-cases (ltb n 10)) [
  | inl small ↦ rw small (omega arith)
  | inr large ↦ absurd (ground arith)
]
length-digits (suc f) n (suc (suc k)) h p = elim (Bool-cases (ltb n 10)) [
  | inl small ↦ rw small (omega arith)
  | inr large ↦ rw large (
      omega (
        arith,
        length-append (digits f (n / 10)) ((48 + n % 10) ∷ []),
        length-digits f (n / 10) (suc k) (omega arith) (omega arith),
      ))
]

-- A number below `10 ^ k` has at most `k` digits.
pub length-decimal : (n k : ℕ) → n < ten_to k → 1 ≤ k → length (decimal n) ≤ k
unfolding decimal
length-decimal n k h p = length-digits (suc n) n k h p
