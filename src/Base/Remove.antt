-- ===== src/Base/Remove.antt =====
-- A list of numbers without one of its elements.
use Prim.Native.Nat.{ℕ, suc}
use mathlib.Core.Path.{◌≡◌, refl, sym, ◌∙◌}
use mathlib.Core.Logic.{◌≢◌, inl, inr}
use mathlib.Core.Option.{Option, none, some, some-injective}
use mathlib.Core.Bool.{true}
use mathlib.Core.List.{List, [], ◌∷◌}
use ai_inference_gateway_pla.Base.Tests.{Bool-cases, if◌then◌else◌, ◌==◌, ==_iff}
use ai_inference_gateway_pla.Base.Lists.{length, In}
use native.Mathlib.Omega.{arith}

abbrev prefix_some : ℕ → Option (List ℕ) → Option (List ℕ)
prefix_some j none = none
prefix_some j (some xs) = some (j ∷ xs)

-- A list without one of its elements.
abbrev pub take_out : ℕ → List ℕ → Option (List ℕ)
take_out i [] = none
take_out i (j ∷ rest) =
    let smaller = take_out i rest in if i == j then some rest else prefix_some j smaller

prefix_some-eq-some :
    (j : ℕ) (r : Option (List ℕ)) (ys : List ℕ)
    → prefix_some j r ≡ some ys
    → (xs : List ℕ) × (r ≡ some xs) × (ys ≡ j ∷ xs)
prefix_some-eq-some j none ys h = cc
prefix_some-eq-some j (some xs) ys h = (xs, refl, cc)

pub take_out-length :
    (i : ℕ) (xs ys : List ℕ) → take_out i xs ≡ some ys → length xs ≡ suc (length ys)
take_out-length i [] ys h = cc
take_out-length i (j ∷ rest) ys h = elim (Bool-cases (i == j)) [
  | inl t ↦ ground arith
  | inr f ↦
      let (xs, e, whole) = prefix_some-eq-some j (take_out i rest) ys (rw f at h) in
      let smaller = take_out-length i rest xs e in rw whole (omega arith)
]

In-tail : (i k : ℕ) (xs ys : List ℕ) → (In i xs → In i ys) → In i (k ∷ xs) → In i (k ∷ ys)
In-tail i k xs ys f (inl e) = inl e
In-tail i k xs ys f (inr m) = inr (f m)

In-rest : (i j k : ℕ) (xs : List ℕ) → (j == k) ≡ true → i ≢ j → In i (k ∷ xs) → In i xs
In-rest i j k xs t apart (inl e) = absurd (apart (e ∙ sym ((==_iff j k).0 t)))
In-rest i j k xs t apart (inr m) = m

-- The other elements stay.
pub take_out-In : (i j : ℕ) (xs ys : List ℕ) → take_out j xs ≡ some ys → i ≢ j → In i xs → In i ys
take_out-In i j [] ys h apart m = absurd m
take_out-In i j (k ∷ rest) ys h apart m = elim (Bool-cases (j == k)) [
  | inl t ↦
      let same : rest ≡ ys = some-injective rest ys (rw t at h) in
      rw (← same) (In-rest i j k rest t apart m)
  | inr f ↦
      let (xs, e, whole) = prefix_some-eq-some k (take_out j rest) ys (rw f at h) in
      rw whole (In-tail i k rest xs (λ n. take_out-In i j rest xs e apart n) m)
]
