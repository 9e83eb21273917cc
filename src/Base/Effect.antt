-- ===== src/Base/Effect.antt =====
-- Code that changes a state and may raise: what it did stays done when it raises.
use mathlib.Core.Path.{◌≡◌, refl}
use ai_inference_gateway_pla.Base.Result.{Result, err, ok}

abbrev pub Effect : Type 0 → Type 0 → Type 0 → Type 0
Effect S E A = S → S × Result E A

abbrev pub then_run : {S E A B : Type 0} → S × Result E A → (A → Effect S E B) → S × Result E B
then_run (s, err raised) rest = (s, err raised)
then_run (s, ok value) rest = rest value s

infixl 5 ◌>>=◌ ◌>>◌
abbrev pub ◌>>=◌ : {S E A B : Type 0} → Effect S E A → (A → Effect S E B) → Effect S E B
(call >>= rest) s = then_run (call s) rest

abbrev pub ◌>>◌ : {S E B : Type 0} → Effect S E (Unit {0}) → Effect S E B → Effect S E B
(call >> rest) s = then_run (call s) (λ _. rest)

-- `raise`
abbrev pub raise : {S E A : Type 0} → E → Effect S E A
raise raised s = (s, err raised)

-- A call without effect.
abbrev pub lift : {S E A : Type 0} → Result E A → Effect S E A
lift result s = (s, result)

-- A sequence that returns has run its first part, which returned.
pub then_run-eq-ok :
    {S E A B : Type 0} (first : S × Result E A) (rest : A → Effect S E B) {result : B}
    → (then_run first rest).1 ≡ ok result
    → (value : A) × (first.1 ≡ ok value)
      × ((rest value first.0).1 ≡ ok result)
      × (then_run first rest ≡ rest value first.0)
then_run-eq-ok (s, err raised) rest returned = cc
then_run-eq-ok (s, ok value) rest returned = (value, refl, returned, refl)

-- What holds of the state after each part holds after both.
pub then_run_keeps :
    {S E A B : Type 0} (P : S → Type 0) (first : S × Result E A) (rest : A → Effect S E B)
    → P first.0
    → ((value : A) (s : S) → P s → P (rest value s).0)
    → P (then_run first rest).0
then_run_keeps P (s, err raised) rest kept keeps = kept
then_run_keeps P (s, ok value) rest kept keeps = keeps value s kept
