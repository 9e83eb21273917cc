-- ===== src/Base/Result.antt =====
-- Code that may raise: a value, or the error that ends the call.
use mathlib.Core.Path.{◌≡◌, refl}
use mathlib.Core.Option.{Option, none, some}

pub data Result {ℓ κ} (E : Type ℓ) (A : Type κ) : Type (ℓ ⊔ κ) where
  err : E → Result E A
  ok : A → Result E A

infixl 5 ◌>>=◌
-- The rest of a call runs only if nothing was raised so far.
abbrev pub ◌>>=◌ {ℓ κ ι} :
    {E : Type ℓ} {A : Type κ} {B : Type ι} → Result E A → (A → Result E B) → Result E B
err raised >>= rest = err raised
ok value >>= rest = rest value

-- A call that returns has run all its parts.
pub >>=-eq-ok {ℓ κ ι} :
    {E : Type ℓ} {A : Type κ} {B : Type ι} (call : Result E A) (rest : A → Result E B) {result : B}
    → (call >>= rest) ≡ ok result
    → (value : A) × (call ≡ ok value) × (rest value ≡ ok result)
>>=-eq-ok (err raised) rest returned = cc
>>=-eq-ok (ok value) rest returned = (value, refl, returned)

module _ {ℓ κ} {E : Type ℓ} {A : Type κ} where
  -- `if found is None: raise error`
  abbrev pub or_raise : Option A → E → Result E A
  or_raise (some found) error = ok found
  or_raise none error = err error

  pub or_raise-eq-ok :
      (found : Option A) (error : E) {value : A}
      → or_raise found error ≡ ok value
      → found ≡ some value
  or_raise-eq-ok (some found) error returned = cc
  or_raise-eq-ok none error returned = cc

  -- What a caller sees that only asks whether the call succeeded.
  abbrev pub to_option : Result E A → Option A
  to_option (err raised) = none
  to_option (ok value) = some value

  pub ok-injective : {x y : A} → ◌≡◌ {A = Result E A} (ok x) (ok y) → x ≡ y
  ok-injective same = cc
