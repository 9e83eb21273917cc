-- ===== src/Base/Strip.antt =====
-- Laws of `strip`: what it removes, what it leaves, and that a second call changes nothing.
use mathlib.Core.Path.{◌≡◌, refl, sym, ap, ◌∙◌}
use mathlib.Core.Logic.{inl, inr}
use mathlib.Core.Bool.{true, false}
use mathlib.Core.List.{List, [], ◌∷◌, ◌++◌, reverse, reverse-cons, reverse-append, reverse-reverse}
use Prim.Native.Nat.{ℕ}
use native.Mathlib.Omega.{arith}
use ai_inference_gateway_pla.Base.Tests.{Bool-cases}
use ai_inference_gateway_pla.Base.Lists.{All}
use ai_inference_gateway_pla.Base.Chars.{Text, is_space, lstrip, strip}

abbrev pub IsSpace : ℕ → Type 0
IsSpace c = is_space c ≡ true

abbrev pub IsSolid : ℕ → Type 0
IsSolid c = is_space c ≡ false

module _ {ℓ κ} {A : Type ℓ} (P : A → Type κ) where
  pub All-append : (xs ys : List A) → All P xs → All P ys → All P (xs ++ ys)
  All-append [] ys hx hy = hy
  All-append (x ∷ xs) ys hx hy = (hx.0, All-append xs ys hx.1 hy)

  pub All-reverse : (xs : List A) → All P xs → All P (reverse xs)
  All-reverse [] h = h
  All-reverse (x ∷ xs) h =
      rw (reverse-cons x xs) (All-append (reverse xs) (x ∷ []) (All-reverse xs h.1) (h.0, tt))

lstrip-solid : (c : ℕ) (s : Text) → IsSolid c → lstrip (c ∷ s) ≡ c ∷ s
unfolding lstrip
lstrip-solid c s h = rw h

lstrip-spaces : (w s : Text) → All IsSpace w → lstrip (w ++ s) ≡ lstrip s
unfolding lstrip
lstrip-spaces [] s h = refl
lstrip-spaces (c ∷ w) s h = rw h.0 (lstrip-spaces w s h.1)

lstrip_of_solid : (s : Text) → All IsSolid s → lstrip s ≡ s
unfolding lstrip
lstrip_of_solid [] h = refl
lstrip_of_solid (c ∷ s) h = lstrip-solid c s h.0

-- What `lstrip` leaves does not begin with white space.
pub lstrip-head : (s : Text) {c : ℕ} {r : Text} → lstrip s ≡ c ∷ r → IsSolid c
unfolding lstrip
lstrip-head [] h = cc
lstrip-head (d ∷ s) {c} {r} h = elim (Bool-cases (is_space d)) [
  | inl e ↦ lstrip-head s {c = c} {r = r} (rw (e, lstrip) at h)
  | inr e ↦ ground arith
]

pub lstrip-split : (s : Text) → (w : Text) × (s ≡ w ++ lstrip s)
unfolding lstrip
lstrip-split [] = ([], refl)
lstrip-split (c ∷ s) = elim (Bool-cases (is_space c)) [
  | inl e ↦ let (w, q) = lstrip-split s in (c ∷ w, rw e (ap (◌∷◌ c) q))
  | inr e ↦ ([], rw e)
]

pub lstrip_idem : (s : Text) → lstrip (lstrip s) ≡ lstrip s
unfolding lstrip
lstrip_idem [] = refl
lstrip_idem (c ∷ s) = elim (Bool-cases (is_space c)) [
  | inl e ↦ rw e (lstrip_idem s)
  | inr e ↦ rw e (lstrip-solid c s e)
]

lstrip-All_space : (v : Text) → All IsSpace v → lstrip v ≡ []
unfolding lstrip
lstrip-All_space [] h = refl
lstrip-All_space (c ∷ v) h = rw h.0 (lstrip-All_space v h.1)

-- A text whose first character stays keeps all of it, and loses the white space behind it.
strip-solid_spaces :
    (c : ℕ) (s v : Text)
    → All IsSolid (c ∷ s)
    → All IsSpace v
    → reverse (lstrip (reverse ((c ∷ s) ++ v))) ≡ c ∷ s
strip-solid_spaces c s v hs hv =
    ap (λ t. reverse (lstrip t)) (reverse-append (c ∷ s) v)
    ∙ ap reverse (lstrip-spaces (reverse v) (reverse (c ∷ s)) (All-reverse IsSpace v hv))
    ∙ ap reverse (lstrip_of_solid (reverse (c ∷ s)) (All-reverse IsSolid (c ∷ s) hs))
    ∙ reverse-reverse (c ∷ s)

-- White space around a text without any is what `strip` removes.
pub strip-pad :
    (w s v : Text) → All IsSpace w → All IsSolid s → All IsSpace v → strip (w ++ (s ++ v)) ≡ s
unfolding strip
strip-pad w [] v hw hs hv =
    ap (λ t. reverse (lstrip (reverse t))) (lstrip-spaces w v hw ∙ lstrip-All_space v hv)
strip-pad w (c ∷ s) v hw hs hv =
    ap (λ t. reverse (lstrip (reverse t)))
      (lstrip-spaces w ((c ∷ s) ++ v) hw ∙ lstrip-solid c (s ++ v) hs.0)
    ∙ strip-solid_spaces c s v hs hv

-- What `lstrip` leaves is what `strip` leaves and the end that it removes.
pub strip-split : (s : Text) → (v : Text) × (lstrip s ≡ strip s ++ v)
unfolding strip
strip-split s =
    let (w, q) = lstrip-split (reverse (lstrip s)) in
    (
      reverse w,
      sym (reverse-reverse (lstrip s))
          ∙ ap reverse q
          ∙ reverse-append w (lstrip (reverse (lstrip s))),
    )

-- Nothing that `strip` leaves ends in white space.
pub strip-last : (s x : Text) (c : ℕ) → strip s ≡ x ++ (c ∷ []) → IsSolid c
unfolding strip
strip-last s x c h =
    lstrip-head (reverse (lstrip s)) {c = c} {r = reverse x}
      (sym (reverse-reverse _) ∙ ap reverse h ∙ reverse-append x (c ∷ []))

pub strip-head : (s t v : Text) → strip s ≡ t → lstrip s ≡ t ++ v → lstrip t ≡ t
unfolding lstrip
strip-head s [] v h q = refl
strip-head s (c ∷ t) v h q = lstrip-solid c t (lstrip-head s {c = c} {r = t ++ v} q)

-- `strip` removes nothing from what it left.
pub strip_idem : (s : Text) → strip (strip s) ≡ strip s
strip_idem s =
    let (v, q) = strip-split s in
    unfold strip in
    ap (λ t. reverse (lstrip (reverse t))) (strip-head s (strip s) v refl q)
    ∙ ap (λ t. reverse (lstrip t)) (reverse-reverse (lstrip (reverse (lstrip s))))
    ∙ ap reverse (lstrip_idem (reverse (lstrip s)))

lstrip-snoc :
    (t z : Text) (e : ℕ)
    → All IsSolid t
    → IsSolid e
    → lstrip ((t ++ e ∷ []) ++ z) ≡ (t ++ e ∷ []) ++ z
lstrip-snoc [] z e h q = lstrip-solid e z q
lstrip-snoc (d ∷ t) z e h q = lstrip-solid d ((t ++ e ∷ []) ++ z) h.0

-- White space inside a text stays.
pub strip-inner :
    (c : ℕ) (w : Text) (e : ℕ) (r : Text)
    → IsSolid c
    → All IsSolid (e ∷ r)
    → strip (c ∷ (w ++ (e ∷ r))) ≡ c ∷ (w ++ (e ∷ r))
unfolding strip
strip-inner c w e r hc hr =
    ap (λ t. reverse (lstrip (reverse t))) (lstrip-solid c (w ++ (e ∷ r)) hc)
    ∙ ap (λ t. reverse (lstrip t)) shape
    ∙ ap reverse
        (lstrip-snoc (reverse r) (reverse (c ∷ w)) e (All-reverse IsSolid r hr.1) hr.0 ∙ sym shape)
    ∙ reverse-reverse (c ∷ (w ++ (e ∷ r)))
  where
    shape : reverse (c ∷ (w ++ (e ∷ r))) ≡ (reverse r ++ e ∷ []) ++ reverse (c ∷ w)
    shape = reverse-append (c ∷ w) (e ∷ r) ∙ ap (λ t. t ++ reverse (c ∷ w)) (reverse-cons e r)

pub strip_of_solid : (s : Text) → All IsSolid s → strip s ≡ s
unfolding strip
strip_of_solid s h =
    ap (λ t. reverse (lstrip (reverse t))) (lstrip_of_solid s h)
    ∙ ap reverse (lstrip_of_solid (reverse s) (All-reverse IsSolid s h))
    ∙ reverse-reverse s
