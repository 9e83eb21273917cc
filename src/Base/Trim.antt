-- ===== src/Base/Trim.antt =====
-- Texts that `strip` leaves alone, what can be put together from them, and the characters that
-- `strip` never touches.
use mathlib.Core.Path.{◌≡◌, refl, sym, ap, ◌∙◌}
use mathlib.Core.Logic.{inl, inr}
use mathlib.Core.List.{
  [], ◌∷◌, ◌++◌, append_assoc, append-nil, reverse, reverse-cons, reverse-append, reverse-reverse,
}
use Prim.Native.Nat.{ℕ, ◌≤◌}
use native.Mathlib.Omega.{arith}
use ai_inference_gateway_pla.Base.Tests.{Bool-cases, if◌then◌else◌}
use ai_inference_gateway_pla.Base.Lists.{length, length-append}
use ai_inference_gateway_pla.Base.Chars.{Text, is_space, lstrip, strip}
use ai_inference_gateway_pla.Base.Strip.{
  IsSolid, IsSpace, lstrip-head, lstrip_idem, strip-split, strip-head,
}

-- No white space at either end.
abbrev pub IsTrim : Text → Type 0
IsTrim s = (lstrip s ≡ s) × (lstrip (reverse s) ≡ reverse s)

abbrev pub IsFull : Text → Type 0
IsFull [] = ⊥
IsFull (c ∷ s) = Unit

pub strip-IsTrim : (s : Text) → IsTrim (strip s)
strip-IsTrim s = let (v, q) = strip-split s in (strip-head s (strip s) v refl q, back)
  where
    back : lstrip (reverse (strip s)) ≡ reverse (strip s)
    back =
        unfold strip in
        ap lstrip (reverse-reverse (lstrip (reverse (lstrip s))))
        ∙ lstrip_idem (reverse (lstrip s))
        ∙ sym (reverse-reverse (lstrip (reverse (lstrip s))))

pub nil-IsTrim : IsTrim []
unfolding lstrip
nil-IsTrim = (refl, refl)

pub strip_of_trim : (s : Text) → IsTrim s → strip s ≡ s
unfolding strip
strip_of_trim s h = ap (λ t. reverse (lstrip (reverse t))) h.0 ∙ ap reverse h.1 ∙ reverse-reverse s

lstrip-append : (s t : Text) → IsFull s → lstrip s ≡ s → lstrip (s ++ t) ≡ s ++ t
unfolding lstrip
lstrip-append [] t full h = elim full [ ]
lstrip-append (c ∷ s) t full h = rw (lstrip-head (c ∷ s) {c = c} {r = s} h)

reverse-IsFull : (s : Text) → IsFull s → IsFull (reverse s)
reverse-IsFull [] full = elim full [ ]
reverse-IsFull (c ∷ s) full = rw (reverse-cons c s) (snoc (reverse s))
  where
    snoc : (t : Text) → IsFull (t ++ (c ∷ []))
    snoc [] = tt
    snoc (d ∷ t) = tt

pub append-IsFull : (s t : Text) → IsFull s → IsFull (s ++ t)
append-IsFull [] t full = elim full [ ]
append-IsFull (c ∷ s) t full = tt

-- Trimmed texts around anything are trimmed.
pub append-IsTrim :
    (s m t : Text) → IsFull s → IsFull t → IsTrim s → IsTrim t → IsTrim (s ++ (m ++ t))
append-IsTrim s m t full full' h h' = (
  lstrip-append s (m ++ t) full h.0,
  rw back (lstrip-append (reverse t) (reverse m ++ reverse s) (reverse-IsFull t full') h'.1),
)
  where
    back : reverse (s ++ (m ++ t)) ≡ reverse t ++ (reverse m ++ reverse s)
    back =
        reverse-append s (m ++ t)
        ∙ ap (λ u. u ++ reverse s) (reverse-append m t)
        ∙ append_assoc (reverse t) (reverse m) (reverse s)

-- The characters that are no white space.
unfoldable pub solid : Text → Text
solid [] = []
solid (c ∷ s) = if is_space c then solid s else c ∷ solid s

pub solid_nil : solid [] ≡ []
unfolding solid
solid_nil = refl

pub solid_space : (c : ℕ) (s : Text) → IsSpace c → solid (c ∷ s) ≡ solid s
unfolding solid
solid_space c s e = rw e

pub solid_kept : (c : ℕ) (s : Text) → IsSolid c → solid (c ∷ s) ≡ c ∷ solid s
unfolding solid
solid_kept c s e = rw e

pub solid-append : (s t : Text) → solid (s ++ t) ≡ solid s ++ solid t
solid-append [] t = rw solid_nil
solid-append (c ∷ s) t = elim (Bool-cases (is_space c)) [
  | inl e ↦
      solid_space c (s ++ t) e ∙ solid-append s t ∙ ap (λ u. u ++ solid t) (sym (solid_space c s e))
  | inr e ↦
      solid_kept c (s ++ t) e
      ∙ ap (◌∷◌ c) (solid-append s t)
      ∙ ap (λ u. u ++ solid t) (sym (solid_kept c s e))
]

solid-reverse : (s : Text) → solid (reverse s) ≡ reverse (solid s)
solid-reverse [] = rw solid_nil
solid-reverse (c ∷ s) =
    ap solid (reverse-cons c s)
    ∙ solid-append (reverse s) (c ∷ [])
    ∙ ap (λ u. u ++ solid (c ∷ [])) (solid-reverse s)
    ∙ elim (Bool-cases (is_space c)) [
      | inl e ↦
          ap (λ u. reverse (solid s) ++ u) (solid_space c [] e ∙ solid_nil)
          ∙ append-nil (reverse (solid s))
          ∙ ap reverse (sym (solid_space c s e))
      | inr e ↦
          ap (λ u. reverse (solid s) ++ u) (solid_kept c [] e ∙ ap (◌∷◌ c) solid_nil)
          ∙ sym (reverse-cons c (solid s))
          ∙ ap reverse (sym (solid_kept c s e))
    ]

solid-lstrip : (s : Text) → solid (lstrip s) ≡ solid s
unfolding lstrip
solid-lstrip [] = refl
solid-lstrip (c ∷ s) = elim (Bool-cases (is_space c)) [
  | inl e ↦ rw (e, lstrip) (solid-lstrip s ∙ sym (solid_space c s e))
  | inr e ↦ rw (e, lstrip) refl
]

pub solid-strip : (s : Text) → solid (strip s) ≡ solid s
unfolding strip
solid-strip s =
    solid-reverse (lstrip (reverse (lstrip s)))
    ∙ ap reverse (solid-lstrip (reverse (lstrip s)) ∙ solid-reverse (lstrip s))
    ∙ reverse-reverse (solid (lstrip s))
    ∙ solid-lstrip s

length-lstrip : (s : Text) → length (lstrip s) ≤ length s
unfolding lstrip
length-lstrip [] = omega arith
length-lstrip (c ∷ s) = elim (Bool-cases (is_space c)) [
  | inl e ↦ rw e (omega (arith, length-lstrip s))
  | inr e ↦ rw e (omega arith)
]

length-reverse : (s : Text) → length (reverse s) ≡ length s
length-reverse [] = refl
length-reverse (c ∷ s) =
    rw (reverse-cons c s) (omega (arith, length-append (reverse s) (c ∷ []), length-reverse s))

pub length-strip : (s : Text) → length (strip s) ≤ length s
unfolding strip
length-strip s = omega (
  arith,
  length-reverse (lstrip (reverse (lstrip s))),
  length-lstrip (reverse (lstrip s)),
  length-reverse (lstrip s),
  length-lstrip s,
)
