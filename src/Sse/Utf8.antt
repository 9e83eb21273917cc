-- ===== src/Sse/Utf8.antt =====
-- `bytes.decode("utf-8", errors="ignore")`, as Python does it: a byte that cannot go on the sequence
-- before it drops that sequence and starts anew, and a sequence that is cut off at the end is dropped.
use mathlib.Core.List.{append_assoc}
use ai_inference_gateway_pla.Base.{
  ℕ, ◌+◌, ◌-◌, ◌*◌, ◌≡◌, refl, sym, ap, ◌∙◌, ◌&&◌, [], ◌∷◌, ◌++◌, Text, ltb, leb, ◌==◌,
  if◌then◌else◌,
}

-- How many bytes a sequence still needs, the bounds of the next, and its bits so far.
pub record Pending : Type 0 where
  pub needed : ℕ
  pub lower : ℕ
  pub upper : ℕ
  pub bits : ℕ

-- Between two characters.
abbrev pub idle : Pending
idle = record { needed = 0; lower = 0x80; upper = 0xbf; bits = 0 }

-- A byte that begins a character, or is ignored.
abbrev pub start_byte : ℕ → Pending × Text
start_byte b =
    if ltb b 0x80
    then (idle, b ∷ [])
    else if ltb b 0xc2
    then (idle, [])
    else if ltb b 0xe0
    then (record { needed = 1; lower = 0x80; upper = 0xbf; bits = b - 0xc0 }, [])
    else if ltb b 0xf0
    then (
      record {
        needed = 2;
        lower = if b == 0xe0 then 0xa0 else 0x80;
        upper = if b == 0xed then 0x9f else 0xbf;
        bits = b - 0xe0;
      },
      [],
    )
    else if ltb b 0xf5
    then (
      record {
        needed = 3;
        lower = if b == 0xf0 then 0x90 else 0x80;
        upper = if b == 0xf4 then 0x8f else 0xbf;
        bits = b - 0xf0;
      },
      [],
    )
    else (idle, [])

-- A byte that goes on a sequence.
abbrev pub continue_byte : Pending → ℕ → Pending × Text
continue_byte p b =
    let bits = p.bits * 64 + (b - 0x80) in
    if p.needed == 1
    then (idle, bits ∷ [])
    else (record { needed = p.needed - 1; lower = 0x80; upper = 0xbf; bits = bits }, [])

abbrev pub take_byte : Pending → ℕ → Pending × Text
take_byte p b =
    if p.needed == 0
    then start_byte b
    else if leb p.lower b && leb b p.upper
    then continue_byte p b
    else start_byte b

unfoldable pub decode_from : Pending → Text → Pending × Text
decode_from p [] = (p, [])
decode_from p (b ∷ bs) =
    let (q, text) = take_byte p b in let (end, rest) = decode_from q bs in (end, text ++ rest)

-- `decode`
abbrev pub decode : Text → Text
decode bytes = (decode_from idle bytes).1

-- The bytes end between two characters.
abbrev pub IsWhole : Text → Type 0
IsWhole bytes = (decode_from idle bytes).0 ≡ idle

decode_from-append :
    (p : Pending) (a b : Text)
    → decode_from p (a ++ b) ≡ (
      (decode_from (decode_from p a).0 b).0,
      (decode_from p a).1 ++ (decode_from (decode_from p a).0 b).1,
    )
unfolding decode_from
decode_from-append p [] b = refl
decode_from-append p (c ∷ a) b =
    let q = (take_byte p c).0 in
    let text = (take_byte p c).1 in
    let later = decode_from-append q a b in
    ap (λ (r : Pending × Text). (r.0, text ++ r.1)) later ∙ (λ i. (
      (decode_from (decode_from q a).0 b).0,
      sym (append_assoc text (decode_from q a).1 (decode_from (decode_from q a).0 b).1) i,
    ))

pub decode-append : (a b : Text) → IsWhole a → decode (a ++ b) ≡ decode a ++ decode b
decode-append a b whole =
    ap (λ (r : Pending × Text). r.1) (decode_from-append idle a b)
    ∙ ap (λ p. decode a ++ (decode_from p b).1) whole
