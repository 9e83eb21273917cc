-- ===== src/Telegram/Escape.antt =====
-- What a reader of MarkdownV2 makes of sanitized text.
use ai_inference_gateway_pla.Base.{
  ℕ, List, Bool, ◌||◌, ◌≡◌, refl, sym, ap, ◌∙◌, inl, inr, true, false, Bool-cases, Option, none,
  some, [], ◌∷◌, Text, All, ◌==◌, ==_iff, if◌then◌else◌,
}
use ai_inference_gateway_pla.Telegram.{is_special, sanitize_markdown}

abbrev cons_text : ℕ → Option Text → Option Text
cons_text c none = none
cons_text c (some s) = some (c ∷ s)

-- The characters that MarkdownV2 reserves: `_`, `*`, `[`, `]`, `(`, `)`, `~`, the backtick, `>`, `#`,
-- `+`, `-`, `=`, `|`, `{`, `}`, `.` and `!`.
abbrev reserved : List ℕ
reserved =
    0x5f ∷ 0x2a ∷ 0x5b ∷ 0x5d ∷ 0x28 ∷ 0x29 ∷ 0x7e ∷ 0x60 ∷ 0x3e ∷ 0x23 ∷ 0x2b ∷ 0x2d ∷ 0x3d ∷ 0x7c
    ∷ 0x7b ∷ 0x7d ∷ 0x2e ∷ 0x21 ∷ []

unfoldable pub is_reserved : ℕ → Bool
is_reserved c = is_one_of reserved
  where
    is_one_of : List ℕ → Bool
    is_one_of [] = false
    is_one_of (d ∷ ds) = (c == d) || is_one_of ds

-- The text that a reader sees: a backslash makes the next character a plain one, a reserved one
-- without a backslash is markup, for which there is no text.
unfoldable pub read_text : Text → Option Text
read_text [] = some []
read_text (c ∷ []) = if is_reserved c then none else some (c ∷ [])
read_text (c ∷ d ∷ s) =
    let plain = cons_text d (read_text s) in
    let next = cons_text c (read_text (d ∷ s)) in
    if c == b'\\' then plain else if is_reserved c then none else next

abbrev pub IsPlain : ℕ → Type 0
IsPlain c = (c == b'\\') ≡ false

backslash_not_special : is_reserved b'\\' ≡ false
unfolding is_reserved
backslash_not_special = refl

special-IsPlain : (c : ℕ) → is_reserved c ≡ true → IsPlain c
special-IsPlain c h = elim (Bool-cases (c == b'\\')) [
  | inl e ↦
      let never : true ≡ false =
        sym h ∙ ap is_reserved ((==_iff c b'\\').0 e) ∙ backslash_not_special in
      cc
  | inr e ↦ e
]

read_escape : (c : ℕ) (s : Text) → read_text (b'\\' ∷ c ∷ s) ≡ cons_text c (read_text s)
unfolding read_text
read_escape c s = refl

read_plain :
    (c : ℕ) (s : Text)
    → is_reserved c ≡ false
    → IsPlain c
    → read_text (c ∷ s) ≡ cons_text c (read_text s)
unfolding read_text
read_plain c [] h k = rw h refl
read_plain c (d ∷ s) h k = rw (read_text, k) (rw h refl)

read_markup : (c : ℕ) (s : Text) → is_reserved c ≡ true → read_text (c ∷ s) ≡ none
unfolding read_text
read_markup c [] h = rw h refl
read_markup c (d ∷ s) h = rw (read_text, special-IsPlain c h) (rw h refl)

-- The code escapes just the reserved characters.
is_special-is_reserved : (c : ℕ) → is_special c ≡ is_reserved c
unfolding is_special is_reserved
is_special-is_reserved c = refl

-- A text without a backslash is read as it was before it was sanitized.
pub read-sanitize_markdown :
    (text : Text) → All IsPlain text → read_text (sanitize_markdown text) ≡ some text
unfolding read_text
read-sanitize_markdown [] plain = refl
read-sanitize_markdown (c ∷ s) plain =
    let again = ap (cons_text c) (read-sanitize_markdown s plain.1) in
    elim (Bool-cases (is_special c)) [
      | inl e ↦ rw e (read_escape c (sanitize_markdown s) ∙ again)
      | inr e ↦
          rw e (
            read_plain c (sanitize_markdown s) (sym (is_special-is_reserved c) ∙ e) plain.0 ∙ again)
    ]

-- A backslash is not escaped itself: in front of a special character it takes away that character's
-- own escape, and what was to be a text is markup.
pub sanitize_backslash :
    (c : ℕ) (text : Text)
    → is_special c ≡ true
    → read_text (sanitize_markdown (b'\\' ∷ c ∷ text)) ≡ none
sanitize_backslash c text h = rw (is_special-is_reserved b'\\' ∙ backslash_not_special) (
    rw h (
      read_escape b'\\' (c ∷ sanitize_markdown text)
      ∙ ap (cons_text b'\\')
          (read_markup c (sanitize_markdown text) (sym (is_special-is_reserved c) ∙ h))))
