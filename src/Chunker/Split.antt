-- ===== src/Chunker/Split.antt =====
-- `_split_sentences` and `_split_paragraphs`: `re.split` on the two patterns, each piece stripped,
-- the empty ones dropped.
use ai_inference_gateway_pla.Base.{
  ℕ, zero, suc, Bool, true, false, ◌&&◌, ◌||◌, List, [], ◌∷◌, map, Text, keep, strip, is_space, ltb,
  ◌==◌, if◌then◌else◌,
}

abbrev pub is_some_text : Text → Bool
is_some_text [] = false
is_some_text (c ∷ s) = true

-- `[p.strip() for p in parts if p.strip()]`
abbrev pub stripped : List Text → List Text
stripped parts = keep is_some_text (map strip parts)

abbrev pub cons_part : ℕ → List Text → List Text
cons_part c [] = (c ∷ []) ∷ []
cons_part c (part ∷ parts) = (c ∷ part) ∷ parts

-- Where a scan for `(?<=[.!?])\s+` stands: behind a stop, inside a match, or elsewhere.
pub data Place : Type 0 where
  inside : Place
  behind_stop : Place
  in_match : Place

abbrev pub place_after : ℕ → Place
place_after c = if (c == b'.') || ((c == b'!') || (c == b'?')) then behind_stop else inside

unfoldable pub sentence_parts : Place → Text → List Text
sentence_parts place [] = [] ∷ []
sentence_parts inside (c ∷ s) = cons_part c (sentence_parts (place_after c) s)
sentence_parts behind_stop (c ∷ s) =
    let more = cons_part c (sentence_parts (place_after c) s) in
    let cut = [] ∷ sentence_parts in_match s in if is_space c then cut else more
sentence_parts in_match (c ∷ s) =
    let more = cons_part c (sentence_parts (place_after c) s) in
    let skip = sentence_parts in_match s in if is_space c then skip else more

unfoldable pub split_sentences : Text → List Text
unfolding sentence_parts
split_sentences text = stripped (sentence_parts inside text)

-- `\s*\n` behind a line feed: how many characters it takes, 0 if it does not match. White space is
-- taken greedily, and given back to the last line feed.
abbrev pub break_step : ℕ → ℕ → ℕ
break_step zero c = if c == 10 then 1 else 0
break_step (suc later) c = suc (suc later)

unfoldable pub break_length : Text → ℕ
break_length [] = 0
break_length (c ∷ s) = let later = break_length s in if is_space c then break_step later c else 0

-- The scan for `\n\s*\n`; the first argument counts the characters of a match that are left.
unfoldable pub paragraph_parts : ℕ → Text → List Text
paragraph_parts n [] = [] ∷ []
paragraph_parts (suc n) (c ∷ s) = paragraph_parts n s
paragraph_parts zero (c ∷ s) =
    let cut = [] ∷ paragraph_parts (break_length s) s in
    let more = cons_part c (paragraph_parts 0 s) in
    if (c == 10) && ltb 0 (break_length s) then cut else more

unfoldable pub split_paragraphs : Text → List Text
unfolding paragraph_parts break_length
split_paragraphs text = stripped (paragraph_parts 0 text)
