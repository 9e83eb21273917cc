-- ===== src/Chunker/Pieces.antt =====
-- The pieces of the two splits are trimmed, not empty, and no longer than the text.
use ai_inference_gateway_pla.Base.{
  ℕ, zero, suc, ◌≤◌, inl, inr, ◌&&◌, List, [], ◌∷◌, map, Text, length, All, keep, strip, is_space,
  arith, Bool-cases, ltb, ◌==◌, IsTrim, IsFull, strip-IsTrim, length-strip,
}
use ai_inference_gateway_pla.Chunker.Split.{
  Place, inside, behind_stop, in_match, place_after, cons_part, is_some_text, stripped,
  sentence_parts, split_sentences, break_length, paragraph_parts, split_paragraphs,
}

-- What a loop over the pieces may assume of each.
abbrev pub IsPiece : ℕ → Text → Type 0
IsPiece n piece = IsFull piece × IsTrim piece × (length piece ≤ n)

abbrev Fits : ℕ → Text → Type 0
Fits n part = length part ≤ n

Fits-weaken : (n m : ℕ) (parts : List Text) → n ≤ m → All (Fits n) parts → All (Fits m) parts
Fits-weaken n m [] h fit = tt
Fits-weaken n m (part ∷ parts) h fit = (omega arith, Fits-weaken n m parts h fit.1)

cons_part-Fits :
    (c n : ℕ) (parts : List Text) → All (Fits n) parts → All (Fits (suc n)) (cons_part c parts)
cons_part-Fits c n [] fit = (omega arith, tt)
cons_part-Fits c n (part ∷ parts) fit =
    (omega arith, Fits-weaken n (suc n) parts (omega arith) fit.1)

sentence_parts-Fits : (p : Place) (s : Text) → All (Fits (length s)) (sentence_parts p s)
unfolding sentence_parts
sentence_parts-Fits inside [] = (omega arith, tt)
sentence_parts-Fits behind_stop [] = (omega arith, tt)
sentence_parts-Fits in_match [] = (omega arith, tt)
sentence_parts-Fits inside (c ∷ s) =
    cons_part-Fits c (length s) (sentence_parts (place_after c) s)
      (sentence_parts-Fits (place_after c) s)
sentence_parts-Fits behind_stop (c ∷ s) = elim (Bool-cases (is_space c)) [
  | inl e ↦
      rw (sentence_parts, e)
        (
          omega arith,
          Fits-weaken (length s) (suc (length s)) (sentence_parts in_match s) (omega arith)
              (sentence_parts-Fits in_match s),
        )
  | inr e ↦
      rw (sentence_parts, e)
        (cons_part-Fits c (length s) (sentence_parts (place_after c) s)
          (sentence_parts-Fits (place_after c) s))
]
sentence_parts-Fits in_match (c ∷ s) = elim (Bool-cases (is_space c)) [
  | inl e ↦
      rw (sentence_parts, e)
        (Fits-weaken (length s) (suc (length s)) (sentence_parts in_match s) (omega arith)
          (sentence_parts-Fits in_match s))
  | inr e ↦
      rw (sentence_parts, e)
        (cons_part-Fits c (length s) (sentence_parts (place_after c) s)
          (sentence_parts-Fits (place_after c) s))
]

add_kept-IsPiece :
    (n : ℕ) (piece : Text) (rest : List Text)
    → IsTrim piece
    → Fits n piece
    → All (IsPiece n) (keep is_some_text rest)
    → All (IsPiece n) (keep is_some_text (piece ∷ rest))
add_kept-IsPiece n [] rest trim fit pieces = pieces
add_kept-IsPiece n (c ∷ piece) rest trim fit pieces = ((tt, trim, fit), pieces)

stripped-IsPiece :
    (n : ℕ) (parts : List Text) → All (Fits n) parts → All (IsPiece n) (stripped parts)
stripped-IsPiece n [] fit = tt
stripped-IsPiece n (part ∷ parts) fit =
    add_kept-IsPiece n (strip part) (map strip parts) (strip-IsTrim part)
      (omega (arith, length-strip part, fit.0)) (stripped-IsPiece n parts fit.1)

pub split_sentences-IsPiece : (text : Text) → All (IsPiece (length text)) (split_sentences text)
unfolding split_sentences
split_sentences-IsPiece text =
    stripped-IsPiece (length text) (sentence_parts inside text) (sentence_parts-Fits inside text)

paragraph_parts-Fits : (n : ℕ) (s : Text) → All (Fits (length s)) (paragraph_parts n s)
unfolding paragraph_parts
paragraph_parts-Fits zero [] = (omega arith, tt)
paragraph_parts-Fits (suc n) [] = (omega arith, tt)
paragraph_parts-Fits (suc n) (c ∷ s) =
    Fits-weaken (length s) (suc (length s)) (paragraph_parts n s) (omega arith)
      (paragraph_parts-Fits n s)
paragraph_parts-Fits zero (c ∷ s) = elim (Bool-cases ((c == 10) && ltb 0 (break_length s))) [
  | inl e ↦
      rw (paragraph_parts, e)
        (
          omega arith,
          Fits-weaken (length s) (suc (length s)) (paragraph_parts (break_length s) s) (omega arith)
              (paragraph_parts-Fits (break_length s) s),
        )
  | inr e ↦
      rw (paragraph_parts, e)
        (cons_part-Fits c (length s) (paragraph_parts 0 s) (paragraph_parts-Fits 0 s))
]

pub split_paragraphs-IsPiece : (text : Text) → All (IsPiece (length text)) (split_paragraphs text)
unfolding split_paragraphs
split_paragraphs-IsPiece text =
    stripped-IsPiece (length text) (paragraph_parts 0 text) (paragraph_parts-Fits 0 text)
