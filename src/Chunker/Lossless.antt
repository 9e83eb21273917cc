-- ===== src/Chunker/Lossless.antt =====
-- What the two splits keep of a text: every character that is no white space, in its order.
use ai_inference_gateway_pla.Base.{
  ℕ, zero, suc, ◌≡◌, refl, sym, ap, ◌∙◌, inl, inr, Bool, true, ◌&&◌, List, [], ◌∷◌, ◌++◌, map, Text,
  drop, join, keep, strip, is_space, arith, Bool-cases, ltb, ◌==◌, IsSpace, solid, solid_space,
  solid_nil, solid_kept, solid-append, solid-strip,
}
use ai_inference_gateway_pla.Chunker.Split.{
  Place, inside, behind_stop, in_match, place_after, cons_part, is_some_text, stripped,
  sentence_parts, split_sentences, break_step, break_length, paragraph_parts, split_paragraphs,
}

join-cons_part : (c : ℕ) (parts : List Text) → join (cons_part c parts) ≡ c ∷ join parts
join-cons_part c [] = refl
join-cons_part c (part ∷ parts) = refl

solid-cons : (c : ℕ) (s t : Text) → solid s ≡ solid t → solid (c ∷ s) ≡ solid (c ∷ t)
solid-cons c s t h = elim (Bool-cases (is_space c)) [
  | inl e ↦ solid_space c s e ∙ h ∙ sym (solid_space c t e)
  | inr e ↦ solid_kept c s e ∙ ap (◌∷◌ c) h ∙ sym (solid_kept c t e)
]

solid-cons_part :
    (c : ℕ) (parts : List Text) (s : Text)
    → solid (join parts) ≡ solid s
    → solid (join (cons_part c parts)) ≡ solid (c ∷ s)
solid-cons_part c parts s h = ap solid (join-cons_part c parts) ∙ solid-cons c (join parts) s h

solid-sentence_parts : (p : Place) (s : Text) → solid (join (sentence_parts p s)) ≡ solid s
unfolding sentence_parts
solid-sentence_parts inside [] = refl
solid-sentence_parts behind_stop [] = refl
solid-sentence_parts in_match [] = refl
solid-sentence_parts inside (c ∷ s) =
    solid-cons_part c (sentence_parts (place_after c) s) s (solid-sentence_parts (place_after c) s)
solid-sentence_parts behind_stop (c ∷ s) = elim (Bool-cases (is_space c)) [
  | inl e ↦ rw (sentence_parts, e) (solid-sentence_parts in_match s ∙ sym (solid_space c s e))
  | inr e ↦
      rw (sentence_parts, e)
        (solid-cons_part c (sentence_parts (place_after c) s) s
          (solid-sentence_parts (place_after c) s))
]
solid-sentence_parts in_match (c ∷ s) = elim (Bool-cases (is_space c)) [
  | inl e ↦ rw (sentence_parts, e) (solid-sentence_parts in_match s ∙ sym (solid_space c s e))
  | inr e ↦
      rw (sentence_parts, e)
        (solid-cons_part c (sentence_parts (place_after c) s) s
          (solid-sentence_parts (place_after c) s))
]

solid-break_step :
    (n c : ℕ) (s : Text)
    → IsSpace c
    → solid (drop n s) ≡ solid s
    → solid (drop (break_step n c) (c ∷ s)) ≡ solid (c ∷ s)
solid-break_step zero c s e h = elim (Bool-cases (c == 10)) [
  | inl feed ↦ rw feed (sym (solid_space c s e))
  | inr other ↦ rw other refl
]
solid-break_step (suc n) c s e h = h ∙ sym (solid_space c s e)

-- A match is white space.
solid-break_length : (s : Text) → solid (drop (break_length s) s) ≡ solid s
unfolding break_length
solid-break_length [] = refl
solid-break_length (c ∷ s) = elim (Bool-cases (is_space c)) [
  | inl e ↦ rw (break_length, e) (solid-break_step (break_length s) c s e (solid-break_length s))
  | inr e ↦ rw (break_length, e) refl
]

solid-feed : (b : Bool) (c : ℕ) → ((c == 10) && b) ≡ true → IsSpace c
unfolding is_space
solid-feed b c h = ground arith

solid-paragraph_parts : (n : ℕ) (s : Text) → solid (join (paragraph_parts n s)) ≡ solid (drop n s)
unfolding paragraph_parts
solid-paragraph_parts zero [] = refl
solid-paragraph_parts (suc n) [] = refl
solid-paragraph_parts (suc n) (c ∷ s) = solid-paragraph_parts n s
solid-paragraph_parts zero (c ∷ s) = elim (Bool-cases ((c == 10) && ltb 0 (break_length s))) [
  | inl e ↦
      rw (paragraph_parts, e)
        (solid-paragraph_parts (break_length s) s
          ∙ solid-break_length s
          ∙ sym (solid_space c s (solid-feed (ltb 0 (break_length s)) c e)))
  | inr e ↦
      rw (paragraph_parts, e)
        (solid-cons_part c (paragraph_parts 0 s) s (solid-paragraph_parts 0 s))
]

solid-kept_piece :
    (piece part : Text) (rest parts : List Text)
    → solid piece ≡ solid part
    → solid (join (keep is_some_text rest)) ≡ solid (join parts)
    → solid (join (keep is_some_text (piece ∷ rest))) ≡ solid (part ++ join parts)
solid-kept_piece [] part rest parts e h =
    h ∙ ap (λ u. u ++ solid (join parts)) (sym solid_nil ∙ e) ∙ sym (solid-append part (join parts))
solid-kept_piece (c ∷ t) part rest parts e h =
    solid-append (c ∷ t) (join (keep is_some_text rest))
    ∙ ap (λ u. u ++ solid (join (keep is_some_text rest))) e
    ∙ ap (λ u. solid part ++ u) h
    ∙ sym (solid-append part (join parts))

solid-stripped : (parts : List Text) → solid (join (stripped parts)) ≡ solid (join parts)
solid-stripped [] = refl
solid-stripped (part ∷ parts) =
    solid-kept_piece (strip part) part (map strip parts) parts (solid-strip part)
      (solid-stripped parts)

-- Splitting into sentences, and splitting into paragraphs, loses only white space: the pieces, one
-- after the other, have the characters of the text that are no white space, in the same order.
pub split_solid :
    (text : Text)
    → (solid (join (split_sentences text)) ≡ solid text)
      × (solid (join (split_paragraphs text)) ≡ solid text)
unfolding split_sentences split_paragraphs
split_solid text = (
  solid-stripped (sentence_parts inside text) ∙ solid-sentence_parts inside text,
  solid-stripped (paragraph_parts 0 text) ∙ solid-paragraph_parts 0 text,
)
