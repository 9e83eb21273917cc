-- ===== src/Chunker/Bounds.antt =====
-- How long the chunks of `chunk_document` are.
use ai_inference_gateway_pla.Base.{
  ℕ, ◌+◌, ◌≤◌, inl, inr, List, [], ◌∷◌, ◌++◌, Text, codes, length, length-append, All, arith,
  Bool-cases, max, length-strip, All-append, Option,
}
use ai_inference_gateway_pla.Chunker.Split.{split_sentences, split_paragraphs}
use ai_inference_gateway_pla.Chunker.Pieces.{IsPiece, split_sentences-IsPiece}
use ai_inference_gateway_pla.Chunker.Overlap.{compute_overlap-Suffix}
use ai_inference_gateway_pla.Chunker.{
  Chunk, Progress, start, is_empty, compute_overlap, emit, emit_some, fits, joined, add_sentence,
  add_sentences, restart, add_paragraph, add_paragraphs, chunks_of, Sizes, or_setting,
  chunk_document,
}

-- The text is at most `n` characters long.
abbrev pub Within : ℕ → Text → Type 0
Within n s = length s ≤ n

length-joined :
    (separator current added : Text)
    → length (joined separator current added) ≤ length current + length separator + length added
length-joined separator [] added = omega arith
length-joined separator (c ∷ s) added =
    omega (arith, length-append (c ∷ s) (separator ++ added), length-append separator added)

module _ (chunk_size chunk_overlap page_number : ℕ) (document_id : Text) (longest bound : ℕ)
    (size_fits : chunk_size + 1 ≤ bound) (restart_fits : chunk_overlap + 2 + longest ≤ bound) where
  abbrev IsShort : Progress → Type 0
  IsShort p = Within bound p.current × All (λ (c : Chunk). Within bound c.text) p.chunks

  emit-IsShort :
      (p : Progress) → IsShort p → IsShort (emit chunk_size chunk_overlap page_number document_id p)
  emit-IsShort p h = (
    h.0,
    All-append (λ (c : Chunk). Within bound c.text) p.chunks _ h.1
        (omega (arith, length-strip p.current, h.0), tt),
  )

  emit_some-IsShort :
      (p : Progress)
      → IsShort p
      → IsShort (emit_some chunk_size chunk_overlap page_number document_id p)
  emit_some-IsShort p h = elim (Bool-cases (is_empty p.current)) [
    | inl e ↦ rw e h
    | inr e ↦ rw e (emit-IsShort p h)
  ]

  add_sentence-IsShort :
      (p : Progress) (sent : Text)
      → Within longest sent
      → IsShort p
      → IsShort (add_sentence chunk_size chunk_overlap page_number document_id p sent)
  unfolding add_sentence
  add_sentence-IsShort p sent w h =
      elim (Bool-cases (fits chunk_size chunk_overlap page_number document_id p.current sent)) [
        | inl e ↦
            let joins = length-joined (codes " ") p.current sent in
            rw (add_sentence, e) (ground arith, h.1)
        | inr e ↦ rw (add_sentence, e) (omega arith, (emit_some-IsShort p h).1)
      ]

  add_sentences-IsShort :
      (p : Progress) (sents : List Text)
      → All (Within longest) sents
      → IsShort p
      → IsShort (add_sentences chunk_size chunk_overlap page_number document_id p sents)
  unfolding add_sentences
  add_sentences-IsShort p [] w h = h
  add_sentences-IsShort p (sent ∷ sents) w h =
      add_sentences-IsShort (add_sentence chunk_size chunk_overlap page_number document_id p sent)
        sents w.1 (add_sentence-IsShort p sent w.0 h)

  sentences-Within :
      (n : ℕ) (sents : List Text) → n ≤ longest → All (IsPiece n) sents → All (Within longest) sents
  sentences-Within n [] w pieces = tt
  sentences-Within n (sent ∷ sents) w pieces =
      let short = pieces.0.2 in (omega arith, sentences-Within n sents w pieces.1)

  restart-IsShort :
      (p : Progress) (para : Text)
      → Within longest para
      → IsShort p
      → IsShort (restart chunk_size chunk_overlap page_number document_id p para)
  restart-IsShort p para w h =
      let overlap = compute_overlap p.current chunk_overlap in
      let joins = length-joined (codes "\n\n") overlap para in
      let short = (compute_overlap-Suffix p.current chunk_overlap).short in
      (omega arith, (emit-IsShort p h).1)

  add_paragraph-IsShort :
      (p : Progress) (para : Text)
      → Within longest para
      → IsShort p
      → IsShort (add_paragraph chunk_size chunk_overlap page_number document_id p para)
  unfolding add_paragraph
  add_paragraph-IsShort p [] w h = h
  add_paragraph-IsShort p (c ∷ s) w h =
      elim (Bool-cases (fits chunk_size chunk_overlap page_number document_id p.current (c ∷ s))) [
        | inl e ↦
            let joins = length-joined (codes "\n\n") p.current (c ∷ s) in
            rw (add_paragraph, e) (ground arith, h.1)
        | inr e ↦ elim (Bool-cases (is_empty p.current)) [
          | inl f ↦
              rw (add_paragraph, e, f)
                (add_sentences-IsShort p (split_sentences (c ∷ s))
                  (sentences-Within (length (c ∷ s)) (split_sentences (c ∷ s)) w
                    (split_sentences-IsPiece (c ∷ s)))
                  h)
          | inr f ↦ rw (add_paragraph, e, f) (restart-IsShort p (c ∷ s) w h)
        ]
      ]

  add_paragraphs-IsShort :
      (p : Progress) (paras : List Text)
      → All (Within longest) paras
      → IsShort p
      → IsShort (add_paragraphs chunk_size chunk_overlap page_number document_id p paras)
  unfolding add_paragraphs
  add_paragraphs-IsShort p [] w h = h
  add_paragraphs-IsShort p (para ∷ paras) w h =
      add_paragraphs-IsShort (add_paragraph chunk_size chunk_overlap page_number document_id p para)
        paras w.1 (add_paragraph-IsShort p para w.0 h)

-- A chunk has at most one character more than the chunk size, or at most as many as the overlap, two
-- line feeds and the longest paragraph have together.
pub chunk_document-Within :
    (settings : Sizes) (document_id : Text) (chunk_size chunk_overlap : Option ℕ) (text : Text)
    (page_number longest : ℕ)
    → All (Within longest) (split_paragraphs text)
    → All
        (λ (c : Chunk).
          Within
            (max
              (or_setting chunk_size settings.chunk_size + 1)
              (or_setting chunk_overlap settings.chunk_overlap + 2 + longest))
            c.text)
        (chunk_document settings document_id chunk_size chunk_overlap text page_number)
unfolding chunk_document chunks_of
chunk_document-Within settings document_id chunk_size chunk_overlap text page_number longest w =
    let size = or_setting chunk_size settings.chunk_size in
    let overlap = or_setting chunk_overlap settings.chunk_overlap in
    let bound = max (size + 1) (overlap + 2 + longest) in
    let size_fits : size + 1 ≤ bound = omega arith in
    let restart_fits : overlap + 2 + longest ≤ bound = omega arith in
    (emit_some-IsShort size overlap page_number document_id longest bound size_fits restart_fits
      (add_paragraphs size overlap page_number document_id start (split_paragraphs text))
      (add_paragraphs-IsShort size overlap page_number document_id longest bound size_fits
        restart_fits start (split_paragraphs text) w (omega arith, tt))).1
