-- ===== src/Chunker/Kept/Loops.antt =====
-- The loops of `chunk_document` lose nothing: each paragraph, or each of its sentences, stands in a
-- chunk.
use ai_inference_gateway_pla.Base.{
  ℕ, ◌≤◌, ◌≡◌, refl, inl, inr, ◌⊎◌, true, false, List, [], ◌∷◌, Text, codes, length, All, arith,
  Bool-cases, IsTrim, nil-IsTrim, Option, solid, join,
}
use ai_inference_gateway_pla.Chunker.Split.{split_sentences, split_paragraphs}
use ai_inference_gateway_pla.Chunker.Pieces.{
  IsPiece, split_sentences-IsPiece, split_paragraphs-IsPiece,
}
use ai_inference_gateway_pla.Chunker.Lossless.{split_solid}
use ai_inference_gateway_pla.Chunker.{
  Chunk, Progress, start, is_empty, emit_some, fits, add_sentence, add_sentences, add_paragraph,
  add_paragraphs, chunks_of, Sizes, or_setting, chunk_document,
}
use ai_inference_gateway_pla.Chunker.Kept.{
  InChunk, Held, Infix-joined_right, joined-IsFull, joined-IsTrim, Held-joined, add_sentence-Keeps,
  restart-Keeps, Held-emit_some,
}

-- A paragraph stands in a chunk, or it is as long as a chunk and each of its sentences does, which
-- have all of its characters but white space.
abbrev pub Stands : ℕ → Text → List Chunk → Type 0
Stands chunk_size para chunks =
    InChunk para chunks
    ⊎ ((chunk_size ≤ length para)
        × (solid (join (split_sentences para)) ≡ solid para)
        × All (λ s. InChunk s chunks) (split_sentences para))

module _ (chunk_size chunk_overlap page_number : ℕ) (document_id : Text) where
  -- What a loop owes.
  record Carries (p q : Progress) : Type 0 where
    trim : IsTrim q.current
    old : (x : Text) → Held x p → Held x q

  AllHeld :
      (p q : Progress) (xs : List Text)
      → ((x : Text) → Held x p → Held x q)
      → All (λ x. Held x p) xs
      → All (λ x. Held x q) xs
  AllHeld p q [] old h = tt
  AllHeld p q (x ∷ xs) old h = (old x h.0, AllHeld p q xs old h.1)

  add_sentences-Carries :
      (n : ℕ) (p : Progress) (sents : List Text)
      → All (IsPiece n) sents
      → IsTrim p.current
      → Carries p (add_sentences chunk_size chunk_overlap page_number document_id p sents)
        × All
            (λ s. Held s (add_sentences chunk_size chunk_overlap page_number document_id p sents))
            sents
  unfolding add_sentences
  add_sentences-Carries n p [] pieces trim = (record { trim = trim; old = λ x h. h }, tt)
  add_sentences-Carries n p (sent ∷ sents) pieces trim =
      let q = add_sentence chunk_size chunk_overlap page_number document_id p sent in
      let first_step =
        add_sentence-Keeps chunk_size chunk_overlap page_number document_id p sent pieces.0.0
          pieces.0.1 trim in
      let (rest, held) = add_sentences-Carries n q sents pieces.1 first_step.trim in
      (
        record { trim = rest.trim; old = λ x h. rest.old x (first_step.old x h) },
        (rest.old sent first_step.new, held),
      )

  -- A paragraph is held as one, or it is longer than a chunk and each of its sentences is held.
  abbrev Saved : Text → Progress → Type 0
  Saved para p =
      Held para p ⊎ ((chunk_size ≤ length para) × All (λ s. Held s p) (split_sentences para))

  Saved-old :
      (para : Text) (p q : Progress)
      → ((x : Text) → Held x p → Held x q)
      → Saved para p
      → Saved para q
  Saved-old para p q old (inl h) = inl (old para h)
  Saved-old para p q old (inr h) = inr (h.0, AllHeld p q (split_sentences para) old h.1)

  too_long :
      (current para : Text)
      → is_empty current ≡ true
      → fits chunk_size chunk_overlap page_number document_id current para ≡ false
      → chunk_size ≤ length para
  too_long [] para f e = ground arith
  too_long (c ∷ s) para f e = cc

  add_paragraph-Carries :
      (n : ℕ) (p : Progress) (para : Text)
      → IsPiece n para
      → IsTrim p.current
      → Carries p (add_paragraph chunk_size chunk_overlap page_number document_id p para)
        × Saved para (add_paragraph chunk_size chunk_overlap page_number document_id p para)
  unfolding add_paragraph
  add_paragraph-Carries n p [] piece trim = absurd piece.0
  add_paragraph-Carries n p (c ∷ s) piece trim =
      elim (Bool-cases (fits chunk_size chunk_overlap page_number document_id p.current (c ∷ s))) [
        | inl e ↦
            rw (add_paragraph, e)
              (
                record {
                  trim = joined-IsTrim (codes "\n\n") p.current (c ∷ s) tt trim piece.1;
                  old = λ x.
                      Held-joined chunk_size chunk_overlap page_number document_id x (codes "\n\n")
                        (c ∷ s) p tt;
                },
                inl (
                    inr (
                      joined-IsFull (codes "\n\n") p.current (c ∷ s) tt,
                      Infix-joined_right (codes "\n\n") p.current (c ∷ s),
                    )),
              )
        | inr e ↦ elim (Bool-cases (is_empty p.current)) [
          | inl f ↦
              let (rest, held) =
                add_sentences-Carries (length (c ∷ s)) p (split_sentences (c ∷ s))
                  (split_sentences-IsPiece (c ∷ s)) trim in
              rw (add_paragraph, e, f) (rest, inr (too_long p.current (c ∷ s) f e, held))
          | inr f ↦
              let k =
                restart-Keeps chunk_size chunk_overlap page_number document_id p (c ∷ s) tt piece.1
                  trim in
              rw (add_paragraph, e, f) (record { trim = k.trim; old = k.old }, inl k.new)
        ]
      ]

  add_paragraphs-Carries :
      (n : ℕ) (p : Progress) (paras : List Text)
      → All (IsPiece n) paras
      → IsTrim p.current
      → Carries p (add_paragraphs chunk_size chunk_overlap page_number document_id p paras)
        × All
            (λ para.
              Saved para (add_paragraphs chunk_size chunk_overlap page_number document_id p paras))
            paras
  unfolding add_paragraphs
  add_paragraphs-Carries n p [] pieces trim = (record { trim = trim; old = λ x h. h }, tt)
  add_paragraphs-Carries n p (para ∷ paras) pieces trim =
      let q = add_paragraph chunk_size chunk_overlap page_number document_id p para in
      let (step, saved) = add_paragraph-Carries n p para pieces.0 trim in
      let (rest, all_saved) = add_paragraphs-Carries n q paras pieces.1 step.trim in
      let end = add_paragraphs chunk_size chunk_overlap page_number document_id q paras in
      (
        record { trim = rest.trim; old = λ x h. rest.old x (step.old x h) },
        (Saved-old para q end rest.old saved, all_saved),
      )

  module _ (p : Progress) (trim : IsTrim p.current) where
    sentences-InChunk :
        (xs : List Text)
        → All (λ x. Held x p) xs
        → All
            (λ x. InChunk x (emit_some chunk_size chunk_overlap page_number document_id p).chunks)
            xs
    sentences-InChunk [] h = tt
    sentences-InChunk (x ∷ xs) h = (
      Held-emit_some chunk_size chunk_overlap page_number document_id x p.current p refl trim h.0,
      sentences-InChunk xs h.1,
    )

    paragraphs-Stand :
        (paras : List Text)
        → All (λ para. Saved para p) paras
        → All
            (λ para.
              Stands chunk_size para
                (emit_some chunk_size chunk_overlap page_number document_id p).chunks)
            paras
    paragraphs-Stand [] h = tt
    paragraphs-Stand (para ∷ paras) h = (
      elim h.0 [
        | inl held ↦ inl (
            Held-emit_some chunk_size chunk_overlap page_number document_id para p.current p refl
              trim held)
        | inr (long, held) ↦
            inr (long, (split_solid para).0, sentences-InChunk (split_sentences para) held)
      ],
      paragraphs-Stand paras h.1,
    )

  chunks_of-Stand :
      (text : Text)
      → All
          (λ para.
            Stands chunk_size para
              (chunks_of chunk_size chunk_overlap page_number document_id text))
          (split_paragraphs text)
  unfolding chunks_of
  chunks_of-Stand text =
      let (end, saved) =
        add_paragraphs-Carries (length text) start (split_paragraphs text)
          (split_paragraphs-IsPiece text) nil-IsTrim in
      paragraphs-Stand
        (add_paragraphs chunk_size chunk_overlap page_number document_id start
          (split_paragraphs text))
        end.trim (split_paragraphs text) saved

-- The paragraphs of a text have all of its characters but white space, in their order. Each of them
-- stands whole in one of the chunks, or has at least as many characters as the chunk size, and each
-- of its sentences, which have all of its characters but white space, stands whole in a chunk.
pub chunk_document-Stand :
    (settings : Sizes) (document_id : Text) (chunk_size chunk_overlap : Option ℕ) (text : Text)
    (page_number : ℕ)
    → (solid (join (split_paragraphs text)) ≡ solid text)
      × All
          (λ para.
            Stands
              (or_setting chunk_size settings.chunk_size)
              para
              (chunk_document settings document_id chunk_size chunk_overlap text page_number))
          (split_paragraphs text)
unfolding chunk_document
chunk_document-Stand settings document_id chunk_size chunk_overlap text page_number = (
  (split_solid text).1,
  chunks_of-Stand (or_setting chunk_size settings.chunk_size)
      (or_setting chunk_overlap settings.chunk_overlap) page_number document_id text,
)
