-- ===== src/Chunker/Ids.antt =====
-- The numbers and the names that `chunk_pages` gives to the chunks of a document.
use ai_inference_gateway_pla.Base.{
  ℕ, zero, suc, ◌≤◌, ◌≡◌, ◌≢◌, refl, sym, ap, subst, ◌∙◌, inl, inr, Bool-cases, strip, List, [],
  ◌∷◌, ◌++◌, Text, codes, map, length, All, arith, decimal-injective, Option, All-append,
  drop-length-append, drop, decimal,
}
use ai_inference_gateway_pla.Chunker.Split.{split_sentences, split_paragraphs}
use ai_inference_gateway_pla.Chunker.{
  Chunk, new_chunk, chunk_id, Progress, start, is_empty, emit_some, fits, add_sentence, or_setting,
  add_sentences, add_paragraph, add_paragraphs, chunks_of, Sizes, chunk_document, PdfPage,
  all_chunks, renumber, chunk_pages,
}

-- No two of the list are equal.
abbrev pub Distinct {ℓ} : {A : Type ℓ} → List A → Type ℓ
Distinct [] = Unit
Distinct (x ∷ xs) = All (λ y. x ≢ y) xs × Distinct xs

-- `n` numbers from `i` on
abbrev pub count_from : ℕ → ℕ → List ℕ
count_from i zero = []
count_from i (suc n) = i ∷ count_from (suc i) n

chunk_id-injective :
    (document_id : Text) (i j : ℕ) → chunk_id document_id i ≡ chunk_id document_id j → i ≡ j
chunk_id-injective document_id i j same =
    let behind : codes "_chunk_" ++ decimal i ≡ codes "_chunk_" ++ decimal j =
      sym (drop-length-append document_id (codes "_chunk_" ++ decimal i))
      ∙ ap (drop (length document_id)) same
      ∙ drop-length-append document_id (codes "_chunk_" ++ decimal j) in
    decimal-injective i j (ap (drop 7) behind)

-- What `Chunk.__init__` gives to every chunk holds of all that the loops emit.
module _ (chunk_size chunk_overlap page_number : ℕ) (document_id : Text) (P : Chunk → Type 0)
    (made : (text : Text) (index : ℕ) → P (new_chunk text page_number index document_id)) where
  emit_some-All :
      (p : Progress)
      → All P p.chunks
      → All P (emit_some chunk_size chunk_overlap page_number document_id p).chunks
  emit_some-All p h = elim (Bool-cases (is_empty p.current)) [
    | inl e ↦ rw e h
    | inr e ↦ rw e (All-append P p.chunks _ h (made (strip p.current) p.index, tt))
  ]

  add_sentences-All :
      (p : Progress) (sents : List Text)
      → All P p.chunks
      → All P (add_sentences chunk_size chunk_overlap page_number document_id p sents).chunks
  unfolding add_sentences add_sentence
  add_sentences-All p [] h = h
  add_sentences-All p (sent ∷ sents) h =
      add_sentences-All (add_sentence chunk_size chunk_overlap page_number document_id p sent) sents
        (elim (Bool-cases (fits chunk_size chunk_overlap page_number document_id p.current sent)) [
          | inl e ↦ rw (add_sentence, e) h
          | inr e ↦ rw (add_sentence, e) (emit_some-All p h)
        ])

  add_paragraph-All :
      (p : Progress) (para : Text)
      → All P p.chunks
      → All P (add_paragraph chunk_size chunk_overlap page_number document_id p para).chunks
  unfolding add_paragraph
  add_paragraph-All p [] h = h
  add_paragraph-All p (c ∷ s) h =
      elim (Bool-cases (fits chunk_size chunk_overlap page_number document_id p.current (c ∷ s))) [
        | inl e ↦ rw (add_paragraph, e) h
        | inr e ↦ elim (Bool-cases (is_empty p.current)) [
          | inl f ↦ rw (add_paragraph, e, f) (add_sentences-All p (split_sentences (c ∷ s)) h)
          | inr f ↦
              rw (add_paragraph, e, f)
                (All-append P p.chunks _ h (made (strip p.current) p.index, tt))
        ]
      ]

  add_paragraphs-All :
      (p : Progress) (paras : List Text)
      → All P p.chunks
      → All P (add_paragraphs chunk_size chunk_overlap page_number document_id p paras).chunks
  unfolding add_paragraphs
  add_paragraphs-All p [] h = h
  add_paragraphs-All p (para ∷ paras) h =
      add_paragraphs-All (add_paragraph chunk_size chunk_overlap page_number document_id p para)
        paras (add_paragraph-All p para h)

  chunks_of-All :
      (text : Text) → All P (chunks_of chunk_size chunk_overlap page_number document_id text)
  unfolding chunks_of
  chunks_of-All text =
      emit_some-All
        (add_paragraphs chunk_size chunk_overlap page_number document_id start
          (split_paragraphs text))
        (add_paragraphs-All start (split_paragraphs text) tt)

module _ (settings : Sizes) (document_id : Text) (chunk_size chunk_overlap : Option ℕ) where
  abbrev Of : Chunk → Type 0
  Of chunk = chunk.document_id ≡ document_id

  all_chunks-Of :
      (pages : List PdfPage)
      → All Of (all_chunks settings document_id chunk_size chunk_overlap pages)
  unfolding chunk_document
  all_chunks-Of [] = tt
  all_chunks-Of (page ∷ pages) =
      All-append Of
        (chunk_document settings document_id chunk_size chunk_overlap page.text page.page_number)
        (all_chunks settings document_id chunk_size chunk_overlap pages)
        (chunks_of-All (or_setting chunk_size settings.chunk_size)
          (or_setting chunk_overlap settings.chunk_overlap) page.page_number document_id Of
          (λ text index. refl) page.text)
        (all_chunks-Of pages)

  abbrev renumbered : ℕ → List Chunk → List Chunk
  renumbered = renumber settings document_id chunk_size chunk_overlap

  later_ids :
      (i j : ℕ) (chunks : List Chunk)
      → suc i ≤ j
      → All Of chunks
      → All (λ y. chunk_id document_id i ≢ y) (map (λ (c : Chunk). c.id) (renumbered j chunks))
  later_ids i j [] h own = tt
  later_ids i j (chunk ∷ chunks) h own = (
    λ same.
        let number : i ≡ j =
          chunk_id-injective document_id i j (same ∙ ap (λ d. chunk_id d j) own.0) in
        absurd (omega arith),
    later_ids i (suc j) chunks (omega arith) own.1,
  )

  renumber-Distinct :
      (i : ℕ) (chunks : List Chunk)
      → All Of chunks
      → Distinct (map (λ (c : Chunk). c.id) (renumbered i chunks))
  renumber-Distinct i [] own = tt
  renumber-Distinct i (chunk ∷ chunks) own = (
    subst (λ d. All (λ y. chunk_id d i ≢ y) (map (λ (c : Chunk). c.id) (renumbered (suc i) chunks)))
        (sym own.0) (later_ids i (suc i) chunks (omega arith) own.1),
    renumber-Distinct (suc i) chunks own.1,
  )

  renumber-indices :
      (i : ℕ) (chunks : List Chunk)
      → map (λ (c : Chunk). c.chunk_index) (renumbered i chunks)
        ≡ count_from i (length (renumbered i chunks))
  renumber-indices i [] = refl
  renumber-indices i (chunk ∷ chunks) = ap (◌∷◌ i) (renumber-indices (suc i) chunks)

  -- The chunk belongs to the document and is named after it.
  abbrev pub IsNamedChunk : Chunk → Type 0
  IsNamedChunk chunk =
      (chunk.document_id ≡ document_id) × ((i : ℕ) × (chunk.id ≡ chunk_id document_id i))

  renumber-IsNamedChunk :
      (i : ℕ) (chunks : List Chunk) → All Of chunks → All IsNamedChunk (renumbered i chunks)
  renumber-IsNamedChunk i [] own = tt
  renumber-IsNamedChunk i (chunk ∷ chunks) own =
      ((own.0, (i, ap (λ d. chunk_id d i) own.0)), renumber-IsNamedChunk (suc i) chunks own.1)

  pub chunk_pages-IsNamedChunk :
      (pages : List PdfPage)
      → All IsNamedChunk (chunk_pages settings document_id chunk_size chunk_overlap pages)
  unfolding chunk_pages
  chunk_pages-IsNamedChunk pages =
      renumber-IsNamedChunk 0 (all_chunks settings document_id chunk_size chunk_overlap pages)
        (all_chunks-Of pages)

  -- The chunks of all pages of a document have different names, and they are numbered from 0 on
  -- without a gap.
  pub chunk_pages-Distinct :
      (pages : List PdfPage)
      → Distinct (
          map
            (λ (c : Chunk). c.id)
            (chunk_pages settings document_id chunk_size chunk_overlap pages))
        × (map
              (λ (c : Chunk). c.chunk_index)
              (chunk_pages settings document_id chunk_size chunk_overlap pages)
            ≡ count_from 0
                (length (chunk_pages settings document_id chunk_size chunk_overlap pages)))
  unfolding chunk_pages
  chunk_pages-Distinct pages = (
    renumber-Distinct 0 (all_chunks settings document_id chunk_size chunk_overlap pages)
        (all_chunks-Of pages),
    renumber-indices 0 (all_chunks settings document_id chunk_size chunk_overlap pages),
  )
