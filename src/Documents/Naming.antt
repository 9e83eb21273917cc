-- ===== src/Documents/Naming.antt =====
-- The names of the rows of a collection, and what they make of a run: it replaces the chunks of its
-- document exactly.
use mathlib.Core.Option.{some-injective}
use ai_inference_gateway_pla.Base.{
  ℕ, ◌≡◌, ◌≢◌, refl, sym, ap, ◌∙◌, inl, inr, ◌⊎◌, Bool-cases, Option, none, some, List, [], ◌∷◌,
  ◌++◌, Text, codes, decimal, All, In, map, take, take-length-append, length, text_eq, text_eq_refl,
  text_eq→eq,
}
use ai_inference_gateway_pla.Chunker.{Chunk, PdfPage, Sizes, chunk_id}
use ai_inference_gateway_pla.Chunker.Ids.{Distinct, IsNamedChunk, chunk_pages-IsNamedChunk}
use ai_inference_gateway_pla.VectorStore.{
  Collection, IsLawful, Row, row_ids, named, or_else, owns, without, store_chunks,
  delete_document_chunks,
}
use ai_inference_gateway_pla.VectorStore.Stored.{
  rows_of, store_chunks-IsStored, delete_document_chunks-partial,
}
use ai_inference_gateway_pla.Documents.{Document, World, Env, sync_process, chunks_of_pages}
use ai_inference_gateway_pla.Documents.Outcome.{sync_process_keeps}

-- A row stands under a name made of its document's id, which has the 36 characters of a UUID.
abbrev pub IsNamedRow : {E : Type 0} → Text → Row E → Type 0
IsNamedRow key row =
    ((i : ℕ) × (key ≡ chunk_id row.metadata.document_id i)) × (length row.metadata.document_id ≡ 36)

abbrev pub IsNamed : (C : Collection) → C.State → Type 0
IsNamed C s = (key : Text) (row : Row C.Embedding) → C.get s key ≡ some row → IsNamedRow key row

pub chunk_id-document :
    (d e : Text) (i j : ℕ) → length d ≡ length e → chunk_id d i ≡ chunk_id e j → d ≡ e
chunk_id-document d e i j same h =
    sym (take-length-append d (codes "_chunk_" ++ decimal i))
    ∙ ap (λ n. take n (chunk_id d i)) same
    ∙ ap (take (length e)) h
    ∙ take-length-append e (codes "_chunk_" ++ decimal j)

module _ {E : Type 0} where
  pub named-In :
      (key : Text) (rows : List (Row E)) {row : Row E}
      → named key rows ≡ some row
      → In row rows × (row.id ≡ key)
  named-In key [] h = cc
  named-In key (r ∷ rows) {row} h = elim (Bool-cases (text_eq r.id key)) [
    | inl e ↦
        let same : r ≡ row = some-injective r row (rw e at h) in
        (inl (sym same), ap (λ (x : Row E). x.id) (sym same) ∙ text_eq→eq r.id key e)
    | inr e ↦ let (i, n) = named-In key rows {row = row} (rw e at h) in (inr i, n)
  ]

  All-row_ids :
      (P : Text → Type 0) (rows : List (Row E)) (row : Row E)
      → All P (row_ids rows)
      → In row rows
      → P row.id
  All-row_ids P [] row all i = absurd i
  All-row_ids P (r ∷ rows) row all (inl e) = rw e all.0
  All-row_ids P (r ∷ rows) row all (inr i) = All-row_ids P rows row all.1 i

  pub named-Distinct :
      (rows : List (Row E)) (row : Row E)
      → Distinct (row_ids rows)
      → In row rows
      → named row.id rows ≡ some row
  named-Distinct [] row d i = absurd i
  named-Distinct (r ∷ rows) row d (inl e) = rw (← e) (rw (text_eq_refl row.id) refl)
  named-Distinct (r ∷ rows) row d (inr i) = elim (Bool-cases (text_eq r.id row.id)) [
    | inl e ↦ absurd (All-row_ids (λ y. r.id ≢ y) rows row d.0 i (text_eq→eq r.id row.id e))
    | inr e ↦ rw e (named-Distinct rows row d.1 i)
  ]

module _ (C : Collection) where
  ids-All :
      (P : Text → Type 0) (cs : List Chunk) (es : List C.Embedding)
      → All P (map (λ (c : Chunk). c.id) cs)
      → All P (row_ids (rows_of C cs es))
  ids-All P [] es h = tt
  ids-All P (c ∷ cs) [] h = tt
  ids-All P (c ∷ cs) (e ∷ es) h = (h.0, ids-All P cs es h.1)

  pub rows_of-Distinct :
      (cs : List Chunk) (es : List C.Embedding)
      → Distinct (map (λ (c : Chunk). c.id) cs)
      → Distinct (row_ids (rows_of C cs es))
  rows_of-Distinct [] es h = tt
  rows_of-Distinct (c ∷ cs) [] h = tt
  rows_of-Distinct (c ∷ cs) (e ∷ es) h =
      (ids-All (λ y. c.id ≢ y) cs es h.0, rows_of-Distinct cs es h.1)

  -- The rows of one document's chunks.
  abbrev pub Belongs : Text → Row C.Embedding → Type 0
  Belongs id row = (row.metadata.document_id ≡ id) × ((i : ℕ) × (row.id ≡ chunk_id id i))

  rows_of-Belongs :
      (settings : Sizes) (id : Text) (size overlap : Option ℕ) (cs : List Chunk)
      (es : List C.Embedding) (row : Row C.Embedding)
      → All (IsNamedChunk settings id size overlap) cs
      → In row (rows_of C cs es)
      → Belongs id row
  rows_of-Belongs settings id size overlap [] es row all i = absurd i
  rows_of-Belongs settings id size overlap (c ∷ cs) [] row all i = absurd i
  rows_of-Belongs settings id size overlap (c ∷ cs) (e ∷ es) row all (inl same) = rw same all.0
  rows_of-Belongs settings id size overlap (c ∷ cs) (e ∷ es) row all (inr i) =
      rows_of-Belongs settings id size overlap cs es row all.1 i

module _ (C : Collection) (lawful : IsLawful C) (settings : Sizes) (env : Env C)
    (encodes : (texts : List Text) (es : List C.Embedding)
      → env.encode texts ≡ some es
      → length es ≡ length texts) where
  without-IsNamed :
      (id key : Text) (before after : Option (Row C.Embedding)) (row : Row C.Embedding)
      → ((r : Row C.Embedding) → before ≡ some r → IsNamedRow key r)
      → (after ≡ before) ⊎ (after ≡ without id before)
      → after ≡ some row
      → IsNamedRow key row
  without-IsNamed id key before after row h (inl e) there = h row (sym e ∙ there)
  without-IsNamed id key before after row h (inr e) there = elim (Bool-cases (owns id before)) [
    | inl o ↦ let gone : none ≡ some row = rw o at (sym e ∙ there) in cc
    | inr o ↦ h row (rw o at (sym e ∙ there))
  ]

  stored-IsNamed :
      (key : Text) (before after new : Option (Row C.Embedding)) (row : Row C.Embedding)
      → ((r : Row C.Embedding) → before ≡ some r → IsNamedRow key r)
      → ((r : Row C.Embedding) → new ≡ some r → IsNamedRow key r)
      → (after ≡ before) ⊎ (after ≡ or_else before new)
      → after ≡ some row
      → IsNamedRow key row
  stored-IsNamed key before after new row h k (inl e) there = h row (sym e ∙ there)
  stored-IsNamed key none after new row h k (inr e) there = k row (sym e ∙ there)
  stored-IsNamed key (some b) after new row h k (inr e) there = h row (sym e ∙ there)

  pub chunks-Belong :
      (id : Text) (pages : List PdfPage) (es : List C.Embedding) (row : Row C.Embedding)
      → In row (rows_of C (chunks_of_pages settings id pages) es)
      → Belongs C id row
  chunks-Belong id pages es row =
      rows_of-Belongs C settings id (some settings.chunk_size) (some settings.chunk_overlap)
        (chunks_of_pages settings id pages) es row
        (chunk_pages-IsNamedChunk settings id (some settings.chunk_size)
          (some settings.chunk_overlap) pages)

  new-IsNamed :
      (id key : Text) (pages : List PdfPage) (es : List C.Embedding) (row : Row C.Embedding)
      → length id ≡ 36
      → named key (rows_of C (chunks_of_pages settings id pages) es) ≡ some row
      → IsNamedRow key row
  new-IsNamed id key pages es row uuid there =
      let (i, same) =
        named-In key (rows_of C (chunks_of_pages settings id pages) es) {row = row} there in
      let (own, (n, e)) = chunks-Belong id pages es row i in
      ((n, sym same ∙ e ∙ ap (λ d. chunk_id d n) (sym own)), ap length own ∙ uuid)

  -- However a run ends, the rows of the collection keep names made of their documents' ids.
  pub sync_process-IsNamed :
      (doc : Document) (w : World C)
      → w.table doc.id ≡ some doc
      → length doc.id ≡ 36
      → IsNamed C w.chunks
      → IsNamed C (sync_process C settings env doc.id w).chunks
  sync_process-IsNamed doc w found uuid =
      sync_process_keeps C settings env doc (λ x. IsNamed C x.chunks) (λ change x p. p)
        (λ x p key row.
          without-IsNamed doc.id key (C.get x.chunks key)
            (C.get (delete_document_chunks C env.delete_reached x.chunks doc.id).0 key) row (p key)
            (delete_document_chunks-partial C lawful env.delete_reached x.chunks doc.id key))
        (λ pages x p key row.
          let chunks = chunks_of_pages settings doc.id pages in
          let stored =
            store_chunks-IsStored C lawful env.encode encodes env.store_reached x.chunks chunks in
          elim (stored.partial key) [
            | inl same ↦ λ there. p key row (sym same ∙ there)
            | inr (es, _, _, new) ↦
                stored-IsNamed key (C.get x.chunks key)
                  (C.get (store_chunks C env.encode env.store_reached x.chunks chunks).0 key)
                  (named key (rows_of C chunks es)) row (p key)
                  (λ r. new-IsNamed doc.id key pages es r uuid) (inr new)
          ])
        w found
