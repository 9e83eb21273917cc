-- ===== src/Documents/Exact.antt =====
-- A run that raises nothing replaces the chunks of its document, and touches no others.
use mathlib.Core.Option.{some-injective}
use ai_inference_gateway_pla.Base.{
  ℕ, ◌≡◌, refl, sym, ap, ◌∙◌, inl, inr, true, false, Bool-cases, Option, none, some, List, Text, In,
  length, text_eq, text_eq_refl,
}
use ai_inference_gateway_pla.Base.Result.{ok}
use ai_inference_gateway_pla.Chunker.{PdfPage, Sizes, chunk_id}
use ai_inference_gateway_pla.Chunker.Ids.{chunk_pages-Distinct}
use ai_inference_gateway_pla.VectorStore.{Collection, IsLawful, Row, named, or_else, owns, without}
use ai_inference_gateway_pla.VectorStore.Stored.{rows_of, embeddings_of, Deletes}
use ai_inference_gateway_pla.Documents.{
  Document, World, Env, attempt, sync_process, chunks_of_pages,
}
use ai_inference_gateway_pla.Documents.Refinement.{IsReplaced, sync_process-refines}
use ai_inference_gateway_pla.Documents.Naming.{
  IsNamed, IsNamedRow, chunk_id-document, named-In, named-Distinct, rows_of-Distinct, chunks-Belong,
}

module _ (C : Collection) (lawful : IsLawful C) (settings : Sizes) (env : Env C)
    (encodes : (texts : List Text) (es : List C.Embedding)
      → env.encode texts ≡ some es
      → length es ≡ length texts) where
  -- The rows of the document at the end are those of the parsed pages' chunks, and no other row has
  -- changed.
  pub record IsExact (doc : Document) (w end : World C) : Type 0 where
    pub pages : List PdfPage
    pub parsed : env.parse doc.file_path ≡ ok pages
    pub embeddings : List C.Embedding
    pub encoded :
        embeddings_of C env.encode (chunks_of_pages settings doc.id pages) ≡ some embeddings
    pub measured : length embeddings ≡ length (chunks_of_pages settings doc.id pages)
    pub stored :
        (row : Row C.Embedding)
        → In row (rows_of C (chunks_of_pages settings doc.id pages) embeddings)
        → C.get end.chunks row.id ≡ some row
    pub only :
        (key : Text) (row : Row C.Embedding)
        → C.get end.chunks key ≡ some row
        → row.metadata.document_id ≡ doc.id
        → In row (rows_of C (chunks_of_pages settings doc.id pages) embeddings)
    pub others :
        (key : Text) (row : Row C.Embedding)
        → C.get w.chunks key ≡ some row
        → text_eq row.metadata.document_id doc.id ≡ false
        → C.get end.chunks key ≡ some row

  owned :
      (id : Text) (row : Row C.Embedding)
      → row.metadata.document_id ≡ id
      → owns id (some row) ≡ true
  owned id row same = rw same (text_eq_refl id)

  -- An id that a chunk of the document takes was free, or taken by a row of the same document.
  free :
      (id key : Text) (i : ℕ) (old : Option (Row C.Embedding))
      → length id ≡ 36
      → ((row : Row C.Embedding) → old ≡ some row → IsNamedRow key row)
      → key ≡ chunk_id id i
      → without id old ≡ none
  free id key i none uuid h same = refl
  free id key i (some row) uuid h same =
      let ((j, e), u) = h row refl in
      let own : row.metadata.document_id ≡ id =
        chunk_id-document row.metadata.document_id id j i (u ∙ sym uuid) (sym e ∙ same) in
      rw (owned id row own) refl

  only_new :
      (id : Text) (before new after : Option (Row C.Embedding)) (row : Row C.Embedding)
      → after ≡ or_else (without id before) new
      → after ≡ some row
      → row.metadata.document_id ≡ id
      → new ≡ some row
  only_new id none new after row e there own = sym e ∙ there
  only_new id (some b) new after row e there own = elim (Bool-cases (owns id (some b))) [
    | inl o ↦ rw o at (sym e ∙ there)
    | inr o ↦
        let same : b ≡ row = some-injective b row (rw o at (sym e ∙ there)) in
        let not_own : true ≡ false =
          sym (owned id b (ap (λ (r : Row C.Embedding). r.metadata.document_id) same ∙ own)) ∙ o in
        cc
  ]

  replaced-IsExact :
      (doc : Document) (w end : World C)
      → length doc.id ≡ 36
      → IsNamed C w.chunks
      → IsReplaced C lawful settings env encodes doc w end
      → IsExact doc w end
  replaced-IsExact doc w end uuid named_rows r =
      let chunks = chunks_of_pages settings doc.id r.pages in
      let rows = rows_of C chunks r.embeddings in
      record {
        pages = r.pages;
        parsed = r.parsed;
        embeddings = r.embeddings;
        encoded = r.encoded;
        measured = r.measured;
        stored = λ row i.
            let (_, (n, e)) =
              chunks-Belong C lawful settings env encodes doc.id r.pages r.embeddings row i in
            let distinct =
              (chunk_pages-Distinct settings doc.id (some settings.chunk_size)
                (some settings.chunk_overlap) r.pages).0 in
            r.index row.id
            ∙ ap (λ o. or_else o (named row.id rows))
                (free doc.id row.id n (C.get w.chunks row.id) uuid (named_rows row.id) e)
            ∙ named-Distinct rows row (rows_of-Distinct C chunks r.embeddings distinct) i;
        only = λ key row there own.
            (named-In key rows {row = row} (
              only_new doc.id (C.get w.chunks key) (named key rows) (C.get end.chunks key) row
                (r.index key) there own)).0;
        others = λ key row there other.
            r.index key
            ∙ ap (λ o. or_else (without doc.id o) (named key rows)) there
            ∙ rw other refl;
      }

  -- A run that raises nothing, on a collection whose rows have names made of their documents' ids,
  -- leaves as rows of its document exactly those of the chunks of the parsed pages, each under its
  -- own id, and every row of another document as it was. This takes that the document's id has the
  -- length of a UUID and that the two calls that delete the old chunks return.
  pub sync_process-IsExact :
      (doc : Document) (w : World C)
      → w.table doc.id ≡ some doc
      → length doc.id ≡ 36
      → IsNamed C w.chunks
      → (attempt C settings env doc w).1 ≡ ok tt
      → Deletes C lawful w.chunks doc.id
      → IsExact doc w (sync_process C settings env doc.id w)
  sync_process-IsExact doc w found uuid named_rows returned deletes =
      replaced-IsExact doc w (sync_process C settings env doc.id w) uuid named_rows
        (sync_process-refines C lawful settings env encodes doc w found returned deletes)
