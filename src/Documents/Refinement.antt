-- ===== src/Documents/Refinement.antt =====
-- What a run does to the chunks, against the abstract index of a collection: a function from ids to
-- rows.
use ai_inference_gateway_pla.Base.{◌≡◌, refl, sym, ap, subst, ◌∙◌, Option, some, List, Text, length}
use ai_inference_gateway_pla.Base.Result.{Result, err, ok}
use ai_inference_gateway_pla.Chunker.{PdfPage, Sizes}
use ai_inference_gateway_pla.VectorStore.{
  Collection, IsLawful, Row, named, or_else, without, delete_document_chunks,
}
use ai_inference_gateway_pla.VectorStore.Stored.{
  rows_of, embeddings_of, store_chunks-IsStored, Deletes, delete_document_chunks-without,
}
use ai_inference_gateway_pla.Documents.{
  Document, World, Env, set_ready, set_pages, set_processing, attempt, settle, process_row,
  sync_process, chunks_of_pages,
}
use ai_inference_gateway_pla.Documents.Success.{attempt-Success}
use ai_inference_gateway_pla.Documents.Outcome.{Success-row}

-- The abstract index, and what ingesting a document is on it.
abbrev pub Index : Type 0 → Type 0
Index E = Text → Option (Row E)

abbrev pub replace_document : {E : Type 0} → Text → List (Row E) → Index E → Index E
replace_document document_id rows index key =
    or_else (without document_id (index key)) (named key rows)

module _ (C : Collection) (lawful : IsLawful C) (settings : Sizes) (env : Env C)
    (encodes : (texts : List Text) (es : List C.Embedding)
      → env.encode texts ≡ some es
      → length es ≡ length texts) where
  -- What a run that raises nothing owes: the index has the document's new chunks in place of its old
  -- ones, and the row of the document counts them.
  pub record IsReplaced (doc : Document) (w end : World C) : Type 0 where
    pub pages : List PdfPage
    pub parsed : env.parse doc.file_path ≡ ok pages
    pub embeddings : List C.Embedding
    pub encoded :
        embeddings_of C env.encode (chunks_of_pages settings doc.id pages) ≡ some embeddings
    pub measured : length embeddings ≡ length (chunks_of_pages settings doc.id pages)
    pub index :
        (key : Text)
        → C.get end.chunks key
          ≡ replace_document doc.id
              (rows_of C (chunks_of_pages settings doc.id pages) embeddings)
              (C.get w.chunks)
              key
    pub row : Document
    pub row_found : end.table doc.id ≡ some row
    pub counted : row.chunk_count ≡ length (chunks_of_pages settings doc.id pages)

  attempt-IsReplaced :
      (doc : Document) (w : World C) {v : Unit {0}}
      → w.table doc.id ≡ some doc
      → (attempt C settings env doc w).1 ≡ ok v
      → Deletes C lawful w.chunks doc.id
      → IsReplaced doc w (attempt C settings env doc w).0
  attempt-IsReplaced doc w found returned deletes =
      let s = attempt-Success C settings env doc w returned in
      let chunks = chunks_of_pages settings doc.id s.pages in
      let after = (delete_document_chunks C env.delete_reached w.chunks doc.id).0 in
      let stored =
        store_chunks-IsStored C lawful env.encode encodes env.store_reached after chunks in
      let added = stored.complete s.stored s.returned in
      record {
        pages = s.pages;
        parsed = s.parsed;
        embeddings = added.embeddings;
        encoded = added.encoded;
        measured = added.measured;
        index = λ key.
            ap (λ (x : World C). C.get x.chunks key) s.end_world
            ∙ added.rows key
            ∙ ap (λ o. or_else o (named key (rows_of C chunks added.embeddings)))
                (ap (λ b. C.get (delete_document_chunks C b w.chunks doc.id).0 key) s.reached
                  ∙ delete_document_chunks-without C lawful w.chunks doc.id deletes key);
        row = set_ready s.stored (set_pages s.pages (set_processing doc));
        row_found = Success-row C settings env doc w (attempt C settings env doc w).0 found s;
        counted = stored.counted s.stored s.returned;
      }

  settle_returned :
      (id : Text) (r : World C × Result Text (Unit {0})) {v : Unit {0}}
      → r.1 ≡ ok v
      → settle C settings env id r ≡ r.0
  settle_returned id (w, ok value) h = refl
  settle_returned id (w, err exception) h = cc

  -- A run that raises nothing implements the replacement of a document: under each id the collection
  -- then has what the abstract index has after the document's rows were taken out and a row for each
  -- chunk of the parsed pages was put in, with the
  -- embedding that the model gives to its text. The document's row counts these chunks. This takes that the
  -- two calls that delete the old chunks return; their exceptions do not stop a run.
  pub sync_process-refines :
      (doc : Document) (w : World C)
      → w.table doc.id ≡ some doc
      → (attempt C settings env doc w).1 ≡ ok tt
      → Deletes C lawful w.chunks doc.id
      → IsReplaced doc w (sync_process C settings env doc.id w)
  unfolding sync_process
  sync_process-refines doc w found returned deletes =
      subst (λ o. IsReplaced doc w (process_row C settings env o w)) (sym found)
        (subst (IsReplaced doc w)
          (sym (settle_returned doc.id (attempt C settings env doc w) returned))
          (attempt-IsReplaced doc w found returned deletes))
