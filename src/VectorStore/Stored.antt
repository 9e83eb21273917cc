-- ===== src/VectorStore/Stored.antt =====
-- What `store_chunks` and `delete_document_chunks` do to the rows of a collection.
use ai_inference_gateway_pla.Base.{
  length-map, ℕ, ◌≡◌, refl, sym, ap, subst, ◌∙◌, inl, inr, ◌⊎◌, Bool, true, false, Option, none,
  some, List, [], ◌∷◌, map, Text, length, arith, Option-cases, if◌then◌else◌,
}
use mathlib.Core.Option.{some-injective}
use ai_inference_gateway_pla.Chunker.{Chunk}
use ai_inference_gateway_pla.VectorStore.{
  Row, named, or_else, without, Collection, IsLawful, row_ids, row_embeddings, row_metadatas,
  row_documents, chunked, add_batches, metadata_of, store_embedded, store_chunks, delete_ids,
  delete_document_chunks,
}
use ai_inference_gateway_pla.VectorStore.Batches.{
  add_rows, add_rows-stored, add_rows-partial, join-chunked, chunked-map, or_else-none,
}

module _ (C : Collection) where
  -- The row of a chunk.
  abbrev pub row_of : Chunk → C.Embedding → Row C.Embedding
  row_of c e = record { id = c.id; embedding = e; metadata = metadata_of C c; document = c.text }

  abbrev pub rows_of : List Chunk → List C.Embedding → List (Row C.Embedding)
  rows_of [] es = []
  rows_of (c ∷ cs) [] = []
  rows_of (c ∷ cs) (e ∷ es) = row_of c e ∷ rows_of cs es

  -- The embeddings of chunks: the model is not asked for those of none.
  abbrev pub embeddings_of :
      (List Text → Option (List C.Embedding)) → List Chunk → Option (List C.Embedding)
  embeddings_of encode [] = some []
  embeddings_of encode (c ∷ cs) = encode (map (λ (d : Chunk). d.text) (c ∷ cs))

  -- The columns that the code passes are those of the rows.
  record IsColumns (cs : List Chunk) (es : List C.Embedding) : Type 0 where
    ids : row_ids (rows_of cs es) ≡ map (λ (c : Chunk). c.id) cs
    embeddings : row_embeddings (rows_of cs es) ≡ es
    metadatas : row_metadatas (rows_of cs es) ≡ map (metadata_of C) cs
    documents : row_documents (rows_of cs es) ≡ map (λ (c : Chunk). c.text) cs
    count : length (rows_of cs es) ≡ length cs

  rows_of-IsColumns :
      (cs : List Chunk) (es : List C.Embedding) → length es ≡ length cs → IsColumns cs es
  rows_of-IsColumns [] [] h = record {
    ids = refl;
    embeddings = refl;
    metadatas = refl;
    documents = refl;
    count = refl;
  }
  rows_of-IsColumns [] (e ∷ es) h = absurd (omega arith)
  rows_of-IsColumns (c ∷ cs) [] h = absurd (omega arith)
  rows_of-IsColumns (c ∷ cs) (e ∷ es) h =
      let r = rows_of-IsColumns cs es (omega arith) in
      record {
        ids = ap (◌∷◌ c.id) r.ids;
        embeddings = ap (◌∷◌ e) r.embeddings;
        metadatas = ap (◌∷◌ (metadata_of C c)) r.metadatas;
        documents = ap (◌∷◌ c.text) r.documents;
        count = omega (arith, r.count);
      }

  module _ (lawful : IsLawful C) where
    store_embedded-rows :
        (s : C.State) (cs : List Chunk) (es : List C.Embedding)
        → length es ≡ length cs
        → store_embedded C s cs (some es) ≡ add_rows C lawful s 0 (chunked (rows_of cs es) 100)
    store_embedded-rows s cs es h =
        let r = rows_of-IsColumns cs es h in
        let rows = rows_of cs es in
        (λ i.
          add_batches C s 0 (chunked (sym r.ids i) 100) (chunked (sym r.embeddings i) 100)
            (chunked (sym r.metadatas i) 100) (chunked (sym r.documents i) 100))
        ∙ (λ i.
            add_batches C s 0 (chunked-map (λ (q : Row C.Embedding). q.id) 100 rows i)
              (chunked-map (λ (q : Row C.Embedding). q.embedding) 100 rows i)
              (chunked-map (λ (q : Row C.Embedding). q.metadata) 100 rows i)
              (chunked-map (λ (q : Row C.Embedding). q.document) 100 rows i))

    module _ (encode : List Text → Option (List C.Embedding)) where
      -- Under an id there is what an index has to which a row for each chunk was added, with the
      -- embeddings that the model gives, one for each.
      pub record IsAdded (s : C.State) (cs : List Chunk) (end : C.State) : Type 0 where
        pub embeddings : List C.Embedding
        pub encoded : embeddings_of encode cs ≡ some embeddings
        pub measured : length embeddings ≡ length cs
        pub rows :
            (id : Text) → C.get end id ≡ or_else (C.get s id) (named id (rows_of cs embeddings))

      -- What `store_chunks` returns, and what it did by then.
      pub record IsStored (s : C.State) (cs : List Chunk) (r : C.State × Option ℕ) : Type 0 where
        pub partial :
            (id : Text)
            → (C.get r.0 id ≡ C.get s id)
              ⊎ ((es : List C.Embedding) × (embeddings_of encode cs ≡ some es)
                  × (length es ≡ length cs)
                  × (C.get r.0 id ≡ or_else (C.get s id) (named id (rows_of cs es))))
        pub counted : (n : ℕ) → r.1 ≡ some n → n ≡ length cs
        pub complete : (n : ℕ) → r.1 ≡ some n → IsAdded s cs r.0

      nothing-IsStored : (s : C.State) (cs : List Chunk) → IsStored s cs (s, none)
      nothing-IsStored s cs = record {
        partial = λ id. inl refl;
        counted = λ n h. cc;
        complete = λ n h. cc;
      }

      embedded-IsStored :
          (s : C.State) (cs : List Chunk) (es : List C.Embedding)
          → embeddings_of encode cs ≡ some es
          → length es ≡ length cs
          → IsStored s cs (store_embedded C s cs (some es))
      embedded-IsStored s cs es encoded h =
          let rows = rows_of cs es in
          let all_rows = join-chunked rows in
          let count = (rows_of-IsColumns cs es h).count in
          let end = add_rows C lawful s 0 (chunked rows 100) in
          rw (store_embedded-rows s cs es h) (record {
            partial = λ id.
                elim (subst
                  (λ l.
                    (C.get end.0 id ≡ C.get s id)
                    ⊎ (C.get end.0 id ≡ or_else (C.get s id) (named id l)))
                  all_rows (add_rows-partial C lawful s 0 (chunked rows 100) id)) [
                    | inl same ↦ inl same
                    | inr new ↦ inr (es, encoded, h, new)
                  ];
            counted = λ n e.
                let (counted, _) = add_rows-stored C lawful s 0 n (chunked rows 100) e in
                omega (arith, counted, ap length all_rows, count);
            complete = λ n e. record {
              embeddings = es;
              encoded = encoded;
              measured = h;
              rows = λ id.
                  (add_rows-stored C lawful s 0 n (chunked rows 100) e).1 id
                  ∙ ap (λ l. or_else (C.get s id) (named id l)) all_rows;
            };
          })

      module _
          (encodes : (texts : List Text) (es : List C.Embedding)
            → encode texts ≡ some es
            → length es ≡ length texts) where
        -- Storing chunks, in batches of a hundred, stores a row for each of them where the id is not
        -- taken, with the embedding that the model gives to its text, and returns how many chunks
        -- there are. If it raises, then under an id there is what was there before or what it would
        -- have stored. This takes that the model gives as many embeddings as it is given texts.
        pub store_chunks-IsStored :
            (reached : Bool) (s : C.State) (cs : List Chunk)
            → IsStored s cs (store_chunks C encode reached s cs)
        unfolding store_chunks
        store_chunks-IsStored reached s [] = record {
          partial = λ id. inl refl;
          counted = λ n h. sym (some-injective 0 n h);
          complete = λ n h. record {
            embeddings = [];
            encoded = refl;
            measured = refl;
            rows = λ id. sym (or_else-none (C.get s id));
          };
        }
        store_chunks-IsStored false s (c ∷ cs) = nothing-IsStored s (c ∷ cs)
        store_chunks-IsStored true s (c ∷ cs) =
            let texts = map (λ (d : Chunk). d.text) (c ∷ cs) in
            elim (Option-cases (encode texts)) [
              | inl e ↦ rw e (nothing-IsStored s (c ∷ cs))
              | inr (es, e) ↦
                  let stored =
                    embedded-IsStored s (c ∷ cs) es e
                      (encodes texts es e ∙ length-map (λ (d : Chunk). d.text) (c ∷ cs)) in
                  subst (λ o. IsStored s (c ∷ cs) (store_embedded C s (c ∷ cs) o)) (sym e) stored
            ]

    -- The ids of a document are found, and the call that deletes them returns.
    abbrev pub Deletes : C.State → Text → Type 0
    Deletes s document_id =
        (ids : List Text) × (C.ids_of s document_id ≡ some ids) × ((C.delete s ids).1 ≡ true)

    delete_ids-without :
        (s : C.State) (document_id : Text) (ids : List Text)
        → C.ids_of s document_id ≡ some ids
        → (C.delete s ids).1 ≡ true
        → (id : Text) → C.get (delete_ids C s ids).0 id ≡ without document_id (C.get s id)
    delete_ids-without s document_id [] found returned id =
        rw (← lawful.mem-ids_of s document_id [] id found) refl
    delete_ids-without s document_id (x ∷ ids) found returned id =
        lawful.get-delete s (x ∷ ids) id returned
        ∙ ap (λ b. if b then none else C.get s id)
            (lawful.mem-ids_of s document_id (x ∷ ids) id found)

    -- Where both calls return, deleting the chunks of a document leaves all other rows and none of
    -- the document's.
    pub delete_document_chunks-without :
        (s : C.State) (document_id : Text)
        → Deletes s document_id
        → (id : Text)
        → C.get (delete_document_chunks C true s document_id).0 id
          ≡ without document_id (C.get s id)
    unfolding delete_document_chunks
    delete_document_chunks-without s document_id (ids, found, returned) id =
        rw found (delete_ids-without s document_id ids found returned id)

    delete_ids-partial :
        (s : C.State) (document_id : Text) (ids : List Text)
        → C.ids_of s document_id ≡ some ids
        → (id : Text)
        → (C.get (delete_ids C s ids).0 id ≡ C.get s id)
          ⊎ (C.get (delete_ids C s ids).0 id ≡ without document_id (C.get s id))
    delete_ids-partial s document_id [] found id = inl refl
    delete_ids-partial s document_id (x ∷ ids) found id =
        subst
          (λ b.
            (C.get (C.delete s (x ∷ ids)).0 id ≡ C.get s id)
            ⊎ (C.get (C.delete s (x ∷ ids)).0 id ≡ (if b then none else C.get s id)))
          (lawful.mem-ids_of s document_id (x ∷ ids) id found)
          (lawful.delete_partial s (x ∷ ids) id)

    -- However it ends, it takes away nothing but rows of the document.
    pub delete_document_chunks-partial :
        (reached : Bool) (s : C.State) (document_id id : Text)
        → (C.get (delete_document_chunks C reached s document_id).0 id ≡ C.get s id)
          ⊎ (C.get (delete_document_chunks C reached s document_id).0 id
              ≡ without document_id (C.get s id))
    unfolding delete_document_chunks
    delete_document_chunks-partial false s document_id id = inl refl
    delete_document_chunks-partial true s document_id id =
        elim (Option-cases (C.ids_of s document_id)) [
          | inl e ↦ rw e (inl refl)
          | inr (ids, e) ↦ rw e (delete_ids-partial s document_id ids e id)
        ]
