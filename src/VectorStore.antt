-- ===== src/VectorStore.antt =====
-- apps/rag/services/vector_store.py over any collection of a Chroma server, and `embed_texts` of
-- apps/rag/services/embeddings.py over any model. The four columns of a call are lists, as the code
-- passes them.
use ai_inference_gateway_pla.Base.{
  ℕ, zero, suc, ◌+◌, ◌≡◌, ◌⊎◌, Bool, true, false, ◌&&◌, ◌||◌, Option, none, some, List, [], ◌∷◌,
  ◌++◌, map, min, Text, length, take, drop, text_eq, ◌==◌, if◌then◌else◌,
}
use ai_inference_gateway_pla.Base.Result.{Result, err, ok}
use ai_inference_gateway_pla.Chunker.{Chunk, or_setting}
pub mod Batches
pub mod Stored
pub mod Chunks
pub mod Toy
mod Tests

-- `text in texts`
abbrev pub mem : Text → List Text → Bool
mem x [] = false
mem x (y ∷ ys) = text_eq x y || mem x ys

-- The entry of `metadatas`.
pub record Metadata : Type 0 where
  pub document_id : Text
  pub chunk_index : ℕ
  pub page_number : ℕ

-- What a collection keeps under an id.
pub record Row (E : Type 0) : Type 0 where
  pub id : Text
  pub embedding : E
  pub metadata : Metadata
  pub document : Text

-- The row under an id, the first if there are more.
abbrev pub named : {E : Type 0} → Text → List (Row E) → Option (Row E)
named id [] = none
named id (row ∷ rows) = if text_eq row.id id then some row else named id rows

abbrev pub or_else : {A : Type 0} → Option A → Option A → Option A
or_else none other = other
or_else (some a) other = some a

abbrev pub owns : {E : Type 0} → Text → Option (Row E) → Bool
owns document_id none = false
owns document_id (some row) = text_eq row.metadata.document_id document_id

-- What is left under an id without the rows of a document.
abbrev pub without : {E : Type 0} → Text → Option (Row E) → Option (Row E)
without document_id row = if owns document_id row then none else row

-- A hit of a query, with its distance.
pub record Match (E D : Type 0) : Type 0 where
  pub row : Row E
  pub distance : D

-- The calls of a collection. `add` and `delete` return whether they returned: `false` is an
-- exception. A `none` of the other two is one.
pub record Collection : Type 1 where
  pub State : Type 0
  pub Embedding : Type 0
  pub Distance : Type 0
  pub get : State → Text → Option (Row Embedding)
  pub add : State → List Text → List Embedding → List Metadata → List Text → State × Bool
  pub ids_of : State → Text → Option (List Text)
  pub delete : State → List Text → State × Bool
  pub query : State → Embedding → ℕ → Option (List Text) → Option (List (Match Embedding Distance))

module _ {E : Type 0} where
  abbrev pub row_ids : List (Row E) → List Text
  row_ids rows = map (λ (r : Row E). r.id) rows

  abbrev pub row_embeddings : List (Row E) → List E
  row_embeddings rows = map (λ (r : Row E). r.embedding) rows

  abbrev pub row_metadatas : List (Row E) → List Metadata
  row_metadatas rows = map (λ (r : Row E). r.metadata) rows

  abbrev pub row_documents : List (Row E) → List Text
  row_documents rows = map (λ (r : Row E). r.document) rows

-- What the code relies on. `add` leaves alone the ids that are there; a call that raises has done
-- for each id all of its work or nothing.
pub record IsLawful (C : Collection) : Type 0 where
  pub get-add :
      (s : C.State) (rows : List (Row C.Embedding)) (id : Text)
      → (C.add s (row_ids rows) (row_embeddings rows) (row_metadatas rows) (row_documents rows)).1
        ≡ true
      → C.get
          (C.add s (row_ids rows) (row_embeddings rows) (row_metadatas rows) (row_documents rows)).0
          id
        ≡ or_else (C.get s id) (named id rows)
  pub add_partial :
      (s : C.State) (rows : List (Row C.Embedding)) (id : Text)
      → (C.get
            (C.add s
              (row_ids rows)
              (row_embeddings rows)
              (row_metadatas rows)
              (row_documents rows)).0
            id
          ≡ C.get s id)
        ⊎ (C.get
              (C.add s
                (row_ids rows)
                (row_embeddings rows)
                (row_metadatas rows)
                (row_documents rows)).0
              id
            ≡ or_else (C.get s id) (named id rows))
  pub mem-ids_of :
      (s : C.State) (document_id : Text) (ids : List Text) (id : Text)
      → C.ids_of s document_id ≡ some ids
      → mem id ids ≡ owns document_id (C.get s id)
  pub get-delete :
      (s : C.State) (ids : List Text) (id : Text)
      → (C.delete s ids).1 ≡ true
      → C.get (C.delete s ids).0 id ≡ (if mem id ids then none else C.get s id)
  pub delete_partial :
      (s : C.State) (ids : List Text) (id : Text)
      → (C.get (C.delete s ids).0 id ≡ C.get s id)
        ⊎ (C.get (C.delete s ids).0 id ≡ (if mem id ids then none else C.get s id))

module _ {A : Type 0} where
  -- The batches of `_chunked`, on the number of rounds that are left; a batch takes one at least.
  pub batches : ℕ → ℕ → List A → List (List A)
  batches zero size items = []
  batches (suc n) size [] = []
  batches (suc n) size (x ∷ items) = take size (x ∷ items) ∷ batches n size (drop size (x ∷ items))

  -- `_chunked`
  unfoldable pub chunked : List A → ℕ → List (List A)
  unfolding batches
  chunked items size = batches (length items) size items

-- A hit of a search.
pub record Hit (Score : Type 0) : Type 0 where
  pub id : Text
  pub text : Text
  pub metadata : Metadata
  pub score : Score

module _ (C : Collection) where
  open C use {State, Embedding, Distance, add, ids_of, delete, query}

  -- `zip` of the four columns, and the loop over it. `none` is an exception.
  pub add_batches :
      State
      → ℕ
      → List (List Text)
      → List (List Embedding)
      → List (List Metadata)
      → List (List Text)
      → State × Option ℕ
  add_batches s stored (ids ∷ idss) (es ∷ ess) (ms ∷ mss) (ts ∷ tss) =
      let (s', returned) = add s ids es ms ts in
      let rest = add_batches s' (stored + length ids) idss ess mss tss in
      if returned then rest else (s', none)
  add_batches s stored [] ess mss tss = (s, some stored)
  add_batches s stored (ids ∷ idss) [] mss tss = (s, some stored)
  add_batches s stored (ids ∷ idss) (es ∷ ess) [] tss = (s, some stored)
  add_batches s stored (ids ∷ idss) (es ∷ ess) (ms ∷ mss) [] = (s, some stored)

  abbrev pub metadata_of : Chunk → Metadata
  metadata_of c = record {
    document_id = c.document_id;
    chunk_index = c.chunk_index;
    page_number = c.page_number;
  }

  abbrev pub store_embedded : State → List Chunk → Option (List Embedding) → State × Option ℕ
  store_embedded s chunks none = (s, none)
  store_embedded s chunks (some embeddings) =
      add_batches s 0 (chunked (map (λ (c : Chunk). c.id) chunks) 100) (chunked embeddings 100)
        (chunked (map metadata_of chunks) 100) (chunked (map (λ (c : Chunk). c.text) chunks) 100)

  -- `store_chunks`. `reached` tells whether `_get_collection` returns, `encode` is the model.
  unfoldable pub store_chunks :
      (List Text → Option (List Embedding)) → Bool → State → List Chunk → State × Option ℕ
  unfolding add_batches chunked
  store_chunks encode reached s [] = (s, some 0)
  store_chunks encode reached s (c ∷ cs) =
      if reached
      then store_embedded s (c ∷ cs) (encode (map (λ (d : Chunk). d.text) (c ∷ cs)))
      else (s, none)

  abbrev pub delete_ids : State → List Text → State × ℕ
  delete_ids s [] = (s, 0)
  delete_ids s (id ∷ ids) =
      let (s', returned) = delete s (id ∷ ids) in (s', if returned then length (id ∷ ids) else 0)

  abbrev pub delete_found : State → Option (List Text) → State × ℕ
  delete_found s none = (s, 0)
  delete_found s (some ids) = delete_ids s ids

  abbrev pub returns : State × ℕ → State × Option ℕ
  returns (s, count) = (s, some count)

  -- `delete_document_chunks`: only `_get_collection` raises.
  unfoldable pub delete_document_chunks : Bool → State → Text → State × Option ℕ
  delete_document_chunks reached s document_id =
      if reached then returns (delete_found s (ids_of s document_id)) else (s, none)

  -- `where` of a query
  abbrev pub filter_of : List Text → Option (List Text)
  filter_of [] = none
  filter_of (d ∷ ds) = some (d ∷ ds)

  module _ {Score : Type 0} (similarity : Distance → Score) where
    -- `round(1.0 - distance, 4)` is `similarity`.
    abbrev pub hit_of : Match Embedding Distance → Hit Score
    hit_of m = record {
      id = m.row.id;
      text = m.row.document;
      metadata = m.row.metadata;
      score = similarity m.distance;
    }

    abbrev pub hits_of : Option (List (Match Embedding Distance)) → List (Hit Score)
    hits_of none = []
    hits_of (some found) = map hit_of found

    -- `search_chunks`, with the query's embedding; a query that raises finds nothing.
    unfoldable pub search_chunks : State → Embedding → Option ℕ → ℕ → List Text → List (Hit Score)
    search_chunks s embedding top_k rag_top_k document_ids =
        hits_of (query s embedding (min (or_setting top_k rag_top_k) 50) (filter_of document_ids))
