-- ===== src/Documents.antt =====
-- `_sync_process` of apps/rag/services/document_processor.py, on the table of
-- apps/rag/models.py and a collection of chunks, and `extract_text` of
-- apps/rag/services/pdf_parser.py. Metrics and times are left out.
use ai_inference_gateway_pla.Base.{
  ℕ, zero, suc, ◌+◌, ◌≡◌, Bool, true, false, Option, none, some, List, [], ◌∷◌, ◌++◌, map, Text,
  codes, length, take, strip, text_eq, if◌then◌else◌,
}
use ai_inference_gateway_pla.Base.Result.{Result, err, ok, or_raise}
use ai_inference_gateway_pla.Base.Effect.{Effect, ◌>>=◌, ◌>>◌, lift, raise, then_run}
use ai_inference_gateway_pla.Chunker.{Chunk, PdfPage, Sizes, chunk_pages, is_empty}
use ai_inference_gateway_pla.VectorStore.{Collection, store_chunks, delete_document_chunks}
pub mod Success
pub mod Outcome
pub mod Refinement
pub mod Naming
pub mod Exact
mod Tests

pub data Status : Type 0 where
  uploaded : Status
  processing : Status
  ready : Status
  failed : Status

-- The fields that the processing reads or writes.
pub record Document : Type 0 where
  pub id : Text
  pub file_path : Text
  pub page_count : Option ℕ
  pub chunk_count : ℕ
  pub status : Status
  pub error_message : Text

-- `pages` of `extract_text`: the text of each page, or none where it cannot be read
abbrev pub pages_from : ℕ → List (Option Text) → List PdfPage
pages_from number [] = []
pages_from number (some text ∷ loaded) =
    record { page_number = number; text = text } ∷ pages_from (suc number) loaded
pages_from number (none ∷ loaded) =
    record { page_number = number; text = [] } ∷ pages_from (suc number) loaded

abbrev pub some_pages : List PdfPage → Result Text (List PdfPage)
some_pages [] = err (codes "PDF has no pages")
some_pages (page ∷ pages) = ok (page ∷ pages)

-- `extract_text`: whether the file is there, and what `fitz.open` and `load_page` give
abbrev pub extract_text :
    Bool → Text → Result Text (List (Option Text)) → Result Text (List PdfPage)
extract_text false file_path opened = err (codes "File not found: " ++ file_path)
extract_text true file_path (err exception) = err (codes "Failed to open PDF: " ++ exception)
extract_text true file_path (ok loaded) = some_pages (pages_from 1 loaded)

-- `"\n\n".join(p.text for p in pages)`
abbrev pub full_text : List PdfPage → Text
full_text [] = []
full_text (page ∷ []) = page.text
full_text (page ∷ next ∷ pages) = page.text ++ (codes "\n\n" ++ full_text (next ∷ pages))

abbrev pub Table : Type 0
Table = Text → Option Document

abbrev pub map_row : (Document → Document) → Option Document → Option Document
map_row change none = none
map_row change (some doc) = some (change doc)

-- An `UPDATE` of the row of one primary key.
abbrev pub update : Text → (Document → Document) → Table → Table
update id change table key = if text_eq key id then map_row change (table key) else table key

pub record World (C : Collection) : Type 0 where
  pub table : Table
  pub chunks : C.State

-- What the parts around a run do: each exception is its text.
pub record Env (C : Collection) : Type 0 where
  pub parse : Text → Result Text (List PdfPage)
  pub encode : List Text → Option (List C.Embedding)
  pub delete_reached : Bool
  pub store_reached : Bool
  pub exception : Text
  pub processing_saved : Option Text
  pub pages_saved : Option Text
  pub ready_saved : Option Text
  pub failed_saved : Option Text

abbrev pub set_processing : Document → Document
set_processing d = record d { status = processing }

abbrev pub set_pages : List PdfPage → Document → Document
set_pages pages d = record d { page_count = some (length pages) }

abbrev pub set_ready : ℕ → Document → Document
set_ready stored d = record d { chunk_count = stored; status = ready; error_message = [] }

abbrev pub set_failed : Text → Document → Document
set_failed exception d = record d { status = failed; error_message = take 1000 exception }

-- `chunk_pages` with the settings
abbrev pub chunks_of_pages : Sizes → Text → List PdfPage → List Chunk
chunks_of_pages settings id pages =
    chunk_pages settings id (some settings.chunk_size) (some settings.chunk_overlap) pages

abbrev pub is_blank : List PdfPage → Bool
is_blank pages = is_empty (strip (full_text pages))

abbrev pub Run : Collection → Type 0 → Type 0
Run C A = Effect (World C) Text A

-- `doc.save(update_fields=[...])`
abbrev pub save : {C : Collection} → Option Text → Text → (Document → Document) → Run C (Unit {0})
save (some exception) id change w = (w, err exception)
save none id change w = (record w { table = update id change w.table }, ok tt)

-- `if not full_text.strip(): raise ValueError(...)`
abbrev pub check_text : {C : Collection} → List PdfPage → Run C (Unit {0})
check_text pages w =
    if is_blank pages then (w, err (codes "Extracted text is empty")) else (w, ok tt)

-- A call of the vector store, whose exception is a text.
abbrev pub called : {C : Collection} → Text → World C → C.State × Option ℕ → World C × Result Text ℕ
called exception w (chunks, count) = (record w { chunks = chunks }, or_raise count exception)

module _ (C : Collection) (settings : Sizes) (env : Env C) where
  abbrev pub delete_old : Text → Run C ℕ
  delete_old id w = called env.exception w (delete_document_chunks C env.delete_reached w.chunks id)

  abbrev pub store_new : Text → List PdfPage → Run C ℕ
  store_new id pages w =
      called env.exception w
        (store_chunks C env.encode env.store_reached w.chunks (chunks_of_pages settings id pages))

  -- From the chunks on.
  abbrev pub store_pages : Text → List PdfPage → Run C (Unit {0})
  store_pages id pages = do stored ← store_new id pages; save env.ready_saved id (set_ready stored)

  abbrev pub replace_chunks : Text → List PdfPage → Run C (Unit {0})
  replace_chunks id pages = do deleted ← delete_old id; store_pages id pages

  abbrev pub save_pages : Text → List PdfPage → Run C (Unit {0})
  save_pages id pages = do save env.pages_saved id (set_pages pages); replace_chunks id pages

  -- From the parsed pages on.
  abbrev pub index_pages : Text → List PdfPage → Run C (Unit {0})
  index_pages id pages = do check_text pages; save_pages id pages

  abbrev pub parse_pages : Document → Run C (Unit {0})
  parse_pages doc = do pages ← lift (env.parse doc.file_path); index_pages doc.id pages

  -- The `try` of `_sync_process`.
  unfoldable pub attempt : Document → Run C (Unit {0})
  attempt doc = do save env.processing_saved doc.id set_processing; parse_pages doc

  -- Its `except`; an exception of the save is only logged.
  abbrev pub settle : Text → World C × Result Text (Unit {0}) → World C
  settle id (w, ok value) = w
  settle id (w, err exception) = (save env.failed_saved id (set_failed exception) w).0

  abbrev pub process_row : Option Document → World C → World C
  process_row none w = w
  process_row (some doc) w = settle doc.id (attempt doc w)

  -- `_sync_process`
  unfoldable pub sync_process : Text → World C → World C
  unfolding attempt
  sync_process document_id w = process_row (w.table document_id) w
