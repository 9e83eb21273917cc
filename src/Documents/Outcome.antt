-- ===== src/Documents/Outcome.antt =====
-- How a run ends, whatever raises in it.
use ai_inference_gateway_pla.Base.{
  ◌≡◌, refl, sym, ap, subst, ◌∙◌, inl, inr, false, Bool-cases, Option, none, some, List, [], Text,
  take, text_eq, text_eq_refl,
}
use ai_inference_gateway_pla.Base.Result.{Result, err, ok}
use ai_inference_gateway_pla.Base.Effect.{then_run_keeps, lift}
use ai_inference_gateway_pla.Chunker.{PdfPage, Sizes}
use ai_inference_gateway_pla.VectorStore.{Collection, store_chunks, delete_document_chunks}
use ai_inference_gateway_pla.Documents.{
  ready, failed, Document, Table, update, World, Env, save, check_text, is_blank, delete_old,
  store_new, save_pages, replace_chunks, parse_pages, store_pages, index_pages, attempt, settle,
  process_row, sync_process, set_processing, set_pages, set_ready, set_failed, chunks_of_pages,
}
use ai_inference_gateway_pla.Documents.Success.{Success, attempt-Success}

module _ (C : Collection) (settings : Sizes) (env : Env C) (doc : Document) (P : World C → Type 0)
    (updated : (change : Document → Document) (w : World C)
      → P w
      → P (record w { table = update doc.id change w.table }))
    (deleted : (w : World C)
      → P w
      → P (record w { chunks = (delete_document_chunks C env.delete_reached w.chunks doc.id).0 }))
    (stored : (pages : List PdfPage) (w : World C)
      → P w
      → P (record w {
        chunks =
            (store_chunks C env.encode env.store_reached w.chunks
              (chunks_of_pages settings doc.id pages)).0;
      })) where
  save_keeps :
      (saved : Option Text) (change : Document → Document) (w : World C)
      → P w
      → P (save {C = C} saved doc.id change w).0
  save_keeps none change w p = updated change w p
  save_keeps (some exception) change w p = p

  check_keeps : (pages : List PdfPage) (w : World C) → P w → P (check_text {C = C} pages w).0
  check_keeps pages w p = elim (Bool-cases (is_blank pages)) [ inl e ↦ rw e p | inr e ↦ rw e p ]

  replace_keeps :
      (pages : List PdfPage) (w : World C)
      → P w
      → P (replace_chunks C settings env doc.id pages w).0
  replace_keeps pages w p =
      then_run_keeps P (delete_old C settings env doc.id w)
        (λ _. store_pages C settings env doc.id pages) (deleted w p)
        (λ _ w' p'.
          then_run_keeps P (store_new C settings env doc.id pages w')
            (λ stored. save env.ready_saved doc.id (set_ready stored)) (stored pages w' p')
            (λ n. save_keeps env.ready_saved (set_ready n)))

  parse_keeps : (w : World C) → P w → P (parse_pages C settings env doc w).0
  parse_keeps w p =
      then_run_keeps P (lift (env.parse doc.file_path) w)
        (λ pages. index_pages C settings env doc.id pages) p
        (λ pages w' p'.
          then_run_keeps P (check_text pages w') (λ _. save_pages C settings env doc.id pages)
            (check_keeps pages w' p')
            (λ _ w'' p''.
              then_run_keeps P (save env.pages_saved doc.id (set_pages pages) w'')
                (λ _. replace_chunks C settings env doc.id pages)
                (save_keeps env.pages_saved (set_pages pages) w'' p'') (λ _. replace_keeps pages)))

  pub attempt_keeps : (w : World C) → P w → P (attempt C settings env doc w).0
  unfolding attempt
  attempt_keeps w p =
      then_run_keeps P (save env.processing_saved doc.id set_processing w)
        (λ _. parse_pages C settings env doc) (save_keeps env.processing_saved set_processing w p)
        (λ _. parse_keeps)

  settle_keeps : (r : World C × Result Text (Unit {0})) → P r.0 → P (settle C settings env doc.id r)
  settle_keeps (w, ok value) p = p
  settle_keeps (w, err exception) p = save_keeps env.failed_saved (set_failed exception) w p

  -- What every update of the document's row and every change of the chunks keeps, a run keeps.
  pub sync_process_keeps :
      (w : World C) → w.table doc.id ≡ some doc → P w → P (sync_process C settings env doc.id w)
  unfolding sync_process
  sync_process_keeps w found p =
      subst (λ o. P (process_row C settings env o w)) (sym found)
        (settle_keeps (attempt C settings env doc w) (attempt_keeps w p))

-- The row of the document, whatever its fields.
abbrev HasRow : Text → Table → Type 0
HasRow id table = (doc : Document) × (table id ≡ some doc)

update-HasRow :
    (id : Text) (change : Document → Document) (table : Table) (doc : Document)
    → table id ≡ some doc
    → update id change table id ≡ some (change doc)
update-HasRow id change table doc h = rw (text_eq_refl id) (rw h refl)

-- What the row says after a `try` with this outcome: it is ready, without an error, or it has failed,
-- with the first thousand characters of the exception's text.
abbrev pub IsSettled : Result Text (Unit {0}) → Document → Type 0
IsSettled (ok v) doc = (doc.status ≡ ready) × (doc.error_message ≡ [])
IsSettled (err exception) doc = (doc.status ≡ failed) × (doc.error_message ≡ take 1000 exception)

module _ (C : Collection) (settings : Sizes) (env : Env C) where
  attempt-HasRow :
      (doc : Document) (w : World C)
      → w.table doc.id ≡ some doc
      → HasRow doc.id (attempt C settings env doc w).0.table
  attempt-HasRow doc w found =
      attempt_keeps C settings env doc (λ w. HasRow doc.id w.table)
        (λ change w p. (change p.0, update-HasRow doc.id change w.table p.0 p.1)) (λ w p. p)
        (λ pages w p. p) w (doc, found)

  pub Success-row :
      (doc : Document) (w end : World C)
      → w.table doc.id ≡ some doc
      → (s : Success C settings env doc w end)
      → end.table doc.id ≡ some (set_ready s.stored (set_pages s.pages (set_processing doc)))
  Success-row doc w end found s =
      ap (λ (x : World C). x.table doc.id) s.end_world
      ∙ update-HasRow doc.id (set_ready s.stored)
          (update doc.id (set_pages s.pages) (update doc.id set_processing w.table))
          (set_pages s.pages (set_processing doc))
          (update-HasRow doc.id (set_pages s.pages) (update doc.id set_processing w.table)
            (set_processing doc) (update-HasRow doc.id set_processing w.table doc found))

  attempt-ready :
      (doc : Document) (w : World C) {v : Unit {0}}
      → w.table doc.id ≡ some doc
      → (attempt C settings env doc w).1 ≡ ok v
      → (end : Document) × ((attempt C settings env doc w).0.table doc.id ≡ some end)
        × ((end.status ≡ ready) × (end.error_message ≡ []))
  attempt-ready doc w found h =
      let s = attempt-Success C settings env doc w h in
      (
        set_ready s.stored (set_pages s.pages (set_processing doc)),
        Success-row doc w (attempt C settings env doc w).0 found s,
        (refl, refl),
      )

  settle-IsSettled :
      (doc : Document) (r : World C × Result Text (Unit {0}))
      → env.failed_saved ≡ none
      → HasRow doc.id r.0.table
      → ((v : Unit {0})
          → r.1 ≡ ok v
          → (end : Document) × (r.0.table doc.id ≡ some end)
            × ((end.status ≡ ready) × (end.error_message ≡ [])))
      → (end : Document) × ((settle C settings env doc.id r).table doc.id ≡ some end)
        × IsSettled r.1 end
  settle-IsSettled doc (w, ok value) saved row good = good value refl
  settle-IsSettled doc (w, err exception) saved row good = (
    set_failed exception row.0,
    rw saved (update-HasRow doc.id (set_failed exception) w.table row.0 row.1),
    (refl, refl),
  )

  update-other :
      (id key : Text) (change : Document → Document) (table : Table)
      → text_eq key id ≡ false
      → update id change table key ≡ table key
  update-other id key change table h = rw h refl

  -- A run leaves the row of its document ready without an error if its `try` returns, and failed
  -- with the text of the exception that the `try` raises, cut to a thousand characters, provided that
  -- the save of the failure does not itself raise. It never leaves it as being processed. All other rows stay as they were.
  pub sync_process-IsSettled :
      (doc : Document) (w : World C)
      → w.table doc.id ≡ some doc
      → env.failed_saved ≡ none
      → ((end : Document) × ((sync_process C settings env doc.id w).table doc.id ≡ some end)
          × IsSettled (attempt C settings env doc w).1 end)
        × ((key : Text)
            → text_eq key doc.id ≡ false
            → (sync_process C settings env doc.id w).table key ≡ w.table key)
  unfolding sync_process
  sync_process-IsSettled doc w found saved = (
    rw found (
        settle-IsSettled doc (attempt C settings env doc w) saved (attempt-HasRow doc w found)
          (λ v. attempt-ready doc w found)),
    λ key other.
        sync_process_keeps C settings env doc (λ x. x.table key ≡ w.table key)
          (λ change x p. update-other doc.id key change x.table other ∙ p) (λ x p. p)
          (λ pages x p. p) w found refl,
  )

  -- Without a row nothing happens.
  pub sync_process-missing :
      (id : Text) (w : World C) → w.table id ≡ none → sync_process C settings env id w ≡ w
  unfolding sync_process
  sync_process-missing id w h = rw h refl
