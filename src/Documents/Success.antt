-- ===== src/Documents/Success.antt =====
-- The path of a run that raises nothing.
use ai_inference_gateway_pla.Base.{
  ℕ, ◌≡◌, refl, ap, subst, ◌∙◌, inl, inr, Bool, true, false, Bool-cases, Option, none, some, List,
  Text,
}
use ai_inference_gateway_pla.Base.Result.{Result, err, ok, or_raise-eq-ok}
use ai_inference_gateway_pla.Base.Effect.{lift, then_run, then_run-eq-ok}
use ai_inference_gateway_pla.Chunker.{PdfPage, Sizes}
use ai_inference_gateway_pla.VectorStore.{Collection, store_chunks, delete_document_chunks}
use ai_inference_gateway_pla.Documents.{
  Document, update, World, Env, Run, save, save_pages, replace_chunks, called, is_blank,
  parse_pages, store_pages, delete_old, store_new, check_text, set_processing, set_pages, set_ready,
  index_pages, attempt, chunks_of_pages,
}

module _ {C : Collection} where
  save-ok :
      (saved : Option Text) (id : Text) (change : Document → Document) (w : World C) {v : Unit {0}}
      → (save {C = C} saved id change w).1 ≡ ok v
      → (save {C = C} saved id change w).0 ≡ record w { table = update id change w.table }
  save-ok none id change w h = refl
  save-ok (some exception) id change w h = cc

  check_text-ok :
      (pages : List PdfPage) (w : World C) {v : Unit {0}}
      → (check_text {C = C} pages w).1 ≡ ok v
      → (is_blank pages ≡ false) × ((check_text {C = C} pages w).0 ≡ w)
  check_text-ok pages w {v} h = elim (Bool-cases (is_blank pages)) [
    | inl e ↦ let never : ◌≡◌ {A = Result Text (Unit {0})} (err _) (ok v) = rw e at h in cc
    | inr e ↦ (e, rw e refl)
  ]

  called-ok :
      (exception : Text) (w : World C) (r : C.State × Option ℕ) {n : ℕ}
      → (called {C = C} exception w r).1 ≡ ok n
      → r.1 ≡ some n
  called-ok exception w (chunks, count) h = or_raise-eq-ok count exception h

module _ (C : Collection) (settings : Sizes) (env : Env C) where
  abbrev after_delete : World C → Text → C.State
  after_delete w id = (delete_document_chunks C env.delete_reached w.chunks id).0

  abbrev storing : C.State → Text → List PdfPage → C.State × Option ℕ
  storing chunks id pages =
      store_chunks C env.encode env.store_reached chunks (chunks_of_pages settings id pages)

  -- What a run did that raised nothing.
  pub record Success (doc : Document) (w end : World C) : Type 0 where
    pub pages : List PdfPage
    pub parsed : env.parse doc.file_path ≡ ok pages
    pub not_blank : is_blank pages ≡ false
    pub reached : env.delete_reached ≡ true
    pub stored : ℕ
    pub returned : (storing (after_delete w doc.id) doc.id pages).1 ≡ some stored
    pub end_world : end ≡ record {
      table =
          update doc.id
            (set_ready stored)
            (update doc.id (set_pages pages) (update doc.id set_processing w.table));
      chunks = (storing (after_delete w doc.id) doc.id pages).0;
    }

  delete-reached :
      (reached : Bool) (chunks : C.State) (id : Text) {n : ℕ}
      → (delete_document_chunks C reached chunks id).1 ≡ some n
      → reached ≡ true
  unfolding delete_document_chunks
  delete-reached true chunks id h = refl
  delete-reached false chunks id h = cc

  -- A step of a run that returned is one change of the world, and the run goes on from there.
  goes_on :
      {A : Type 0} (first : World C × Result Text A) (rest : A → Run C (Unit {0})) (next : World C)
      {v : Unit {0}}
      → ((a : A) → first.1 ≡ ok a → first.0 ≡ next)
      → (then_run first rest).1 ≡ ok v
      → (a : A) × (first.1 ≡ ok a)
        × ((rest a next).1 ≡ ok v)
        × ((then_run first rest).0 ≡ (rest a next).0)
  goes_on first rest next {v} step h =
      let (a, e, h', q) = then_run-eq-ok first rest h in
      (
        a,
        e,
        subst (λ x. (rest a x).1 ≡ ok v) (step a e) h',
        ap (λ (r : World C × Result Text (Unit {0})). r.0) q ∙ ap (λ x. (rest a x).0) (step a e),
      )

  pub attempt-Success :
      (doc : Document) (w : World C) {v : Unit {0}}
      → (attempt C settings env doc w).1 ≡ ok v
      → Success doc w (attempt C settings env doc w).0
  unfolding attempt
  attempt-Success doc w h =
      let w1 : World C = record w { table = update doc.id set_processing w.table } in
      let (_, _, h1, q1) =
        goes_on (save env.processing_saved doc.id set_processing w)
          (λ _. parse_pages C settings env doc) w1
          (λ a. save-ok env.processing_saved doc.id set_processing w) h in
      let (pages, parsed, h2, q2) =
        goes_on (lift (env.parse doc.file_path) w1)
          (λ pages. index_pages C settings env doc.id pages) w1 (λ a e. refl) h1 in
      let (_, checked, h3, q3) =
        goes_on (check_text pages w1) (λ _. save_pages C settings env doc.id pages) w1
          (λ a e. (check_text-ok pages w1 e).1) h2 in
      let w2 : World C = record w1 { table = update doc.id (set_pages pages) w1.table } in
      let (_, _, h4, q4) =
        goes_on (save env.pages_saved doc.id (set_pages pages) w1)
          (λ _. replace_chunks C settings env doc.id pages) w2
          (λ a. save-ok env.pages_saved doc.id (set_pages pages) w1) h3 in
      let w3 : World C = record w2 { chunks = after_delete w doc.id } in
      let (_, deleted, h5, q5) =
        goes_on (delete_old C settings env doc.id w2) (λ _. store_pages C settings env doc.id pages)
          w3 (λ a e. refl) h4 in
      let w4 : World C = record w3 { chunks = (storing (after_delete w doc.id) doc.id pages).0 } in
      let (stored, returned, h6, q6) =
        goes_on (store_new C settings env doc.id pages w3)
          (λ stored. save env.ready_saved doc.id (set_ready stored)) w4 (λ a e. refl) h5 in
      record {
        pages = pages;
        parsed = parsed;
        not_blank = (check_text-ok pages w1 checked).0;
        reached = delete-reached env.delete_reached w.chunks doc.id (
            called-ok env.exception w2 (delete_document_chunks C env.delete_reached w.chunks doc.id)
              deleted);
        stored = stored;
        returned =
            called-ok env.exception w3 (storing (after_delete w doc.id) doc.id pages) returned;
        end_world =
            q1 ∙ q2 ∙ q3 ∙ q4 ∙ q5 ∙ q6 ∙ save-ok env.ready_saved doc.id (set_ready stored) w4 h6;
      }
