-- ===== src/Documents/Tests.antt =====
-- A document that is processed again, beside the chunk of another one.
use mathlib.Core.Option.{some-injective}
use ai_inference_gateway_pla.Base.{
  length-map, ℕ, ◌≡◌, refl, sym, ap, subst, ◌∙◌, inl, inr, true, false, Option, none, some, List,
  [], ◌∷◌, map, Text, codes, length, text_eq, if◌then◌else◌, decimal, strip, lstrip, is_space,
}
use ai_inference_gateway_pla.Base.Result.{ok}
use ai_inference_gateway_pla.Chunker.{
  Sizes, chunk_id, chunk_pages, chunk_document, chunks_of, add_paragraph,
}
use ai_inference_gateway_pla.Chunker.Split.{split_paragraphs, paragraph_parts, break_length}
use ai_inference_gateway_pla.VectorStore.{store_chunks, delete_document_chunks, chunked}
use ai_inference_gateway_pla.VectorStore.Stored.{Deletes}
use ai_inference_gateway_pla.VectorStore.Toy.{ToyRow, toy, toy-IsLawful}
use ai_inference_gateway_pla.Documents.{uploaded, Document, World, Env, attempt, sync_process}
use ai_inference_gateway_pla.Documents.Outcome.{IsSettled, sync_process-IsSettled}
use ai_inference_gateway_pla.Documents.Refinement.{IsReplaced, sync_process-refines}
use ai_inference_gateway_pla.Documents.Naming.{IsNamed, IsNamedRow, named-In, sync_process-IsNamed}
use ai_inference_gateway_pla.Documents.Exact.{IsExact, sync_process-IsExact}

abbrev doc_id : Text
doc_id = codes "123e4567-e89b-12d3-a456-426614174000"

abbrev other_id : Text
other_id = codes "223e4567-e89b-12d3-a456-426614174000"

abbrev row_for : Text → ToyRow
row_for id = record {
  id = chunk_id id 0;
  embedding = 3;
  metadata = record { document_id = id; chunk_index = 0; page_number = 1 };
  document = codes "Old";
}

abbrev doc : Document
doc = record {
  id = doc_id;
  file_path = codes "a.pdf";
  page_count = none;
  chunk_count = 1;
  status = uploaded;
  error_message = [];
}

abbrev world : World toy
world = record {
  table = λ key. if text_eq key doc_id then some doc else none;
  chunks = row_for doc_id ∷ row_for other_id ∷ [];
}

abbrev lengths : List Text → Option (List ℕ)
lengths texts = some (map length texts)

lengths_fit : (texts : List Text) (es : List ℕ) → lengths texts ≡ some es → length es ≡ length texts
lengths_fit texts es h =
    ap length (sym (some-injective (map length texts) es h)) ∙ length-map length texts

abbrev settings : Sizes
settings = record { chunk_size = 20; chunk_overlap = 5 }

abbrev env : Env toy
env = record {
  parse = λ path. ok (record { page_number = 1; text = codes "New text." } ∷ []);
  encode = lengths;
  delete_reached = true;
  store_reached = true;
  exception = codes "unreachable";
  processing_saved = none;
  pages_saved = none;
  ready_saved = none;
  failed_saved = none;
}

found : world.table doc.id ≡ some doc
found = refl

returned : (attempt toy settings env doc world).1 ≡ ok tt
unfolding attempt store_chunks chunked delete_document_chunks chunk_pages chunk_document chunks_of
    add_paragraph split_paragraphs paragraph_parts break_length strip lstrip is_space decimal
returned = refl

deletes : Deletes toy toy-IsLawful world.chunks doc.id
unfolding decimal
deletes = (chunk_id doc_id 0 ∷ [], refl, refl)

row_for-IsNamedRow :
    (id key : Text) (row : ToyRow)
    → length id ≡ 36
    → row ≡ row_for id
    → row.id ≡ key
    → IsNamedRow key row
row_for-IsNamedRow id key row uuid same at_key = (
  (
    0,
    sym at_key ∙ subst (λ (r : ToyRow). r.id ≡ chunk_id r.metadata.document_id 0) (sym same) refl,
  ),
  ap (λ (r : ToyRow). length r.metadata.document_id) same ∙ uuid,
)

world-IsNamed : IsNamed toy world.chunks
world-IsNamed key row there =
    let (i, at_key) = named-In key world.chunks {row = row} there in
    elim i [
      | inl same ↦ row_for-IsNamedRow doc_id key row refl same at_key
      | inr (inl same) ↦ row_for-IsNamedRow other_id key row refl same at_key
      | inr (inr never) ↦ absurd never
    ]

sync_process-IsSettled_example :
    ((end : Document) × ((sync_process toy settings env doc.id world).table doc.id ≡ some end)
      × IsSettled (attempt toy settings env doc world).1 end)
    × ((key : Text)
        → text_eq key doc.id ≡ false
        → (sync_process toy settings env doc.id world).table key ≡ world.table key)
sync_process-IsSettled_example = sync_process-IsSettled toy settings env doc world found refl

sync_process-refines_example :
    IsReplaced toy toy-IsLawful settings env lengths_fit doc world
      (sync_process toy settings env doc.id world)
sync_process-refines_example =
    sync_process-refines toy toy-IsLawful settings env lengths_fit doc world found returned deletes

sync_process-IsNamed_example : IsNamed toy (sync_process toy settings env doc.id world).chunks
sync_process-IsNamed_example =
    sync_process-IsNamed toy toy-IsLawful settings env lengths_fit doc world found refl
      world-IsNamed

sync_process-IsExact_example :
    IsExact toy toy-IsLawful settings env lengths_fit doc world
      (sync_process toy settings env doc.id world)
sync_process-IsExact_example =
    sync_process-IsExact toy toy-IsLawful settings env lengths_fit doc world found refl
      world-IsNamed returned deletes
