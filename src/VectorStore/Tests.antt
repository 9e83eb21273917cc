-- ===== src/VectorStore/Tests.antt =====
-- The vector store on the toy collection.
use ai_inference_gateway_pla.Base.{
  length-map, ℕ, ◌≡◌, refl, sym, ap, ◌∙◌, true, Option, some, List, [], ◌∷◌, map, Text, codes,
  length, decimal,
}
use ai_inference_gateway_pla.Chunker.{Chunk, new_chunk}
use ai_inference_gateway_pla.VectorStore.{store_chunks, add_batches, chunked, batches}
use ai_inference_gateway_pla.VectorStore.Stored.{IsStored, store_chunks-IsStored}
use ai_inference_gateway_pla.VectorStore.Toy.{toy, toy-IsLawful}
use mathlib.Core.Option.{some-injective}

abbrev two_chunks : List Chunk
two_chunks =
    new_chunk (codes "One.") 1 0 (codes "d") ∷ new_chunk (codes "Two.") 2 1 (codes "d") ∷ []

abbrev pub lengths : List Text → Option (List ℕ)
lengths texts = some (map length texts)

pub lengths_fit :
    (texts : List Text) (es : List ℕ) → lengths texts ≡ some es → length es ≡ length texts
lengths_fit texts es h =
    ap length (sym (some-injective (map length texts) es h)) ∙ length-map length texts

five_batches :
    chunked {A = ℕ} (1 ∷ 2 ∷ 3 ∷ 4 ∷ 5 ∷ []) 2 ≡ (1 ∷ 2 ∷ []) ∷ (3 ∷ 4 ∷ []) ∷ (5 ∷ []) ∷ []
unfolding chunked batches
five_batches = refl

both_stored : (store_chunks toy lengths true [] two_chunks).1 ≡ some 2
unfolding store_chunks add_batches chunked batches decimal
both_stored = refl

store_chunks-IsStored_example :
    IsStored toy toy-IsLawful lengths [] two_chunks (store_chunks toy lengths true [] two_chunks)
store_chunks-IsStored_example =
    store_chunks-IsStored toy toy-IsLawful lengths lengths_fit true [] two_chunks
