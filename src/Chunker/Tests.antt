-- ===== src/Chunker/Tests.antt =====
-- The chunker on a page of two paragraphs, with chunks of ten characters.
use ai_inference_gateway_pla.Base.{
  ◌≡◌, refl, none, List, [], ◌∷◌, Text, codes, All, join, map, length, arith, strip, lstrip,
  is_space, solid, decimal,
}
use ai_inference_gateway_pla.Chunker.Split.{
  split_sentences, sentence_parts, split_paragraphs, paragraph_parts, break_length,
}
use ai_inference_gateway_pla.Chunker.Kept.Loops.{Stands, chunk_document-Stand}
use ai_inference_gateway_pla.Chunker.Bounds.{Within, chunk_document-Within}
use ai_inference_gateway_pla.Chunker.Ids.{Distinct, count_from, chunk_pages-Distinct}
use ai_inference_gateway_pla.Chunker.{
  Chunk, PdfPage, Sizes, chunk_document, chunk_pages, chunks_of, add_paragraph, add_paragraphs,
  add_sentence, add_sentences, compute_overlap, grow_overlap,
}

abbrev page_text : Text
page_text = codes "One two.\n \nFour. Five six. Seven."

abbrev ten : Sizes
ten = record { chunk_size = 10; chunk_overlap = 9 }

abbrev pages : List PdfPage
pages =
    record { page_number = 1; text = page_text }
    ∷ record { page_number = 2; text = codes "Aha! Oh." }
    ∷ []

two_paragraphs : split_paragraphs page_text ≡ codes "One two." ∷ codes "Four. Five six. Seven." ∷ []
unfolding split_paragraphs paragraph_parts break_length strip lstrip is_space
two_paragraphs = refl

-- The second paragraph is not cut into sentences, since text was gathered before it.
four_chunks :
    map {B = Text × Text}
      (λ (c : Chunk). (c.id, c.text))
      (chunk_pages ten (codes "d") none none pages)
    ≡ (codes "d_chunk_0", codes "One two.")
      ∷ (codes "d_chunk_1", codes "One two.\n\nFour. Five six. Seven.")
      ∷ (codes "d_chunk_2", codes "Aha! Oh.")
      ∷ []
unfolding chunk_pages chunk_document chunks_of add_paragraphs add_paragraph add_sentences
    add_sentence compute_overlap grow_overlap split_paragraphs paragraph_parts break_length
    split_sentences sentence_parts strip lstrip is_space decimal
four_chunks = refl

-- Two paragraphs may fill a chunk one character beyond its size.
one_too_many :
    map
      (λ (c : Chunk). length c.text)
      (chunk_document ten (codes "d") none none (codes "abcd\n\nefghi") 1)
    ≡ 11 ∷ []
unfolding chunk_document chunks_of add_paragraphs add_paragraph split_paragraphs paragraph_parts
    break_length strip lstrip is_space
one_too_many = refl

chunk_document-Stand_example :
    (solid (join (split_paragraphs page_text)) ≡ solid page_text)
    × All
        (λ para. Stands 10 para (chunk_document ten (codes "d") none none page_text 1))
        (split_paragraphs page_text)
chunk_document-Stand_example = chunk_document-Stand ten (codes "d") none none page_text 1

chunk_document-Within_example :
    All (λ (c : Chunk). Within 33 c.text) (chunk_document ten (codes "d") none none page_text 1)
chunk_document-Within_example =
    chunk_document-Within ten (codes "d") none none page_text 1 22 short_paragraphs
  where
    short_paragraphs : All (Within 22) (split_paragraphs page_text)
    short_paragraphs = rw two_paragraphs (omega arith)

chunk_pages-Distinct_example :
    Distinct (map (λ (c : Chunk). c.id) (chunk_pages ten (codes "d") none none pages))
    × (map (λ (c : Chunk). c.chunk_index) (chunk_pages ten (codes "d") none none pages)
        ≡ count_from 0 (length (chunk_pages ten (codes "d") none none pages)))
chunk_pages-Distinct_example = chunk_pages-Distinct ten (codes "d") none none pages
