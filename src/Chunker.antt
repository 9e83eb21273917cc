-- ===== src/Chunker.antt =====
-- `chunk_document`, `chunk_pages` and their helpers of apps/rag/services/chunker.py. The two
-- regular expressions are automata over the characters; sizes are natural numbers, as the settings
-- give them.
use mathlib.Core.List.{reverse}
use ai_inference_gateway_pla.Base.{
  ℕ, zero, suc, ◌+◌, ◌-◌, Bool, true, false, ◌&&◌, ◌||◌, Option, none, some, List, [], ◌∷◌, ◌++◌,
  map, Text, codes, length, keep, strip, is_space, ltb, leb, ◌==◌, if◌then◌else◌, decimal, not,
}
use ai_inference_gateway_pla.Chunker.Split.{split_sentences, split_paragraphs}
pub mod Split
pub mod Lossless
pub mod Pieces
pub mod Overlap
pub mod Kept
pub mod Bounds
pub mod Ids
mod Tests

pub record Chunk : Type 0 where
  pub text : Text
  pub page_number : ℕ
  pub chunk_index : ℕ
  pub document_id : Text
  pub id : Text

-- `f"{document_id}_chunk_{chunk_index}"`
abbrev pub chunk_id : Text → ℕ → Text
chunk_id document_id chunk_index = document_id ++ (codes "_chunk_" ++ decimal chunk_index)

-- `Chunk.__init__`
abbrev pub new_chunk : Text → ℕ → ℕ → Text → Chunk
new_chunk text page_number chunk_index document_id = record {
  text = text;
  page_number = page_number;
  chunk_index = chunk_index;
  document_id = document_id;
  id = chunk_id document_id chunk_index;
}

-- `PdfPage` of apps/rag/services/pdf_parser.py
pub record PdfPage : Type 0 where
  pub page_number : ℕ
  pub text : Text

abbrev pub is_empty : Text → Bool
is_empty [] = true
is_empty (c ∷ s) = false

-- `value or setting`, where 0 is falsy
abbrev pub or_setting : Option ℕ → ℕ → ℕ
or_setting none setting = setting
or_setting (some n) setting = if n == 0 then setting else n

-- `sent + " " + overlap if overlap else sent`
abbrev pub candidate_of : Text → Text → Text
candidate_of sent overlap = if is_empty overlap then sent else sent ++ (codes " " ++ overlap)

-- The loop of `_compute_overlap`, on the sentences from the last to the first.
pub grow_overlap : ℕ → Text → List Text → Text
grow_overlap limit overlap [] = overlap
grow_overlap limit overlap (sent ∷ sents) =
    let rest = grow_overlap limit (candidate_of sent overlap) sents in
    if ltb limit (length (candidate_of sent overlap)) then overlap else rest

-- `_compute_overlap`
unfoldable pub compute_overlap : Text → ℕ → Text
unfolding grow_overlap
compute_overlap text limit =
    if (limit == 0) || is_empty text
    then []
    else strip (grow_overlap limit [] (reverse (split_sentences text)))

-- `chunks`, `chunk_index` and `current_chunk`
pub record Progress : Type 0 where
  pub chunks : List Chunk
  pub index : ℕ
  pub current : Text

abbrev pub start : Progress
start = record { chunks = []; index = 0; current = [] }

-- `current_chunk += separator + added`, or `current_chunk = added`
abbrev pub joined : Text → Text → Text → Text
joined separator current added = if is_empty current then added else current ++ (separator ++ added)

module _ (chunk_size chunk_overlap page_number : ℕ) (document_id : Text) where
  -- `chunks.append(Chunk(text=current_chunk.strip(), ...))` and `chunk_index += 1`
  abbrev pub emit : Progress → Progress
  emit p = record p {
    chunks = p.chunks ++ (new_chunk (strip p.current) page_number p.index document_id ∷ []);
    index = suc p.index;
  }

  -- `if current_chunk:` around it
  abbrev pub emit_some : Progress → Progress
  emit_some p = if is_empty p.current then p else emit p

  -- `len(current_chunk) + len(added) + 1 <= chunk_size`
  abbrev pub fits : Text → Text → Bool
  fits current added = leb (length current + length added + 1) chunk_size

  -- The body of the loop over the sentences of a paragraph that is too long.
  unfoldable pub add_sentence : Progress → Text → Progress
  add_sentence p sent =
      if fits p.current sent
      then record p { current = joined (codes " ") p.current sent }
      else record (emit_some p) { current = sent }

  pub add_sentences : Progress → List Text → Progress
  add_sentences p [] = p
  add_sentences p (sent ∷ sents) = add_sentences (add_sentence p sent) sents

  -- `overlap_text + "\n\n" + para if overlap_text else para`, behind the chunk that is emitted
  abbrev pub restart : Progress → Text → Progress
  restart p para = record (emit p) {
    current = joined (codes "\n\n") (compute_overlap p.current chunk_overlap) para;
  }

  -- The body of the loop over the paragraphs.
  unfoldable pub add_paragraph : Progress → Text → Progress
  unfolding add_sentences
  add_paragraph p para =
      if is_empty para
      then p
      else if fits p.current para
      then record p { current = joined (codes "\n\n") p.current para }
      else if is_empty p.current
      then add_sentences p (split_sentences para)
      else restart p para

  pub add_paragraphs : Progress → List Text → Progress
  add_paragraphs p [] = p
  add_paragraphs p (para ∷ paras) = add_paragraphs (add_paragraph p para) paras

  unfoldable pub chunks_of : Text → List Chunk
  unfolding add_paragraphs
  chunks_of text = (emit_some (add_paragraphs start (split_paragraphs text))).chunks

-- `settings.RAG_CHUNK_SIZE` and `settings.RAG_CHUNK_OVERLAP`
pub record Sizes : Type 0 where
  pub chunk_size : ℕ
  pub chunk_overlap : ℕ

module _ (settings : Sizes) (document_id : Text) (chunk_size chunk_overlap : Option ℕ) where
  unfoldable pub chunk_document : Text → ℕ → List Chunk
  unfolding chunks_of
  chunk_document text page_number =
      chunks_of (or_setting chunk_size settings.chunk_size)
        (or_setting chunk_overlap settings.chunk_overlap) page_number document_id text

  abbrev pub all_chunks : List PdfPage → List Chunk
  all_chunks [] = []
  all_chunks (page ∷ pages) = chunk_document page.text page.page_number ++ all_chunks pages

  -- The loop over `enumerate(all_chunks)`.
  abbrev pub renumber : ℕ → List Chunk → List Chunk
  renumber i [] = []
  renumber i (chunk ∷ chunks) =
      record chunk { chunk_index = i; id = chunk_id chunk.document_id i } ∷ renumber (suc i) chunks

  unfoldable pub chunk_pages : List PdfPage → List Chunk
  unfolding chunk_document
  chunk_pages pages = renumber 0 (all_chunks pages)
