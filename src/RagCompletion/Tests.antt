-- ===== src/RagCompletion/Tests.antt =====
-- An answer from three hits on two documents, of which one is too far away.
use mathlib.Core.Option.{some-injective}
use ai_inference_gateway_pla.Base.{
  length-append, ltb, false, ℕ, ◌≤◌, ◌≡◌, refl, ap, true, none, some, List, [], ◌∷◌, ◌++◌, map,
  first, Text, codes, All, keep-All, length, take, leb, keep, subst, zero, suc, length-take, arith,
  decimal,
}
use ai_inference_gateway_pla.Chunker.Ids.{Distinct}
use ai_inference_gateway_pla.VectorStore.{Hit, Match, mem, search_chunks}
use ai_inference_gateway_pla.VectorStore.Toy.{ToyRow, toy, match_of, in_filter}
use ai_inference_gateway_pla.RagCompletion.{
  Message, Request, Settings, Streamed, Stream, upstream_http_error, Citation, complete_from,
  format_citations, build_augmented_prompt, relevant, prompt_head, system_prompt, truncation_notice,
  prompt_tail, found,
}
use ai_inference_gateway_pla.Completion.Request.{apply_defaults_and_clamp}
use ai_inference_gateway_pla.RagCompletion.Citations.{cites, cited, hit_on, format_citations-first}
use ai_inference_gateway_pla.RagCompletion.Asked.{Answers, complete_from-Answers}
use ai_inference_gateway_pla.RagCompletion.Selection.{
  IsFiltered, CitesSelection, citations_in_selection, retry_without_instructions,
}

abbrev hit : Text → ℕ → ℕ → Hit ℕ
hit d page score = record {
  id = d;
  text = codes "text";
  metadata = record { document_id = d; chunk_index = 0; page_number = page };
  score = score;
}

abbrev hits : List (Hit ℕ)
hits = hit (codes "a") 1 90 ∷ hit (codes "b") 2 10 ∷ hit (codes "a") 3 80 ∷ []

abbrev settings : Settings
settings = record {
  rag_top_k = 5;
  rag_max_context_chars = 8000;
  hard_max_tokens = 512;
  default_max_tokens = 128;
}

abbrev question : List Message
question = record { role = codes "user"; content = codes "why?" } ∷ []

abbrev refuse : Request → Streamed
refuse r = record { chunks = []; raised = some (upstream_http_error 400) }

abbrev stream : Stream ℕ
stream = complete_from settings (leb 25) refuse question (codes "default") 512 hits

one_citation :
    (stream.events
      ≡ found 2 (record { document_id = codes "a"; page = 1; relevance_score = 90 } ∷ []) ∷ [])
    × (map (λ (r : Request). r.max_tokens) stream.requests ≡ 512 ∷ 128 ∷ [])
unfolding complete_from format_citations build_augmented_prompt apply_defaults_and_clamp decimal
one_citation = (refl, refl)

format_citations-first_example :
    Distinct (map (λ (c : Citation ℕ). c.document_id) (format_citations hits))
    × ((d : Text) → first (cites d) (format_citations hits) ≡ cited (first (hit_on d) hits))
format_citations-first_example = format_citations-first hits

complete_from-Answers_example :
    Answers settings (leb 25) refuse hits question (codes "default") 512 stream
complete_from-Answers_example =
    complete_from-Answers settings (leb 25) refuse hits question (codes "default") 512

long_text : ℕ → Text
long_text zero = []
long_text (suc n) = b'a' ∷ long_text n

length-long_text : (n : ℕ) → length (long_text n) ≡ n
unfolding long_text
length-long_text zero = refl
length-long_text (suc n) = omega (arith, length-long_text n)

abbrev long_hits : List (Hit ℕ)
long_hits =
    record {
      id = codes "a";
      text = long_text 2000;
      metadata = record { document_id = codes "a"; chunk_index = 0; page_number = 1 };
      score = 90;
    }
    ∷ []

abbrev long_context : Text
long_context = codes "[Source: a, page 1]\n" ++ long_text 2000

length-long_context : length long_context ≡ 2020
length-long_context = omega (arith, length-long_text 2000)

abbrev sent_with : ℕ → Text → Request
sent_with n content = record {
  model = codes "default";
  messages = record { role = codes "system"; content = content } ∷ question;
  max_tokens = n;
}

two_sent :
    (complete_from settings (leb 25) refuse question (codes "default") 512 long_hits).requests
    ≡ sent_with 512 (system_prompt long_context)
      ∷ sent_with 128 (take 2000 (system_prompt long_context) ++ truncation_notice)
      ∷ []
unfolding complete_from format_citations build_augmented_prompt apply_defaults_and_clamp decimal
two_sent =
    let uncut : ltb 8000 (length long_context) ≡ false = ground (arith, length-long_context) in
    let long : ltb 2000 (length (system_prompt long_context)) ≡ true =
      ground (arith, length-long_context, length-append long_context prompt_tail) in
    rw (uncut, long) refl

retry_without_instructions_example :
    (sent_with 128 (take 2000 (system_prompt long_context) ++ truncation_notice)).messages
    ≡ record {
      role = codes "system";
      content = take 2000 (prompt_head ++ long_context) ++ truncation_notice;
    }
      ∷ question
unfolding decimal
retry_without_instructions_example =
    retry_without_instructions settings (leb 25) refuse long_hits question (codes "default") 512
      (sent_with 512 (system_prompt long_context))
      (sent_with 128 (take 2000 (system_prompt long_context) ++ truncation_notice)) two_sent
      (omega (arith, length-long_context))

-- The toy collection keeps to the filter and to the number of results.
taken_matches :
    (n : ℕ) (document_ids : List Text) (rows : List ToyRow)
    → All (λ (r : ToyRow). mem r.metadata.document_id document_ids ≡ true) rows
    → All
        (λ (m : Match ℕ ℕ). mem m.row.metadata.document_id document_ids ≡ true)
        (take n (map match_of rows))
taken_matches zero document_ids rows h = tt
taken_matches (suc n) document_ids [] h = tt
taken_matches (suc n) document_ids (r ∷ rows) h = (h.0, taken_matches n document_ids rows h.1)

toy-IsFiltered : IsFiltered toy
toy-IsFiltered = record {
  selected = λ s e n document_ids matches h.
      subst (All (λ (m : Match ℕ ℕ). mem m.row.metadata.document_id document_ids ≡ true))
        (some-injective (take n (map match_of (keep (in_filter (some document_ids)) s))) matches h)
        (taken_matches n document_ids (keep (in_filter (some document_ids)) s)
          (keep-All (in_filter (some document_ids)) s));
  few = λ s e n filter matches h. omega (
    arith,
    length-take n (map match_of (keep (in_filter filter) s)),
    ap length (some-injective (take n (map match_of (keep (in_filter filter) s))) matches h),
  );
}

abbrev stored : List ToyRow
stored =
    record {
      id = codes "a_chunk_0";
      embedding = 1;
      metadata = record { document_id = codes "a"; chunk_index = 0; page_number = 1 };
      document = codes "text";
    }
    ∷ record {
      id = codes "b_chunk_0";
      embedding = 2;
      metadata = record { document_id = codes "b"; chunk_index = 0; page_number = 1 };
      document = codes "text";
    }
    ∷ []

citations_in_selection_example :
    All (CitesSelection (codes "b" ∷ [])) (
      format_citations (
        relevant settings
          (leb 1)
          refuse
          (search_chunks toy (λ d. d) stored 7 none 5 (codes "b" ∷ []))))
    × (length (search_chunks toy (λ d. d) stored 7 none 5 (codes "b" ∷ [])) ≤ 50)
citations_in_selection_example =
    citations_in_selection toy toy-IsFiltered (λ d. d) settings (leb 1) refuse stored 7 none 5
      (codes "b") []
