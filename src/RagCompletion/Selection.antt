-- ===== src/RagCompletion/Selection.antt =====
-- The documents that a request selects, and the instructions that a second try loses.
use mathlib.Core.List.{append_assoc}
use ai_inference_gateway_pla.Base.{
  subst, ℕ, ◌+◌, zero, suc, ◌≤◌, ◌≡◌, refl, sym, ap, ◌∙◌, inl, inr, Bool, true, Bool-cases, Option,
  none, some, List, [], ◌∷◌, ◌++◌, map, min, Text, codes, All, All-keep, take, length,
  length-append, arith,
}
use ai_inference_gateway_pla.Chunker.{or_setting}
use ai_inference_gateway_pla.VectorStore.{
  Collection, Hit, Match, mem, hit_of, hits_of, search_chunks,
}
use ai_inference_gateway_pla.RagCompletion.{
  Request, Settings, Streamed, Citation, cite, format_citations, relevant, prompt_head, prompt_tail,
  system_prompt, truncation_notice, Message, Stream, complete_from, context_of,
}
use ai_inference_gateway_pla.RagCompletion.Grounding.{others, IsContext, IsCut}
use ai_inference_gateway_pla.RagCompletion.Asked.{Asks, with_prompt, complete_from-Answers}

-- What the code relies on of a query: the filter on `document_id`, and the number of results.
pub record IsFiltered (C : Collection) : Type 0 where
  pub selected :
      (s : C.State) (e : C.Embedding) (n : ℕ) (document_ids : List Text)
      (matches : List (Match C.Embedding C.Distance))
      → C.query s e n (some document_ids) ≡ some matches
      → All
          (λ (m : Match C.Embedding C.Distance). mem m.row.metadata.document_id document_ids ≡ true)
          matches
  pub few :
      (s : C.State) (e : C.Embedding) (n : ℕ) (filter : Option (List Text))
      (matches : List (Match C.Embedding C.Distance))
      → C.query s e n filter ≡ some matches
      → length matches ≤ n

module _ {Score : Type 0} (document_ids : List Text) where
  abbrev InSelection : Hit Score → Type 0
  InSelection h = mem h.metadata.document_id document_ids ≡ true

  abbrev pub CitesSelection : Citation Score → Type 0
  CitesSelection c = mem c.document_id document_ids ≡ true

  cite-All :
      (seen : List Text) (hits : List (Hit Score))
      → All InSelection hits
      → All CitesSelection (cite seen hits)
  cite-All seen [] h = tt
  cite-All seen (x ∷ xs) h = elim (Bool-cases (mem x.metadata.document_id seen)) [
    | inl old ↦ rw (old, cite) (cite-All seen xs h.1)
    | inr new ↦ rw (new, cite) (h.0, cite-All (x.metadata.document_id ∷ seen) xs h.1)
  ]

module _ {Score : Type 0} (C : Collection) (filtered : IsFiltered C)
    (similarity : C.Distance → Score) (settings : Settings) (passes : Score → Bool)
    (send : Request → Streamed) where
  hits_of-selected :
      (document_ids : List Text) (matches : List (Match C.Embedding C.Distance))
      → All
          (λ (m : Match C.Embedding C.Distance). mem m.row.metadata.document_id document_ids ≡ true)
          matches
      → All (InSelection document_ids) (map (hit_of C similarity) matches)
  hits_of-selected document_ids [] h = tt
  hits_of-selected document_ids (m ∷ ms) h = (h.0, hits_of-selected document_ids ms h.1)

  length-hits :
      (matches : List (Match C.Embedding C.Distance))
      → length (map (hit_of C similarity) matches) ≡ length matches
  length-hits [] = refl
  length-hits (m ∷ ms) = ap suc (length-hits ms)

  search-selected :
      (d : Text) (ds : List Text) (n : ℕ) (r : Option (List (Match C.Embedding C.Distance)))
      (s : C.State) (e : C.Embedding)
      → C.query s e (min n 50) (some (d ∷ ds)) ≡ r
      → All (InSelection (d ∷ ds)) (hits_of C similarity r) × (length (hits_of C similarity r) ≤ 50)
  search-selected d ds n none s e found = (tt, omega arith)
  search-selected d ds n (some ms) s e found = (
    hits_of-selected (d ∷ ds) ms (filtered.selected s e (min n 50) (d ∷ ds) ms found),
    omega (arith, length-hits ms, filtered.few s e (min n 50) (some (d ∷ ds)) ms found),
  )

  -- Where documents are selected, every citation of an answer names one of them, and the search
  -- finds fifty chunks at most, whatever number of results is asked for. This takes that a query
  -- keeps to its filter and its number of results.
  pub citations_in_selection :
      (s : C.State) (e : C.Embedding) (top_k : Option ℕ) (rag_top_k : ℕ) (d : Text) (ds : List Text)
      → All (CitesSelection (d ∷ ds)) (
          format_citations (
            relevant settings passes send
              (search_chunks C similarity s e top_k rag_top_k (d ∷ ds))))
        × (length (search_chunks C similarity s e top_k rag_top_k (d ∷ ds)) ≤ 50)
  unfolding search_chunks format_citations
  citations_in_selection s e top_k rag_top_k d ds =
      let n = or_setting top_k rag_top_k in
      let found = search-selected d ds n (C.query s e (min n 50) (some (d ∷ ds))) s e refl in
      let hits = hits_of C similarity (C.query s e (min n 50) (some (d ∷ ds))) in
      (
        cite-All (d ∷ ds) [] (relevant settings passes send hits)
            (All-keep (λ (h : Hit Score). passes h.score) (InSelection (d ∷ ds)) hits found.0),
        found.1,
      )

take-append_left :
    {A : Type 0} (n : ℕ) (xs ys : List A) → n ≤ length xs → take n (xs ++ ys) ≡ take n xs
take-append_left zero xs ys h = refl
take-append_left (suc n) [] ys h = absurd (omega arith)
take-append_left (suc n) (x ∷ xs) ys h = ap (◌∷◌ x) (take-append_left n xs ys (omega arith))

cut_before :
    (front back content : Text)
    → 1 ≤ length back
    → 2000 ≤ length front
    → IsCut (front ++ back) content
    → content ≡ take 2000 front ++ truncation_notice
cut_before front back content full long (inl (short, same)) =
    absurd (omega (arith, length-append front back, short, full, long))
cut_before front back content full long (inr (_, same)) =
    same ∙ ap (λ t. t ++ truncation_notice) (take-append_left 2000 front back long)

-- The cut leaves the beginning of the template and of the context.
cut_prompt :
    (limit : ℕ) (whole context content : Text)
    → 2000 ≤ length prompt_head + min limit (length whole)
    → IsContext limit whole context
    → IsCut (system_prompt context) content
    → content ≡ take 2000 (prompt_head ++ whole) ++ truncation_notice
cut_prompt limit whole context content long (measured, (rest, front)) cut =
    let reaches : 2000 ≤ length (prompt_head ++ context) =
      omega (arith, length-append prompt_head context, measured, long) in
    cut_before (prompt_head ++ context) prompt_tail content (omega arith) reaches
      (subst (λ t. IsCut t content) (sym (append_assoc prompt_head context prompt_tail)) cut)
    ∙ ap (λ t. t ++ truncation_notice)
        (sym (take-append_left 2000 (prompt_head ++ context) rest reaches)
          ∙ ap (take 2000)
              (append_assoc prompt_head context rest ∙ ap (λ t. prompt_head ++ t) (sym front)))

module _ {Score : Type 0} (settings : Settings) (passes : Score → Bool)
    (send : Request → Streamed) where
  two_requests :
      (model : Text) (n : ℕ) (messages : List Message) (prompt : Text) (r again : Request)
      (s : Stream Score)
      → Asks settings passes send model n messages prompt s
      → s.requests ≡ r ∷ again ∷ []
      → (content : Text) × IsCut prompt content
        × (again.messages ≡ with_prompt settings passes send content messages)
  two_requests model n messages prompt r again s (inl (_, e, _)) h =
      let never : [] ≡ r ∷ again ∷ [] = sym e ∙ h in cc
  two_requests model n messages prompt r again s (inr (first, _, inl (_, e, _))) h =
      let never : first ∷ [] ≡ r ∷ again ∷ [] = sym e ∙ h in cc
  two_requests model n messages prompt r again s
        (inr (first, _, inr (_, (content, cut, inl (_, e, _))))) h =
      let never : first ∷ [] ≡ r ∷ again ∷ [] = sym e ∙ h in cc
  two_requests model n messages prompt r again s
        (inr (first, _, inr (_, (content, cut, inr (second, is_request, e, _))))) h =
      let both : first ∷ second ∷ [] ≡ r ∷ again ∷ [] = sym e ∙ h in
      let same : second ≡ again = cc in
      (content, cut, ap (λ (x : Request). x.messages) (sym same) ∙ is_request.messages_sent)

  -- A second try is sent without any of the instructions where the context fills the first 2,000
  -- characters of the prompt: behind the beginning of the template its system message has the
  -- beginning of the context and the notice, and nothing else.
  pub retry_without_instructions :
      (hits : List (Hit Score)) (messages : List Message) (model : Text) (n : ℕ) (r again : Request)
      → (complete_from settings passes send messages model n hits).requests ≡ r ∷ again ∷ []
      → 2000
        ≤ length prompt_head
          + min settings.rag_max_context_chars
              (length (context_of (relevant settings passes send hits)))
      → again.messages
        ≡ record {
          role = codes "system";
          content =
              take 2000 (prompt_head ++ context_of (relevant settings passes send hits))
              ++ truncation_notice;
        }
          ∷ others messages
  retry_without_instructions hits messages model n r again sent long =
      elim (complete_from-Answers settings passes send hits messages model n) [
        | inl (_, same) ↦
            let never : [] ≡ r ∷ again ∷ [] =
              ap (λ (x : Stream Score). x.requests) (sym same) ∙ sent in
            cc
        | inr (_, _, (context, is_context, asks)) ↦
            let (content, cut, e) =
              two_requests model n messages (system_prompt context) r again
                (complete_from settings passes send messages model n hits) asks sent in
            e
            ∙ ap (λ t. record { role = codes "system"; content = t } ∷ others messages)
                (cut_prompt settings.rag_max_context_chars
                  (context_of (relevant settings passes send hits)) context content long is_context
                  cut)
      ]
