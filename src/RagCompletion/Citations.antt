-- ===== src/RagCompletion/Citations.antt =====
-- `format_citations` cites each document once, by its first hit.
use ai_inference_gateway_pla.Base.{
  ◌≡◌, ◌≢◌, refl, sym, ap, ◌∙◌, inl, inr, Bool, true, false, ◌||◌, Bool-cases, Option, none, some,
  List, [], ◌∷◌, map, first, first-true, first-false, Text, All, text_eq, text_eq→eq, text_eq_refl,
  text_eq_comm,
}
use ai_inference_gateway_pla.Chunker.Ids.{Distinct}
use ai_inference_gateway_pla.VectorStore.{Hit, mem}
use ai_inference_gateway_pla.RagCompletion.{Citation, citation_of, cite, format_citations}

mem_cons_false :
    (d e : Text) (seen : List Text)
    → text_eq e d ≡ false
    → mem d seen ≡ false
    → mem d (e ∷ seen) ≡ false
mem_cons_false d e seen h k = ap (λ b. b || mem d seen) (text_eq_comm d e ∙ h) ∙ k

unseen_tail :
    (d : Text) (seen : List Text) (xs : List Text)
    → All (λ x. mem x (d ∷ seen) ≡ false) xs
    → All (λ x. mem x seen ≡ false) xs × All (λ x. d ≢ x) xs
unseen_tail d seen [] h = (tt, tt)
unseen_tail d seen (x ∷ xs) h =
    let (rest, others) = unseen_tail d seen xs h.1 in
    elim (Bool-cases (text_eq x d)) [
      | inl e ↦ let never : true ≡ false = rw e at h.0 in cc
      | inr e ↦ (
        (ap (λ b. b || mem x seen) (sym e) ∙ h.0, rest),
        (
          λ same.
              let never : true ≡ false = sym (text_eq_refl x) ∙ ap (text_eq x) (sym same) ∙ e in cc,
          others,
        ),
      )
    ]

module _ {Score : Type 0} where
  abbrev pub hit_on : Text → Hit Score → Bool
  hit_on d h = text_eq h.metadata.document_id d

  abbrev pub cites : Text → Citation Score → Bool
  cites d c = text_eq c.document_id d

  abbrev pub cited : Option (Hit Score) → Option (Citation Score)
  cited none = none
  cited (some h) = some (citation_of h)

  cite_old :
      (seen : List Text) (h : Hit Score) (hs : List (Hit Score))
      → mem h.metadata.document_id seen ≡ true
      → cite seen (h ∷ hs) ≡ cite seen hs
  cite_old seen h hs e = rw (e, cite) refl

  cite_new :
      (seen : List Text) (h : Hit Score) (hs : List (Hit Score))
      → mem h.metadata.document_id seen ≡ false
      → cite seen (h ∷ hs) ≡ citation_of h ∷ cite (h.metadata.document_id ∷ seen) hs
  cite_new seen h hs e = rw (e, cite) refl

  cite-first :
      (d : Text) (seen : List Text) (hits : List (Hit Score))
      → mem d seen ≡ false
      → first (cites d) (cite seen hits) ≡ cited (first (hit_on d) hits)
  cite-first d seen [] fresh = refl
  cite-first d seen (h ∷ hs) fresh = elim (Bool-cases (hit_on d h)) [
    | inl e ↦
        let new = ap (λ x. mem x seen) (text_eq→eq h.metadata.document_id d e) ∙ fresh in
        ap (first (cites d)) (cite_new seen h hs new)
        ∙ first-true (cites d) (citation_of h) (cite (h.metadata.document_id ∷ seen) hs) e
        ∙ ap cited (sym (first-true (hit_on d) h hs e))
    | inr e ↦
        elim (Bool-cases (mem h.metadata.document_id seen)) [
          | inl old ↦ ap (first (cites d)) (cite_old seen h hs old) ∙ cite-first d seen hs fresh
          | inr new ↦
              ap (first (cites d)) (cite_new seen h hs new)
              ∙ first-false (cites d) (citation_of h) (cite (h.metadata.document_id ∷ seen) hs) e
              ∙ cite-first d (h.metadata.document_id ∷ seen) hs
                  (mem_cons_false d h.metadata.document_id seen e fresh)
        ]
        ∙ ap cited (sym (first-false (hit_on d) h hs e))
  ]

  abbrev cited_documents : List (Citation Score) → List Text
  cited_documents cs = map (λ (c : Citation Score). c.document_id) cs

  cite-Distinct :
      (seen : List Text) (hits : List (Hit Score))
      → All (λ x. mem x seen ≡ false) (cited_documents (cite seen hits))
        × Distinct (cited_documents (cite seen hits))
  cite-Distinct seen [] = (tt, tt)
  cite-Distinct seen (h ∷ hs) = elim (Bool-cases (mem h.metadata.document_id seen)) [
    | inl old ↦ rw (cite_old seen h hs old) (cite-Distinct seen hs)
    | inr new ↦
        let (unseen, distinct) = cite-Distinct (h.metadata.document_id ∷ seen) hs in
        let (rest, others) =
          unseen_tail h.metadata.document_id seen
            (cited_documents (cite (h.metadata.document_id ∷ seen) hs)) unseen in
        rw (cite_new seen h hs new) ((new, rest), (others, distinct))
  ]

  -- The citations name no document twice, and the citation of a document is that of its first hit:
  -- there is one exactly if some hit is on the document.
  pub format_citations-first :
      (hits : List (Hit Score))
      → Distinct (map (λ (c : Citation Score). c.document_id) (format_citations hits))
        × ((d : Text) → first (cites d) (format_citations hits) ≡ cited (first (hit_on d) hits))
  unfolding format_citations
  format_citations-first hits = ((cite-Distinct [] hits).1, λ d. cite-first d [] hits refl)
