-- ===== src/VectorStore/Toy.antt =====
-- A collection that is a list of rows: it shows that the laws can hold, and runs in tests.
use mathlib.Core.Option.{some-injective}
use ai_inference_gateway_pla.Base.{
  ℕ, ◌≡◌, refl, sym, ap, ◌∙◌, inl, inr, Bool, true, false, ◌||◌, not, Bool-cases, Option, none,
  some, List, [], ◌∷◌, ◌++◌, map, keep, keep-true, keep-false, take, Text, text_eq, text_eq→eq,
  text_eq_comm, if◌then◌else◌,
}
use ai_inference_gateway_pla.VectorStore.{
  Row, Metadata, Match, mem, named, or_else, owns, Collection, IsLawful, row_ids, row_embeddings,
  row_metadatas, row_documents,
}
use ai_inference_gateway_pla.VectorStore.Batches.{named-append}

abbrev pub ToyRow : Type 0
ToyRow = Row ℕ

abbrev pub zip_rows : List Text → List ℕ → List Metadata → List Text → List ToyRow
zip_rows [] es ms ts = []
zip_rows (id ∷ ids) [] ms ts = []
zip_rows (id ∷ ids) (e ∷ es) [] ts = []
zip_rows (id ∷ ids) (e ∷ es) (m ∷ ms) [] = []
zip_rows (id ∷ ids) (e ∷ es) (m ∷ ms) (t ∷ ts) =
    record { id = id; embedding = e; metadata = m; document = t } ∷ zip_rows ids es ms ts

abbrev pub own_ids : Text → List ToyRow → List ToyRow → List Text
own_ids document_id s rows =
    map (λ (r : ToyRow). r.id) (keep (λ (r : ToyRow). owns document_id (named r.id s)) rows)

abbrev pub kept_rows : List Text → List ToyRow → List ToyRow
kept_rows ids rows = keep (λ (r : ToyRow). not (mem r.id ids)) rows

abbrev pub in_filter : Option (List Text) → ToyRow → Bool
in_filter none row = true
in_filter (some document_ids) row = mem row.metadata.document_id document_ids

abbrev pub match_of : ToyRow → Match ℕ ℕ
match_of row = record { row = row; distance = row.embedding }

abbrev pub toy : Collection
toy = record {
  State = List ToyRow;
  Embedding = ℕ;
  Distance = ℕ;
  get = λ s id. named id s;
  add = λ s ids es ms ts. (s ++ zip_rows ids es ms ts, true);
  ids_of = λ s document_id. some (own_ids document_id s s);
  delete = λ s ids. (kept_rows ids s, true);
  query = λ s e n filter. some (take n (map match_of (keep (in_filter filter) s)));
}

zip_rows-columns :
    (rows : List ToyRow)
    → zip_rows (row_ids rows) (row_embeddings rows) (row_metadatas rows) (row_documents rows) ≡ rows
zip_rows-columns [] = refl
zip_rows-columns (row ∷ rows) = ap (◌∷◌ row) (zip_rows-columns rows)

toy_get-add :
    (s rows : List ToyRow) (id : Text)
    → named id (
        s
        ++ zip_rows (row_ids rows) (row_embeddings rows) (row_metadatas rows) (row_documents rows))
      ≡ or_else (named id s) (named id rows)
toy_get-add s rows id = ap (λ l. named id (s ++ l)) (zip_rows-columns rows) ∙ named-append id s rows

module _ (document_id : Text) (s : List ToyRow) where
  abbrev is_own : ToyRow → Bool
  is_own r = owns document_id (named r.id s)

  own_ids_kept :
      (r : ToyRow) (rows : List ToyRow)
      → is_own r ≡ true
      → own_ids document_id s (r ∷ rows) ≡ r.id ∷ own_ids document_id s rows
  own_ids_kept r rows h = ap (map (λ (x : ToyRow). x.id)) (keep-true is_own r rows h)

  own_ids_dropped :
      (r : ToyRow) (rows : List ToyRow)
      → is_own r ≡ false
      → own_ids document_id s (r ∷ rows) ≡ own_ids document_id s rows
  own_ids_dropped r rows h = ap (map (λ (x : ToyRow). x.id)) (keep-false is_own r rows h)

  mem-here :
      (id : Text) (r : ToyRow) (ids : List Text)
      → text_eq r.id id ≡ true
      → mem id (r.id ∷ ids) ≡ true
  mem-here id r ids e = ap (λ b. b || mem id ids) (text_eq_comm id r.id ∙ e)

  mem-later :
      (id : Text) (r : ToyRow) (ids : List Text)
      → text_eq r.id id ≡ false
      → mem id (r.id ∷ ids) ≡ mem id ids
  mem-later id r ids e = ap (λ b. b || mem id ids) (text_eq_comm id r.id ∙ e)

  -- The id of a row that the document owns is found.
  owned_row :
      (id : Text) (rows : List ToyRow)
      → owns document_id (named id rows) ≡ true
      → owns document_id (named id s) ≡ true
      → mem id (own_ids document_id s rows) ≡ true
  owned_row id [] h k = cc
  owned_row id (r ∷ rows) h k = elim (Bool-cases (text_eq r.id id)) [
    | inl e ↦
        ap (mem id)
          (own_ids_kept r rows (ap (λ x. owns document_id (named x s)) (text_eq→eq r.id id e) ∙ k))
        ∙ mem-here id r (own_ids document_id s rows) e
    | inr e ↦ elim (Bool-cases (is_own r)) [
      | inl o ↦
          ap (mem id) (own_ids_kept r rows o)
          ∙ mem-later id r (own_ids document_id s rows) e
          ∙ owned_row id rows (rw e at h) k
      | inr o ↦ ap (mem id) (own_ids_dropped r rows o) ∙ owned_row id rows (rw e at h) k
    ]
  ]

  -- No other id is.
  foreign_row :
      (id : Text) (rows : List ToyRow)
      → owns document_id (named id s) ≡ false
      → mem id (own_ids document_id s rows) ≡ false
  foreign_row id [] k = refl
  foreign_row id (r ∷ rows) k = elim (Bool-cases (is_own r)) [
    | inr o ↦ ap (mem id) (own_ids_dropped r rows o) ∙ foreign_row id rows k
    | inl o ↦ elim (Bool-cases (text_eq r.id id)) [
      | inr e ↦
          ap (mem id) (own_ids_kept r rows o)
          ∙ mem-later id r (own_ids document_id s rows) e
          ∙ foreign_row id rows k
      | inl e ↦
          let never : true ≡ false =
            sym o ∙ ap (λ x. owns document_id (named x s)) (text_eq→eq r.id id e) ∙ k in
          cc
    ]
  ]

toy_mem-ids_of :
    (document_id id : Text) (s : List ToyRow)
    → mem id (own_ids document_id s s) ≡ owns document_id (named id s)
toy_mem-ids_of document_id id s = elim (Bool-cases (owns document_id (named id s))) [
  | inl o ↦ owned_row document_id s id s o o ∙ sym o
  | inr o ↦ foreign_row document_id s id s o ∙ sym o
]

module _ (ids : List Text) where
  abbrev stays : ToyRow → Bool
  stays r = not (mem r.id ids)

  named-kept :
      (id : Text) (r : ToyRow) (s : List ToyRow)
      → text_eq r.id id ≡ true
      → named id (r ∷ s) ≡ some r
  named-kept id r s e = rw e

  named-later :
      (id : Text) (r : ToyRow) (s : List ToyRow)
      → text_eq r.id id ≡ false
      → named id (r ∷ s) ≡ named id s
  named-later id r s e = rw e

  gone :
      (id : Text) (r : ToyRow) (s : List ToyRow) (row : Option ToyRow)
      → mem id ids ≡ true
      → (if mem id ids then none else row) ≡ (if mem id ids then none else named id (r ∷ s))
  gone id r s row m =
      ap (λ b. if b then none else row) m ∙ ap (λ b. if b then none else named id (r ∷ s)) (sym m)

  there :
      (id : Text) (row : Option ToyRow)
      → mem id ids ≡ false
      → row ≡ (if mem id ids then none else row)
  there id row m = ap (λ b. if b then none else row) (sym m)

  toy_get-delete :
      (id : Text) (s : List ToyRow)
      → named id (kept_rows ids s) ≡ (if mem id ids then none else named id s)
  toy_get-delete id [] = elim (Bool-cases (mem id ids)) [ inl m ↦ rw m refl | inr m ↦ rw m refl ]
  toy_get-delete id (r ∷ s) = elim (Bool-cases (mem r.id ids)) [
    | inl m ↦
        ap (named id) (keep-false stays r s (ap not m))
        ∙ toy_get-delete id s
        ∙ elim (Bool-cases (text_eq r.id id)) [
          | inl e ↦ gone id r s (named id s) (ap (λ x. mem x ids) (sym (text_eq→eq r.id id e)) ∙ m)
          | inr e ↦ ap (λ o. if mem id ids then none else o) (sym (named-later id r s e))
        ]
    | inr m ↦ ap (named id) (keep-true stays r s (ap not m)) ∙ elim (Bool-cases (text_eq r.id id)) [
      | inl e ↦
          named-kept id r (kept_rows ids s) e
          ∙ sym (named-kept id r s e)
          ∙ there id (named id (r ∷ s)) (ap (λ x. mem x ids) (sym (text_eq→eq r.id id e)) ∙ m)
      | inr e ↦
          named-later id r (kept_rows ids s) e
          ∙ toy_get-delete id s
          ∙ ap (λ o. if mem id ids then none else o) (sym (named-later id r s e))
    ]
  ]

pub toy-IsLawful : IsLawful toy
toy-IsLawful = record {
  get-add = λ s rows id h. toy_get-add s rows id;
  add_partial = λ s rows id. inr (toy_get-add s rows id);
  mem-ids_of = λ s document_id ids id h.
      ap (mem id) (sym (some-injective (own_ids document_id s s) ids h))
      ∙ toy_mem-ids_of document_id id s;
  get-delete = λ s ids id h. toy_get-delete ids id s;
  delete_partial = λ s ids id. inr (toy_get-delete ids id s);
}
