-- ===== src/VectorStore/Batches.antt =====
-- Storing in batches is storing all at once.
use ai_inference_gateway_pla.Base.{
  length-map, ℕ, zero, suc, ◌+◌, ◌≤◌, ◌≡◌, refl, sym, ap, ◌∙◌, inl, inr, ◌⊎◌, Bool, true, false,
  Option, none, some, List, [], ◌∷◌, ◌++◌, map, Text, length, length-append, take, drop,
  take-append-drop, join, arith, Bool-cases, text_eq,
}
use mathlib.Core.Option.{some-injective}
use ai_inference_gateway_pla.VectorStore.{
  Row, named, or_else, Collection, IsLawful, row_ids, row_embeddings, row_metadatas, row_documents,
  batches, chunked, add_batches,
}

or_else_assoc : {A : Type 0} (a b c : Option A) → or_else (or_else a b) c ≡ or_else a (or_else b c)
or_else_assoc none b c = refl
or_else_assoc (some a) b c = refl

pub or_else-none : {A : Type 0} (a : Option A) → or_else a none ≡ a
or_else-none none = refl
or_else-none (some a) = refl

-- A first batch that returned, and later ones that may have raised.
partial_step :
    {A : Type 0} (before first later between end all : Option A)
    → all ≡ or_else first later
    → between ≡ or_else before first
    → (end ≡ between) ⊎ (end ≡ or_else between later)
    → (end ≡ before) ⊎ (end ≡ or_else before all)
partial_step none none later between end all h b (inl e) = inl (e ∙ b)
partial_step none none later between end all h b (inr e) =
    inr (e ∙ ap (λ o. or_else o later) b ∙ sym h)
partial_step none (some a) later between end all h b (inl e) = inr (e ∙ b ∙ sym h)
partial_step none (some a) later between end all h b (inr e) =
    inr (e ∙ ap (λ o. or_else o later) b ∙ sym h)
partial_step (some a) first later between end all h b (inl e) = inl (e ∙ b)
partial_step (some a) first later between end all h b (inr e) =
    inl (e ∙ ap (λ o. or_else o later) b)

-- A batch that raised.
partial_end :
    {A : Type 0} (before first later end all : Option A)
    → all ≡ or_else first later
    → (end ≡ before) ⊎ (end ≡ or_else before first)
    → (end ≡ before) ⊎ (end ≡ or_else before all)
partial_end before first later end all h (inl e) = inl e
partial_end none none later end all h (inr e) = inl e
partial_end none (some a) later end all h (inr e) = inr (e ∙ sym h)
partial_end (some a) first later end all h (inr e) = inl e

pub named-append :
    {E : Type 0} (id : Text) (xs ys : List (Row E))
    → named id (xs ++ ys) ≡ or_else (named id xs) (named id ys)
named-append id [] ys = refl
named-append id (x ∷ xs) ys = elim (Bool-cases (text_eq x.id id)) [
  | inl e ↦ rw (e, ◌++◌) refl
  | inr e ↦ rw (e, ◌++◌) (named-append id xs ys)
]

module _ {A B : Type 0} (f : A → B) where
  take-map : (n : ℕ) (xs : List A) → take n (map f xs) ≡ map f (take n xs)
  take-map zero xs = refl
  take-map (suc n) [] = refl
  take-map (suc n) (x ∷ xs) = ap (◌∷◌ (f x)) (take-map n xs)

  drop-map : (n : ℕ) (xs : List A) → drop n (map f xs) ≡ map f (drop n xs)
  drop-map zero xs = refl
  drop-map (suc n) [] = refl
  drop-map (suc n) (x ∷ xs) = drop-map n xs

  batches-map :
      (n size : ℕ) (xs : List A) → batches n size (map f xs) ≡ map (map f) (batches n size xs)
  unfolding batches
  batches-map zero size xs = refl
  batches-map (suc n) size [] = refl
  batches-map (suc n) size (x ∷ xs) =
      rw (take-map size (x ∷ xs), drop-map size (x ∷ xs), batches-map n size (drop size (x ∷ xs)))
        refl

  pub chunked-map :
      (size : ℕ) (xs : List A) → chunked (map f xs) size ≡ map (map f) (chunked xs size)
  unfolding chunked
  chunked-map size xs = rw (length-map f xs) (batches-map (length xs) size xs)

length-drop : {A : Type 0} (n : ℕ) (xs : List A) → length (drop (suc n) xs) + 1 ≤ length xs + 1
length-drop n [] = omega arith
length-drop zero (x ∷ xs) = omega arith
length-drop (suc n) (x ∷ xs) = omega (arith, length-drop n xs)

length-drop_cons :
    {A : Type 0} (n : ℕ) (x : A) (xs : List A) → length (drop (suc n) (x ∷ xs)) ≤ length xs
length-drop_cons zero x xs = omega arith
length-drop_cons (suc n) x xs = omega (arith, length-drop n xs)

pub join-batches :
    {A : Type 0} (n size : ℕ) (xs : List A) → length xs ≤ n → join (batches n (suc size) xs) ≡ xs
unfolding batches
join-batches zero size [] h = refl
join-batches zero size (x ∷ xs) h = absurd (omega arith)
join-batches (suc n) size [] h = refl
join-batches (suc n) size (x ∷ xs) h =
    let shorter = length-drop_cons size x xs in
    ap (λ l. take (suc size) (x ∷ xs) ++ l)
      (join-batches n size (drop (suc size) (x ∷ xs)) (omega arith))
    ∙ take-append-drop (suc size) (x ∷ xs)

pub join-chunked : {A : Type 0} (xs : List A) → join (chunked xs 100) ≡ xs
unfolding chunked
join-chunked xs = join-batches (length xs) 99 xs (omega arith)

module _ (C : Collection) (lawful : IsLawful C) where
  abbrev pub Rows : Type 0
  Rows = List (Row C.Embedding)

  -- The loop over the batches of these rows.
  abbrev pub add_rows : C.State → ℕ → List Rows → C.State × Option ℕ
  add_rows s stored rss =
      add_batches C s stored (map row_ids rss) (map row_embeddings rss) (map row_metadatas rss)
        (map row_documents rss)

  abbrev add_one : C.State → Rows → C.State × Bool
  add_one s rows =
      C.add s (row_ids rows) (row_embeddings rows) (row_metadatas rows) (row_documents rows)

  add_rows-step :
      (s : C.State) (stored : ℕ) (rows : Rows) (rss : List Rows)
      → (add_one s rows).1 ≡ true
      → add_rows s stored (rows ∷ rss) ≡ add_rows (add_one s rows).0 (stored + length rows) rss
  unfolding add_batches
  add_rows-step s stored rows rss e =
      rw (add_batches, e) (rw (length-map (λ (r : Row C.Embedding). r.id) rows) refl)

  add_rows-raised :
      (s : C.State) (stored : ℕ) (rows : Rows) (rss : List Rows)
      → (add_one s rows).1 ≡ false
      → add_rows s stored (rows ∷ rss) ≡ ((add_one s rows).0, none)
  unfolding add_batches
  add_rows-raised s stored rows rss e = rw (add_batches, e) refl

  pub add_rows-stored :
      (s : C.State) (stored n : ℕ) (rss : List Rows)
      → (add_rows s stored rss).1 ≡ some n
      → (n ≡ stored + length (join rss))
        × ((id : Text)
            → C.get (add_rows s stored rss).0 id ≡ or_else (C.get s id) (named id (join rss)))
  unfolding add_batches
  add_rows-stored s stored n [] h =
      let same = some-injective stored n h in (omega arith, λ id. sym (or_else-none (C.get s id)))
  add_rows-stored s stored n (rows ∷ rss) h = elim (Bool-cases (add_one s rows).1) [
    | inl e ↦
        let step = add_rows-step s stored rows rss e in
        let (counted, there) =
          add_rows-stored (add_one s rows).0 (stored + length rows) n rss
            (ap (λ (r : C.State × Option ℕ). r.1) (sym step) ∙ h) in
        (
          omega (arith, counted, length-append rows (join rss)),
          λ id.
              ap (λ (r : C.State × Option ℕ). C.get r.0 id) step
              ∙ there id
              ∙ ap (λ o. or_else o (named id (join rss))) (lawful.get-add s rows id e)
              ∙ or_else_assoc (C.get s id) (named id rows) (named id (join rss))
              ∙ ap (or_else (C.get s id)) (sym (named-append id rows (join rss))),
        )
    | inr e ↦
        let never : ◌≡◌ {A = Option ℕ} none (some n) =
          ap (λ (r : C.State × Option ℕ). r.1) (sym (add_rows-raised s stored rows rss e)) ∙ h in
        cc
  ]

  -- What may be there after the loop, however it ends: under an id, what was there or one of the
  -- rows.
  pub add_rows-partial :
      (s : C.State) (stored : ℕ) (rss : List Rows) (id : Text)
      → (C.get (add_rows s stored rss).0 id ≡ C.get s id)
        ⊎ (C.get (add_rows s stored rss).0 id ≡ or_else (C.get s id) (named id (join rss)))
  unfolding add_batches
  add_rows-partial s stored [] id = inl refl
  add_rows-partial s stored (rows ∷ rss) id = elim (Bool-cases (add_one s rows).1) [
    | inl e ↦ rw (add_rows-step s stored rows rss e) (
        partial_step (C.get s id) (named id rows) (named id (join rss))
          (C.get (add_one s rows).0 id)
          (C.get (add_rows (add_one s rows).0 (stored + length rows) rss).0 id)
          (named id (rows ++ join rss)) (named-append id rows (join rss))
          (lawful.get-add s rows id e)
          (add_rows-partial (add_one s rows).0 (stored + length rows) rss id))
    | inr e ↦ rw (add_rows-raised s stored rows rss e) (
        partial_end (C.get s id) (named id rows) (named id (join rss)) (C.get (add_one s rows).0 id)
          (named id (rows ++ join rss)) (named-append id rows (join rss))
          (lawful.add_partial s rows id))
  ]
