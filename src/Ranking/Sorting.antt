-- ===== src/Ranking/Sorting.antt =====
-- The sort is descending, and keeps the items of each score in their order.
use ai_inference_gateway_pla.Base.{
  ℕ, ◌≤◌, ◌≡◌, refl, sym, ap, ◌∙◌, inl, inr, Bool, true, false, Bool-cases, List, [], ◌∷◌, All,
  All-keep, arith, keep, keep-true, keep-false, ltb, ◌==◌,
}
use ai_inference_gateway_pla.Ranking.{insert, sort}

module _ {A : Type 0} (score : A → ℕ) where
  -- Every item has at least the score of those behind it.
  abbrev pub IsDescending : List A → Type 0
  IsDescending [] = Unit
  IsDescending (x ∷ xs) = All (λ y. score y ≤ score x) xs × IsDescending xs

  insert_later :
      (x y : A) (ys : List A)
      → ltb (score x) (score y) ≡ true
      → insert score x (y ∷ ys) ≡ y ∷ insert score x ys
  insert_later x y ys e = rw (e, insert) refl

  insert_here :
      (x y : A) (ys : List A)
      → ltb (score x) (score y) ≡ false
      → insert score x (y ∷ ys) ≡ x ∷ y ∷ ys
  insert_here x y ys e = rw (e, insert) refl

  pub All-insert :
      (P : A → Type 0) (x : A) (ys : List A) → P x → All P ys → All P (insert score x ys)
  All-insert P x [] p h = (p, tt)
  All-insert P x (y ∷ ys) p h = elim (Bool-cases (ltb (score x) (score y))) [
    | inl e ↦ rw (insert_later x y ys e) (h.0, All-insert P x ys p h.1)
    | inr e ↦ rw (insert_here x y ys e) (p, h)
  ]

  pub All-sort : (P : A → Type 0) (xs : List A) → All P xs → All P (sort score xs)
  All-sort P [] h = tt
  All-sort P (x ∷ xs) h = All-insert P x (sort score xs) h.0 (All-sort P xs h.1)

  below : (n m : ℕ) (xs : List A) → n ≤ m → All (λ y. score y ≤ n) xs → All (λ y. score y ≤ m) xs
  below n m [] h all = tt
  below n m (x ∷ xs) h all = let head = all.0 in (omega arith, below n m xs h all.1)

  insert-IsDescending : (x : A) (ys : List A) → IsDescending ys → IsDescending (insert score x ys)
  insert-IsDescending x [] d = (tt, tt)
  insert-IsDescending x (y ∷ ys) d = elim (Bool-cases (ltb (score x) (score y))) [
    | inl e ↦
        rw (insert_later x y ys e) (
          All-insert (λ z. score z ≤ score y) x ys (ground arith) d.0,
          insert-IsDescending x ys d.1,
        )
    | inr e ↦
        rw (insert_here x y ys e)
          ((ground arith, below (score y) (score x) ys (ground arith) d.0), d)
  ]

  sort-IsDescending : (xs : List A) → IsDescending (sort score xs)
  sort-IsDescending [] = tt
  sort-IsDescending (x ∷ xs) = insert-IsDescending x (sort score xs) (sort-IsDescending xs)

  -- The items of one score.
  abbrev pub level : ℕ → List A → List A
  level n xs = keep (λ x. score x == n) xs

  level_skip :
      (n : ℕ) (x y : A) (ys : List A)
      → (score y == n) ≡ false
      → level n (x ∷ ys) ≡ level n (x ∷ y ∷ ys)
  level_skip n x y ys f = elim (Bool-cases (score x == n)) [
    | inl g ↦
        keep-true (λ z. score z == n) x ys g
        ∙ ap (◌∷◌ x) (sym (keep-false (λ z. score z == n) y ys f))
        ∙ sym (keep-true (λ z. score z == n) x (y ∷ ys) g)
    | inr g ↦
        keep-false (λ z. score z == n) x ys g
        ∙ sym (keep-false (λ z. score z == n) y ys f)
        ∙ sym (keep-false (λ z. score z == n) x (y ∷ ys) g)
  ]

  level-insert : (n : ℕ) (x : A) (ys : List A) → level n (insert score x ys) ≡ level n (x ∷ ys)
  level-insert n x [] = refl
  level-insert n x (y ∷ ys) = elim (Bool-cases (ltb (score x) (score y))) [
    | inr e ↦ ap (level n) (insert_here x y ys e)
    | inl e ↦ ap (level n) (insert_later x y ys e) ∙ elim (Bool-cases (score y == n)) [
      | inl f ↦
          let other : (score x == n) ≡ false = ground arith in
          keep-true (λ z. score z == n) y (insert score x ys) f
          ∙ ap (◌∷◌ y) (level-insert n x ys ∙ keep-false (λ z. score z == n) x ys other)
          ∙ sym (keep-true (λ z. score z == n) y ys f)
          ∙ sym (keep-false (λ z. score z == n) x (y ∷ ys) other)
      | inr f ↦
          keep-false (λ z. score z == n) y (insert score x ys) f
          ∙ level-insert n x ys
          ∙ level_skip n x y ys f
    ]
  ]

  level_cons :
      (n : ℕ) (x : A) (xs ys : List A)
      → level n xs ≡ level n ys
      → level n (x ∷ xs) ≡ level n (x ∷ ys)
  level_cons n x xs ys h = elim (Bool-cases (score x == n)) [
    | inl e ↦
        keep-true (λ z. score z == n) x xs e
        ∙ ap (◌∷◌ x) h
        ∙ sym (keep-true (λ z. score z == n) x ys e)
    | inr e ↦
        keep-false (λ z. score z == n) x xs e ∙ h ∙ sym (keep-false (λ z. score z == n) x ys e)
  ]

  level-sort : (n : ℕ) (xs : List A) → level n (sort score xs) ≡ level n xs
  level-sort n [] = refl
  level-sort n (x ∷ xs) =
      level-insert n x (sort score xs) ∙ level_cons n x (sort score xs) xs (level-sort n xs)

  -- The sort orders by falling score, and of each score it keeps the items in their order: it is a
  -- stable rearrangement.
  pub sort-lem :
      (xs : List A)
      → IsDescending (sort score xs) × ((n : ℕ) → level n (sort score xs) ≡ level n xs)
  sort-lem xs = (sort-IsDescending xs, λ n. level-sort n xs)

  pub keep-IsDescending : (p : A → Bool) (xs : List A) → IsDescending xs → IsDescending (keep p xs)
  keep-IsDescending p [] d = tt
  keep-IsDescending p (x ∷ xs) d = elim (Bool-cases (p x)) [
    | inl e ↦
        rw (keep-true p x xs e)
          (All-keep p (λ y. score y ≤ score x) xs d.0, keep-IsDescending p xs d.1)
    | inr e ↦ rw (keep-false p x xs e) (keep-IsDescending p xs d.1)
  ]

  -- A filter that passes a whole level leaves it as it is.
  pub level-keep :
      (p : A → Bool) (n : ℕ) (xs : List A)
      → ((x : A) → (score x == n) ≡ true → p x ≡ true)
      → level n (keep p xs) ≡ level n xs
  level-keep p n [] h = refl
  level-keep p n (x ∷ xs) h = elim (Bool-cases (p x)) [
    | inl e ↦
        ap (level n) (keep-true p x xs e) ∙ level_cons n x (keep p xs) xs (level-keep p n xs h)
    | inr e ↦ elim (Bool-cases (score x == n)) [
      | inl f ↦ let never : true ≡ false = sym (h x f) ∙ e in cc
      | inr f ↦
          ap (level n) (keep-false p x xs e)
          ∙ level-keep p n xs h
          ∙ sym (keep-false (λ z. score z == n) x xs f)
    ]
  ]
