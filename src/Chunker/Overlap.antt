-- ===== src/Chunker/Overlap.antt =====
-- `_compute_overlap`: the last sentences of a chunk, as many as the limit takes.
use mathlib.Core.List.{reverse, reverse-cons, reverse-reverse, append_assoc, append-nil}
use ai_inference_gateway_pla.Base.{
  ℕ, ◌≤◌, ◌<◌, ◌≡◌, refl, sym, ap, subst, ◌∙◌, inl, inr, ◌||◌, List, [], ◌∷◌, ◌++◌, Text, codes,
  length, All, arith, Bool-cases, ltb, ◌==◌, strip, lstrip, strip-IsTrim, IsTrim, IsFull,
  nil-IsTrim, append-IsTrim, append-IsFull, strip_of_trim, All-reverse,
}
use ai_inference_gateway_pla.Chunker.Split.{split_sentences, sentence_parts}
use ai_inference_gateway_pla.Chunker.Pieces.{IsPiece, split_sentences-IsPiece}
use ai_inference_gateway_pla.Chunker.{is_empty, candidate_of, grow_overlap, compute_overlap}

-- Sentences with a space between them.
abbrev pub spaced : List Text → Text
spaced [] = []
spaced (sent ∷ sents) = candidate_of sent (spaced sents)

-- The loop stops where the next sentence, the first of `left`, no longer fits.
abbrev pub Stops : ℕ → List Text → List Text → Type 0
Stops limit [] kept = Unit
Stops limit (sent ∷ left) kept = limit < length (spaced (sent ∷ kept))

pub record Suffix (limit : ℕ) (sentences : List Text) (overlap : Text) : Type 0 where
  pub left : List Text
  pub kept : List Text
  pub whole : sentences ≡ reverse left ++ kept
  pub overlap_kept : overlap ≡ spaced kept
  pub short : length overlap ≤ limit
  pub longest : Stops limit left kept

grow_overlap-Suffix :
    (limit : ℕ) (front back : List Text)
    → length (spaced back) ≤ limit
    → Suffix limit (reverse front ++ back) (grow_overlap limit (spaced back) front)
unfolding grow_overlap
grow_overlap-Suffix limit [] back short = record {
  left = [];
  kept = back;
  whole = refl;
  overlap_kept = refl;
  short = short;
  longest = tt;
}
grow_overlap-Suffix limit (sent ∷ front) back short =
    elim (Bool-cases (ltb limit (length (candidate_of sent (spaced back))))) [
      | inl long ↦
          rw (grow_overlap, long)
            (record {
              left = sent ∷ front;
              kept = back;
              whole = refl;
              overlap_kept = refl;
              short = short;
              longest = ground arith;
            })
      | inr fits ↦
          let same : reverse front ++ (sent ∷ back) ≡ reverse (sent ∷ front) ++ back =
            sym (append_assoc (reverse front) (sent ∷ []) back)
            ∙ ap (λ l. l ++ back) (sym (reverse-cons sent front)) in
          rw (grow_overlap, fits)
            (rw (← same) (grow_overlap-Suffix limit front (sent ∷ back) (ground arith)))
    ]

candidate_of-IsFull : (sent overlap : Text) → IsFull sent → IsFull (candidate_of sent overlap)
candidate_of-IsFull sent [] full = full
candidate_of-IsFull sent (c ∷ overlap) full = append-IsFull sent (codes " " ++ (c ∷ overlap)) full

candidate_of-IsTrim :
    (sent overlap : Text)
    → IsFull sent
    → IsTrim sent
    → IsTrim overlap
    → IsTrim (candidate_of sent overlap)
candidate_of-IsTrim sent [] full trim trim' = trim
candidate_of-IsTrim sent (c ∷ overlap) full trim trim' =
    append-IsTrim sent (codes " ") (c ∷ overlap) full tt trim trim'

spaced-IsTrim : (n : ℕ) (sents : List Text) → All (IsPiece n) sents → IsTrim (spaced sents)
spaced-IsTrim n [] pieces = nil-IsTrim
spaced-IsTrim n (sent ∷ sents) pieces =
    candidate_of-IsTrim sent (spaced sents) pieces.0.0 pieces.0.1 (spaced-IsTrim n sents pieces.1)

All-behind {ℓ κ} : {A : Type ℓ} (P : A → Type κ) (xs ys : List A) → All P (xs ++ ys) → All P ys
All-behind P [] ys h = h
All-behind P (x ∷ xs) ys h = All-behind P xs ys h.1

nothing_kept : (n : ℕ) (sents : List Text) → All (IsPiece n) sents → Stops 0 (reverse sents) []
nothing_kept n sents pieces = go (reverse sents) (All-reverse (IsPiece n) sents pieces)
  where
    go : (left : List Text) → All (IsPiece n) left → Stops 0 left []
    go [] h = tt
    go ([] ∷ left) h = elim h.0.0 [ ]
    go ((c ∷ sent) ∷ left) h = omega arith

no_overlap : (text : Text) → Suffix 0 (split_sentences text) []
no_overlap text = record {
  left = reverse (split_sentences text);
  kept = [];
  whole = sym (append-nil _ ∙ reverse-reverse (split_sentences text));
  overlap_kept = refl;
  short = omega arith;
  longest = nothing_kept (length text) (split_sentences text) (split_sentences-IsPiece text);
}

spaced_overlap :
    (limit n : ℕ) (sentences : List Text) (overlap : Text)
    → All (IsPiece n) sentences
    → Suffix limit sentences overlap
    → Suffix limit sentences (strip overlap) × IsTrim overlap
spaced_overlap limit n sentences overlap pieces s =
    let kept_pieces =
      All-behind (IsPiece n) (reverse s.left) s.kept
        (subst (λ l. All (IsPiece n) l) (s.whole) pieces) in
    let trim : IsTrim overlap = rw s.overlap_kept (spaced-IsTrim n s.kept kept_pieces) in
    (rw (strip_of_trim overlap trim) s, trim)

no_sentences : split_sentences [] ≡ []
unfolding split_sentences sentence_parts strip lstrip
no_sentences = refl

nil_overlap : (limit : ℕ) → Suffix limit [] []
nil_overlap limit = record {
  left = [];
  kept = [];
  whole = refl;
  overlap_kept = refl;
  short = omega arith;
  longest = tt;
}

-- The overlap is the last sentences of the text with a space between them, as many as fit: it has at
-- most as many characters as the limit, and the sentence before would make it longer.
pub compute_overlap-Suffix :
    (text : Text) (limit : ℕ) → Suffix limit (split_sentences text) (compute_overlap text limit)
unfolding compute_overlap
compute_overlap-Suffix [] limit = rw no_sentences (elim (Bool-cases (limit == 0)) [
  | inl off ↦ rw off (nil_overlap limit)
  | inr on ↦ rw on (nil_overlap limit)
])
compute_overlap-Suffix (c ∷ s) limit = elim (Bool-cases (limit == 0)) [
  | inl off ↦
      let zero_limit : limit ≡ 0 = ground arith in rw off (rw zero_limit (no_overlap (c ∷ s)))
  | inr on ↦
      let sentences = split_sentences (c ∷ s) in
      let grown : Suffix limit sentences (grow_overlap limit [] (reverse sentences)) =
        subst (λ l. Suffix limit l (grow_overlap limit [] (reverse sentences)))
          (append-nil _ ∙ reverse-reverse sentences)
          (grow_overlap-Suffix limit (reverse sentences) [] (omega arith)) in
      rw on
        (spaced_overlap limit (length (c ∷ s)) sentences (grow_overlap limit [] (reverse sentences))
          (split_sentences-IsPiece (c ∷ s)) grown).0
]

-- It begins and ends with no white space.
pub compute_overlap-IsTrim : (text : Text) (limit : ℕ) → IsTrim (compute_overlap text limit)
unfolding compute_overlap
compute_overlap-IsTrim text limit = elim (Bool-cases ((limit == 0) || is_empty text)) [
  | inl off ↦ rw off nil-IsTrim
  | inr on ↦ rw on (strip-IsTrim (grow_overlap limit [] (reverse (split_sentences text))))
]
