-- ===== src/Chunker/Kept.antt =====
-- What one step of the loops of `chunk_document` keeps; `Kept.Loops` has the loops.
pub mod Loops
use mathlib.Core.List.{append_assoc, append-nil}
use ai_inference_gateway_pla.Base.{
  ℕ, zero, suc, ◌+◌, ◌≤◌, ◌≡◌, refl, sym, ap, subst, ◌∙◌, inl, inr, ◌⊎◌, Bool, true, false, List,
  [], ◌∷◌, ◌++◌, Text, codes, length, All, In, arith, Bool-cases, leb, if◌then◌else◌, strip, IsTrim,
  IsFull, nil-IsTrim, append-IsTrim, append-IsFull, strip_of_trim,
}
use ai_inference_gateway_pla.Chunker.Split.{split_sentences, split_paragraphs}
use ai_inference_gateway_pla.Chunker.Pieces.{
  IsPiece, split_sentences-IsPiece, split_paragraphs-IsPiece,
}
use ai_inference_gateway_pla.Chunker.Overlap.{compute_overlap-IsTrim}
use ai_inference_gateway_pla.Chunker.{
  Chunk, new_chunk, Progress, start, is_empty, compute_overlap, emit, emit_some, fits, joined,
  add_sentence, add_sentences, restart, add_paragraph, add_paragraphs, chunks_of,
}

-- One text stands in another.
abbrev pub Infix : Text → Text → Type 0
Infix x t = (before : Text) × (behind : Text) × (t ≡ before ++ (x ++ behind))

abbrev pub InChunk : Text → List Chunk → Type 0
InChunk x chunks = (chunk : Chunk) × In chunk chunks × Infix x chunk.text

Infix_self : (x : Text) → Infix x x
Infix_self x = ([], [], sym (append-nil x))

Infix-append : (x s t : Text) → Infix x s → Infix x (s ++ t)
Infix-append x s t (before, behind, e) = (
  before,
  behind ++ t,
  rw e (append_assoc before (x ++ behind) t ∙ ap (λ u. before ++ u) (append_assoc x behind t)),
)

Infix-joined_left :
    (x separator current added : Text)
    → IsFull current
    → Infix x current
    → Infix x (joined separator current added)
Infix-joined_left x separator [] added full i = elim full [ ]
Infix-joined_left x separator (c ∷ s) added full i = Infix-append x (c ∷ s) (separator ++ added) i

Infix-joined_right : (separator current added : Text) → Infix added (joined separator current added)
Infix-joined_right separator [] added = Infix_self added
Infix-joined_right separator (c ∷ s) added = (
  (c ∷ s) ++ separator,
  [],
  sym (
      append_assoc (c ∷ s) separator (added ++ [])
      ∙ ap (λ u. (c ∷ s) ++ (separator ++ u)) (append-nil added)),
)

joined-IsFull :
    (separator current added : Text) → IsFull added → IsFull (joined separator current added)
joined-IsFull separator [] added full = full
joined-IsFull separator (c ∷ s) added full = tt

joined-IsTrim :
    (separator current added : Text)
    → IsFull added
    → IsTrim current
    → IsTrim added
    → IsTrim (joined separator current added)
joined-IsTrim separator [] added full trim trim' = trim'
joined-IsTrim separator (c ∷ s) added full trim trim' =
    append-IsTrim (c ∷ s) separator added tt full trim trim'

In-append_left : {A : Type 0} (a : A) (xs ys : List A) → In a xs → In a (xs ++ ys)
In-append_left a [] ys h = elim h [ ]
In-append_left a (x ∷ xs) ys (inl e) = inl e
In-append_left a (x ∷ xs) ys (inr h) = inr (In-append_left a xs ys h)

In-snoc : {A : Type 0} (a : A) (xs : List A) → In a (xs ++ (a ∷ []))
In-snoc a [] = inl refl
In-snoc a (x ∷ xs) = inr (In-snoc a xs)

-- What is kept so far: it stands in a chunk or in the text that is gathered.
abbrev pub Held : Text → Progress → Type 0
Held x p = InChunk x p.chunks ⊎ (IsFull p.current × Infix x p.current)

module _ (chunk_size chunk_overlap page_number : ℕ) (document_id : Text) where
  InChunk-emit :
      (x : Text) (p : Progress)
      → IsTrim p.current
      → Infix x p.current
      → InChunk x (emit chunk_size chunk_overlap page_number document_id p).chunks
  InChunk-emit x p trim i =
      let made = new_chunk (strip p.current) page_number p.index document_id in
      (made, In-snoc made p.chunks, subst (Infix x) (sym (strip_of_trim p.current trim)) i)

  InChunk-emit_old :
      (x : Text) (p : Progress)
      → InChunk x p.chunks
      → InChunk x (emit chunk_size chunk_overlap page_number document_id p).chunks
  InChunk-emit_old x p (chunk, i, inside) = (chunk, In-append_left chunk p.chunks _ i, inside)

  -- A chunk holds all that was gathered.
  Held-emit :
      (x : Text) (p : Progress)
      → IsTrim p.current
      → Held x p
      → InChunk x (emit chunk_size chunk_overlap page_number document_id p).chunks
  Held-emit x p trim (inl h) = InChunk-emit_old x p h
  Held-emit x p trim (inr h) = InChunk-emit x p trim h.1

  pub Held-emit_some :
      (x current : Text) (p : Progress)
      → p.current ≡ current
      → IsTrim p.current
      → Held x p
      → InChunk x (emit_some chunk_size chunk_overlap page_number document_id p).chunks
  Held-emit_some x [] p e trim (inl h) = rw e h
  Held-emit_some x [] p e trim (inr h) = absurd (subst IsFull e h.0)
  Held-emit_some x (c ∷ s) p e trim h = rw e (rw (← e) (Held-emit x p trim h))

  pub Held-joined :
      (x separator added : Text) (p : Progress)
      → IsFull added
      → Held x p
      → Held x (record p { current = joined separator p.current added })
  Held-joined x separator added p full (inl h) = inl h
  Held-joined x separator added p full (inr h) = inr (
    joined-IsFull separator p.current added full,
    Infix-joined_left x separator p.current added h.0 h.1,
  )

  -- What a step of a loop owes: the gathered text stays trimmed, nothing that was held is lost, and
  -- the piece that came is held.
  pub record Keeps (piece : Text) (p q : Progress) : Type 0 where
    pub trim : IsTrim q.current
    pub old : (x : Text) → Held x p → Held x q
    pub new : Held piece q

  pub add_sentence-Keeps :
      (p : Progress) (sent : Text)
      → IsFull sent
      → IsTrim sent
      → IsTrim p.current
      → Keeps sent p (add_sentence chunk_size chunk_overlap page_number document_id p sent)
  unfolding add_sentence
  add_sentence-Keeps p sent full trim trim' =
      elim (Bool-cases (fits chunk_size chunk_overlap page_number document_id p.current sent)) [
        | inl e ↦
            rw (add_sentence, e)
              (record {
                trim = joined-IsTrim (codes " ") p.current sent full trim' trim;
                old = λ x. Held-joined x (codes " ") sent p full;
                new = inr (
                  joined-IsFull (codes " ") p.current sent full,
                  Infix-joined_right (codes " ") p.current sent,
                );
              })
        | inr e ↦
            rw (add_sentence, e)
              (record {
                trim = trim;
                old = λ x h. inl (Held-emit_some x p.current p refl trim' h);
                new = inr (full, Infix_self sent);
              })
      ]

  pub restart-Keeps :
      (p : Progress) (para : Text)
      → IsFull para
      → IsTrim para
      → IsTrim p.current
      → Keeps para p (restart chunk_size chunk_overlap page_number document_id p para)
  restart-Keeps p para full trim trim' =
      let overlap = compute_overlap p.current chunk_overlap in
      record {
        trim =
            joined-IsTrim (codes "\n\n") overlap para full
              (compute_overlap-IsTrim p.current chunk_overlap) trim;
        old = λ x h. inl (Held-emit x p trim' h);
        new = inr (
          joined-IsFull (codes "\n\n") overlap para full,
          Infix-joined_right (codes "\n\n") overlap para,
        );
      }
