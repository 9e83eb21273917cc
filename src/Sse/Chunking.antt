-- ===== src/Sse/Chunking.antt =====
-- The count does not depend on how the stream is cut into chunks.
use mathlib.Core.List.{append-nil, append_assoc}
use mathlib.Core.Option.{some-injective}
use ai_inference_gateway_pla.Base.{
  ℕ, zero, suc, ◌+◌, ◌≤◌, ◌≡◌, refl, sym, ap, ◌∙◌, Option, none, some, List, [], ◌∷◌, ◌++◌, Text,
  join, length, length-append, arith, ◌&&◌, ◌==◌, ◌>>=◌, >>=-eq-some, Bool-cases, Option-cases, inl,
  inr,
}
use ai_inference_gateway_pla.Routing.Value.{Json}
use ai_inference_gateway_pla.Sse.Utf8.{decode, decode-append, IsWhole}
use ai_inference_gateway_pla.Sse.{
  Counter, cons_event, split_event, consume_event, drain, feed, feed_all,
}

cons_event-eq-some :
    (c : ℕ) (r : Option (Text × Text)) (event rest : Text)
    → cons_event c r ≡ some (event, rest)
    → (event' : Text) × (r ≡ some (event', rest)) × (event ≡ c ∷ event')
cons_event-eq-some c none event rest h = cc
cons_event-eq-some c (some (e, r)) event rest h = (e, cc, cc)

-- What is behind an event is shorter, by two characters at least.
split_event-shorter :
    (s event rest : Text) → split_event s ≡ some (event, rest) → length rest + 2 ≤ length s
split_event-shorter [] event rest h = cc
split_event-shorter (c ∷ []) event rest h = cc
split_event-shorter (c ∷ d ∷ s) event rest h = elim (Bool-cases ((c == 10) && (d == 10))) [
  | inl t ↦
      let same : s ≡ rest =
        ap (λ (x : Text × Text). x.1) (some-injective ([], s) (event, rest) (rw t at h)) in
      rw (← same) (omega arith)
  | inr f ↦
      let (event', e, _) = cons_event-eq-some c (split_event (d ∷ s)) event rest (rw f at h) in
      let shorter = split_event-shorter (d ∷ s) event' rest e in omega arith
]

-- More text behind does not change the first event.
split_event-append :
    (s more event rest : Text)
    → split_event s ≡ some (event, rest)
    → split_event (s ++ more) ≡ some (event, rest ++ more)
split_event-append [] more event rest h = cc
split_event-append (c ∷ []) more event rest h = cc
split_event-append (c ∷ d ∷ s) more event rest h = elim (Bool-cases ((c == 10) && (d == 10))) [
  | inl t ↦
      let parts : ◌≡◌ {A = Text × Text} ([], s) (event, rest) =
        some-injective ([], s) (event, rest) (rw t at h) in
      rw (t, ← ap (λ (x : Text × Text). x.0) parts, ← ap (λ (x : Text × Text). x.1) parts) refl
  | inr f ↦
      let (event', e, whole) = cons_event-eq-some c (split_event (d ∷ s)) event rest (rw f at h) in
      rw (f, split_event-append (d ∷ s) more event' rest e, whole) refl
]

same_rest :
    {A B : Type 0} (r : Option A) (f g : A → Text → Option B) (rest : Text)
    → ((a : A) → f a rest ≡ g a rest)
    → (r >>= λ a. f a rest) ≡ (r >>= λ a. g a rest)
same_rest none f g rest h = refl
same_rest (some a) f g rest h = h a

bind_rest :
    {A B C : Type 0} (r : Option A) (f : A → Option B) (g : B → Option C) (h : A → Option C)
    → ((a : A) → (f a >>= g) ≡ h a)
    → ((r >>= f) >>= g) ≡ (r >>= h)
bind_rest none f g h e = refl
bind_rest (some a) f g h e = e a

module _ (loads : Text → Option Json) where
  -- Enough rounds are enough.
  drain-rounds :
      (n m chars : ℕ) (s : Text)
      → length s ≤ n
      → length s ≤ m
      → drain loads n chars s ≡ drain loads m chars s
  drain-rounds zero zero chars s hn hm = refl
  drain-rounds zero (suc m) chars [] hn hm = refl
  drain-rounds zero (suc m) chars (c ∷ s) hn hm = absurd (omega arith)
  drain-rounds (suc n) zero chars [] hn hm = refl
  drain-rounds (suc n) zero chars (c ∷ s) hn hm = absurd (omega arith)
  drain-rounds (suc n) (suc m) chars s hn hm = elim (Option-cases (split_event s)) [
    | inl e ↦ rw (drain, e) refl
    | inr ((event, rest), e) ↦
        let shorter = split_event-shorter s event rest e in
        rw (drain, e)
          (same_rest (consume_event loads chars event) (drain loads n) (drain loads m) rest
            (λ next. drain-rounds n m next rest (omega arith) (omega arith)))
  ]

  -- Draining a buffer and then, with more text behind what is left, again is draining the whole.
  drain-append :
      (n m chars : ℕ) (s more : Text)
      → length s ≤ n
      → length s + length more ≤ m
      → (drain loads n chars s >>= λ (b : Counter).
          drain loads (length (b.1 ++ more)) b.0 (b.1 ++ more))
        ≡ drain loads m chars (s ++ more)
  drain-append zero m chars [] more hn hm =
      drain-rounds (length more) m chars more (omega arith) (omega arith)
  drain-append zero m chars (c ∷ s) more hn hm = absurd (omega arith)
  drain-append (suc n) zero chars [] [] hn hm =
      drain-rounds 0 zero chars [] (omega arith) (omega arith)
  drain-append (suc n) zero chars [] (c ∷ s) hn hm = absurd (omega arith)
  drain-append (suc n) zero chars (c ∷ s) more hn hm = absurd (omega arith)
  drain-append (suc n) (suc m) chars s more hn hm = elim (Option-cases (split_event s)) [
    | inl e ↦
        let both = length-append s more in
        rw (drain, e)
          (drain-rounds (length (s ++ more)) (suc m) chars (s ++ more) (omega arith) (omega arith))
    | inr ((event, rest), e) ↦
        let shorter = split_event-shorter s event rest e in
        rw (drain, e, split_event-append s more event rest e)
          (bind_rest (consume_event loads chars event) (λ next. drain loads n next rest)
            (λ b. drain loads (length (b.1 ++ more)) b.0 (b.1 ++ more))
            (λ next. drain loads m next (rest ++ more))
            (λ next. drain-append n m next rest more (omega arith) (omega arith)))
  ]

  -- What `feed` does with a decoded chunk.
  abbrev feed_text : Counter → Text → Option Counter
  feed_text s t = drain loads (length (s.1 ++ t)) s.0 (s.1 ++ t)

  -- Two texts that are fed one after the other count as the one text that they are parts of, and
  -- leave the same buffer; where one raises, so does the other.
  feed_text-append :
      (s : Counter) (a b : Text)
      → (feed_text s a >>= λ (next : Counter). feed_text next b) ≡ feed_text s (a ++ b)
  feed_text-append s a b =
      let one = length-append s.1 a in
      let two = length-append (s.1 ++ a) b in
      rw (← append_assoc s.1 a b) (
        drain-append (length (s.1 ++ a)) (length (s.1 ++ a ++ b)) s.0 (s.1 ++ a) b (omega arith)
          (omega arith))

  feed-decode : (s : Counter) (chunk : Text) → feed loads s chunk ≡ feed_text s (decode chunk)
  unfolding feed
  feed-decode s chunk = refl

  bind_some : {A : Type 0} (r : Option A) → (r >>= λ a. some a) ≡ r
  bind_some none = refl
  bind_some (some a) = refl

  -- Every chunk but the last ends between two characters.
  abbrev pub IsCutWhole : Text → List Text → Type 0
  IsCutWhole chunk [] = Unit
  IsCutWhole chunk (c ∷ cs) = IsWhole chunk × IsCutWhole c cs

  -- However a stream of bytes is cut into chunks, one or more, of which each but the last ends between
  -- two characters of UTF-8, feeding them all is feeding the stream: the same count, the same buffer,
  -- or a `TypeError` in both.
  pub feed_all-join :
      (s : Counter) (chunk : Text) (chunks : List Text)
      → IsCutWhole chunk chunks
      → feed_all loads s (chunk ∷ chunks) ≡ feed loads s (join (chunk ∷ chunks))
  feed_all-join s chunk [] whole = rw (append-nil chunk) (bind_some (feed loads s chunk))
  feed_all-join s chunk (c ∷ cs) whole =
      same_rest (feed loads s chunk) (λ next _. feed_all loads next (c ∷ cs))
        (λ next _. feed loads next (join (c ∷ cs))) [] (λ next. feed_all-join next c cs whole.1)
      ∙ (λ i. feed-decode s chunk i >>= λ next. feed-decode next (join (c ∷ cs)) i)
      ∙ feed_text-append s (decode chunk) (decode (join (c ∷ cs)))
      ∙ ap (feed_text s) (sym (decode-append chunk (join (c ∷ cs)) whole.0))
      ∙ sym (feed-decode s (chunk ++ join (c ∷ cs)))

  drain-done :
      (n chars : ℕ) (s : Text) (b : Counter)
      → length s ≤ n
      → drain loads n chars s ≡ some b
      → split_event b.1 ≡ none
  drain-done zero chars [] b hn h =
      ap (λ (x : Counter). split_event x.1) (sym (some-injective (chars, []) b h))
  drain-done zero chars (c ∷ s) b hn h = absurd (omega arith)
  drain-done (suc n) chars s b hn h = elim (Option-cases (split_event s)) [
    | inl e ↦
        ap (λ (x : Counter). split_event x.1)
          (sym (some-injective (chars, s) b (rw (drain, e) at h)))
        ∙ e
    | inr ((event, rest), e) ↦
        let shorter = split_event-shorter s event rest e in
        let (next, _, drained) =
          >>=-eq-some (consume_event loads chars event) (λ next. drain loads n next rest)
            (rw (drain, e) at h) in
        drain-done n next rest b (omega arith) drained
  ]

  -- A chunk that is fed is counted to its last event: no two line feeds in a row stay in the buffer.
  pub feed-done :
      (s : Counter) (chunk : Text) (next : Counter)
      → feed loads s chunk ≡ some next
      → split_event next.1 ≡ none
  unfolding feed
  feed-done s chunk next h =
      drain-done (length (s.1 ++ decode chunk)) s.0 (s.1 ++ decode chunk) next (omega arith) h
