-- ===== src/Dedup/Hashes.antt =====
-- The two checks by digests.
use ai_inference_gateway_pla.Base.{
  ◌≡◌, ◌≢◌, refl, Bool, true, false, List, ◌∷◌, Text, text_eq, text_eq→eq, text_eq_refl,
  if◌then◌else◌, Bool-cases, inl, inr,
}
use ai_inference_gateway_pla.Dedup.{
  SourceItem, seen_in, SemanticDeduplicator, is_duplicate, should_deduplicate_by_hash, check_title,
}

same_text : (s t : Text) → s ≡ t → text_eq s t ≡ false → ⊥
same_text s t e f = let u : text_eq s t ≡ true = rw e (text_eq_refl t) in cc

module _ {E : Type 0} (digest : Text → Text) (similar : E → E → Bool) where
  title_checked :
      (item : SourceItem) (d : SemanticDeduplicator digest similar)
      → let r =
          check_title digest similar item
            (record d { seen_hashes = digest item.url ∷ d.seen_hashes }) in
        let q : Bool × List Text =
          if seen_in (digest item.title) d.seen_hashes
          then (true, d.seen_hashes)
          else (false, digest item.title ∷ digest item.url ∷ d.seen_hashes) in
        (digest item.title ≢ digest item.url → r.0 ≡ q.0)
        × (digest item.title ≡ digest item.url → r.0 ≡ true)
  title_checked item d = elim (Bool-cases (text_eq (digest item.title) (digest item.url))) [
    | inl t ↦
        rw (check_title, t)
          (λ ne. absurd (ne (text_eq→eq (digest item.title) (digest item.url) t)), λ e. refl)
    | inr f ↦ elim (Bool-cases (seen_in (digest item.title) d.seen_hashes)) [
      | inl t ↦ rw (check_title, f, t) (λ ne. refl, λ e. refl)
      | inr g ↦
          rw (check_title, f, g)
            (λ ne. refl, λ e. absurd (same_text (digest item.title) (digest item.url) e f))
    ]
  ]

  -- On one set of digests the method and the function answer alike for an item whose URL and title
  -- have different digests; an item whose title has the digest of its URL is a duplicate to the
  -- method whatever it has seen, since the method adds the URL before it looks for the title.
  pub is_duplicate-should_deduplicate_by_hash :
      (item : SourceItem) (d : SemanticDeduplicator digest similar)
      → (digest item.title ≢ digest item.url
          → (is_duplicate digest similar item d).0
            ≡ (should_deduplicate_by_hash digest item d.seen_hashes).0)
        × (digest item.title ≡ digest item.url → (is_duplicate digest similar item d).0 ≡ true)
  unfolding is_duplicate should_deduplicate_by_hash
  is_duplicate-should_deduplicate_by_hash item d =
      elim (Bool-cases (seen_in (digest item.url) d.seen_hashes)) [
        | inl t ↦ rw (is_duplicate, t) (λ ne. refl, λ e. refl)
        | inr f ↦ rw (is_duplicate, f) (title_checked item d)
      ]
