-- ===== src/Dedup.antt =====
-- apps/agents/services/dedup/service.py. `digest` is the first half of a SHA-256 in hexadecimal, and
-- `similar` says of two embeddings that neither is zero and that their cosine reaches the threshold;
-- both are parameters. A set of digests is a list.
use ai_inference_gateway_pla.Base.{
  ℕ, ◌+◌, ◌≡◌, Bool, true, false, ◌||◌, List, [], ◌∷◌, ◌++◌, Text, text_eq, if◌then◌else◌,
}
pub mod Hashes
mod Tests

-- The fields of an item; deduplication reads the first two.
pub record SourceItem : Type 0 where
  pub url : Text
  pub title : Text
  pub source : Text
  pub content : Text

abbrev pub seen_in : Text → List Text → Bool
seen_in h [] = false
seen_in h (g ∷ seen) = text_eq h g || seen_in h seen

module _ {E : Type 0} (digest : Text → Text) (similar : E → E → Bool) where
  pub record SemanticDeduplicator : Type 0 where
    pub seen_hashes : List Text
    pub seen_embeddings : List E
    pub duplicate_count : ℕ

  -- `reset`, and the state of a new one
  abbrev pub reset : SemanticDeduplicator
  reset = record { seen_hashes = []; seen_embeddings = []; duplicate_count = 0 }

  abbrev count_duplicate : SemanticDeduplicator → Bool × SemanticDeduplicator
  count_duplicate d = (true, record d { duplicate_count = d.duplicate_count + 1 })

  abbrev check_title : SourceItem → SemanticDeduplicator → Bool × SemanticDeduplicator
  check_title item d =
      let title_hash = digest item.title in
      if seen_in title_hash d.seen_hashes
      then count_duplicate d
      else (false, record d { seen_hashes = title_hash ∷ d.seen_hashes })

  unfoldable pub is_duplicate : SourceItem → SemanticDeduplicator → Bool × SemanticDeduplicator
  is_duplicate item d =
      let url_hash = digest item.url in
      if seen_in url_hash d.seen_hashes
      then count_duplicate d
      else check_title item (record d { seen_hashes = url_hash ∷ d.seen_hashes })

  abbrev any_similar : E → List E → Bool
  any_similar e [] = false
  any_similar e (s ∷ seen) = similar e s || any_similar e seen

  -- An empty list has nothing similar, and the embedding is appended then too.
  unfoldable pub is_semantic_duplicate : E → SemanticDeduplicator → Bool × SemanticDeduplicator
  is_semantic_duplicate e d =
      if any_similar e d.seen_embeddings
      then count_duplicate d
      else (false, record d { seen_embeddings = d.seen_embeddings ++ (e ∷ []) })

  abbrev pub should_deduplicate_by_semantics : List E → E → Bool
  should_deduplicate_by_semantics existing e = any_similar e existing

module _ (digest : Text → Text) where
  unfoldable pub should_deduplicate_by_hash : SourceItem → List Text → Bool × List Text
  should_deduplicate_by_hash item existing =
      if seen_in (digest item.url) existing
      then (true, existing)
      else if seen_in (digest item.title) existing
      then (true, existing)
      else (false, digest item.title ∷ digest item.url ∷ existing)
