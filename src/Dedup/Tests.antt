-- ===== src/Dedup/Tests.antt =====
-- An item whose title is its URL.
use ai_inference_gateway_pla.Base.{◌≡◌, ◌≢◌, Bool, true, false, [], Text, codes}
use ai_inference_gateway_pla.Dedup.{SourceItem, reset, is_duplicate, should_deduplicate_by_hash}
use ai_inference_gateway_pla.Dedup.Hashes.{is_duplicate-should_deduplicate_by_hash}

abbrev plain_digest : Text → Text
plain_digest t = t

abbrev never : Text → Text → Bool
never a b = false

abbrev untitled : SourceItem
untitled = record { url = codes "http://a"; title = codes "http://a"; source = []; content = [] }

is_duplicate-should_deduplicate_by_hash_example :
    (plain_digest untitled.title ≢ plain_digest untitled.url
      → (is_duplicate plain_digest never untitled (reset plain_digest never)).0
        ≡ (should_deduplicate_by_hash plain_digest untitled []).0)
    × (plain_digest untitled.title ≡ plain_digest untitled.url
        → (is_duplicate plain_digest never untitled (reset plain_digest never)).0 ≡ true)
is_duplicate-should_deduplicate_by_hash_example =
    is_duplicate-should_deduplicate_by_hash plain_digest never untitled (reset plain_digest never)
