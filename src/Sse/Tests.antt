-- ===== src/Sse/Tests.antt =====
-- The counter on a stream of two events, cut in the middle of the first.
use ai_inference_gateway_pla.Base.{
  ◌≡◌, refl, Option, none, some, [], ◌∷◌, ◌++◌, Text, codes, join, text_eq, strip, lstrip, is_space,
  if◌then◌else◌,
}
use ai_inference_gateway_pla.Routing.Value.{
  Json, text, array, object, no_items, item, no_fields, field,
}
use ai_inference_gateway_pla.Sse.{consume_event, feed, feed_all}
use ai_inference_gateway_pla.Sse.Utf8.{decode_from, decode, IsWhole}
use ai_inference_gateway_pla.Sse.Chunking.{feed_all-join}

abbrev delta_value : Json
delta_value = object (
    field (codes "choices")
      (array (
        item
          (object (
            field (codes "delta") (object (field (codes "content") (text (codes "four")) no_fields))
              no_fields))
          no_items))
      no_fields)

-- A parser that knows one text.
abbrev loads_one : Text → Option Json
loads_one t = if text_eq t (codes "{}") then some delta_value else none

abbrev first_chunk : Text
first_chunk = codes "data: {"

abbrev last_chunk : Text
last_chunk = codes "}\n\ndata: [DONE]\n\nd"

first_IsWhole : IsWhole first_chunk
unfolding decode_from
first_IsWhole = refl

-- An `é` whose two bytes are in two chunks is lost.
cut_character : decode (0xc3 ∷ []) ++ decode (0xa9 ∷ []) ≡ []
unfolding decode_from
cut_character = refl

whole_character : decode (0xc3 ∷ 0xa9 ∷ 0xe2 ∷ 0x82 ∷ 0xac ∷ []) ≡ 0xe9 ∷ 0x20ac ∷ []
unfolding decode_from
whole_character = refl

feed_all-join_example :
    feed_all loads_one (0, []) (first_chunk ∷ last_chunk ∷ [])
    ≡ feed loads_one (0, []) (join (first_chunk ∷ last_chunk ∷ []))
feed_all-join_example =
    feed_all-join loads_one (0, []) first_chunk (last_chunk ∷ []) (first_IsWhole, tt)

feed_two : feed loads_one (0, first_chunk) last_chunk ≡ some (4, codes "d")
unfolding feed decode_from consume_event strip is_space lstrip
feed_two = refl
