-- ===== src/Chat/Prompt.antt =====
-- What `chat_completions` of deploy/gateway/gateway/main.py reads of a payload: whether a stream is
-- wanted, and `_rough_prompt_stats`.
use ai_inference_gateway_pla.Base.{
  ℕ, ◌+◌, ◌/◌, Bool, true, false, Option, none, some, [], ◌∷◌, max, codes, ◌==◌, not, if◌then◌else◌,
  length,
}
use ai_inference_gateway_pla.Routing.Value.{
  Json, null, boolean, number, text, array, object, Items, no_items, item, no_fields, field,
  field_of,
}

-- `bool(value)`
abbrev pub truthy : Json → Bool
truthy null = false
truthy (boolean b) = b
truthy (number n) = not (n == 0)
truthy (text []) = false
truthy (text (c ∷ s)) = true
truthy (array no_items) = false
truthy (array (item v vs)) = true
truthy (object no_fields) = false
truthy (object (field k v rest)) = true

abbrev pub truthy_field : Option Json → Bool
truthy_field none = false
truthy_field (some v) = truthy v

-- `bool(payload.get("stream")) if isinstance(payload, dict) else False`
abbrev pub is_stream : Json → Bool
is_stream (object d) = truthy_field (field_of (codes "stream") d)
is_stream null = false
is_stream (boolean _) = false
is_stream (number _) = false
is_stream (text _) = false
is_stream (array _) = false

abbrev pub content_length : Option Json → ℕ
content_length none = 0
content_length (some (text t)) = length t
content_length (some null) = 0
content_length (some (boolean _)) = 0
content_length (some (number _)) = 0
content_length (some (array _)) = 0
content_length (some (object _)) = 0

abbrev pub message_length : Json → ℕ
message_length (object m) = content_length (field_of (codes "content") m)
message_length null = 0
message_length (boolean _) = 0
message_length (number _) = 0
message_length (text _) = 0
message_length (array _) = 0

abbrev pub total_length : Items → ℕ
total_length no_items = 0
total_length (item m rest) = message_length m + total_length rest

abbrev pub messages_length : Option Json → ℕ
messages_length none = 0
messages_length (some (array ms)) = total_length ms
messages_length (some null) = 0
messages_length (some (boolean _)) = 0
messages_length (some (number _)) = 0
messages_length (some (text _)) = 0
messages_length (some (object _)) = 0

abbrev pub prompt_chars_of : Json → ℕ
prompt_chars_of (object d) = messages_length (field_of (codes "messages") d)
prompt_chars_of null = 0
prompt_chars_of (boolean _) = 0
prompt_chars_of (number _) = 0
prompt_chars_of (text _) = 0
prompt_chars_of (array _) = 0

-- `_rough_prompt_stats`, without the preview: the characters of the messages, and the tokens that
-- they may be.
unfoldable pub rough_prompt_stats : Json → ℕ × ℕ
rough_prompt_stats payload =
    let total = prompt_chars_of payload in (total, if total == 0 then 0 else max 1 (total / 4))
