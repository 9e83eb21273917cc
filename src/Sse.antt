-- ===== src/Sse.antt =====
-- `_SseTokenCounter` of apps/inference/services/chat_completion.py, on chunks of bytes.
-- `json.loads` is the parameter `loads`, with `none` for its `JSONDecodeError`. A `none` of the
-- counter is the `TypeError` of a loop over `choices` that are a number or `true`.
use ai_inference_gateway_pla.Base.{
  ℕ, zero, suc, ◌+◌, ◌*◌, ◌/◌, Bool, true, false, ◌&&◌, Option, none, some, List, [], ◌∷◌, ◌++◌,
  max, Text, codes, length, strip, strip_prefix, text_eq, ◌==◌, if◌then◌else◌, ◌>>=◌,
}
use ai_inference_gateway_pla.Routing.Value.{
  Json, null, boolean, number, text, array, object, Items, no_items, item, Fields, no_fields, field,
  field_of,
}
use ai_inference_gateway_pla.Sse.Utf8.{decode}
pub mod Utf8
pub mod Chunking
mod Tests

-- `self._completion_chars` and `self._buf`
abbrev pub Counter : Type 0
Counter = ℕ × Text

abbrev pub cons_event : ℕ → Option (Text × Text) → Option (Text × Text)
cons_event c none = none
cons_event c (some (event, rest)) = some (c ∷ event, rest)

-- `s.split("\n\n", 1)`, or `none` without two line feeds
abbrev pub split_event : Text → Option (Text × Text)
split_event [] = none
split_event (c ∷ []) = none
split_event (c ∷ d ∷ s) =
    let later = split_event (d ∷ s) in
    if (c == 10) && (d == 10) then some ([], s) else cons_event c later

abbrev cons_line : ℕ → List Text → List Text
cons_line c [] = (c ∷ []) ∷ []
cons_line c (line ∷ lines) = (c ∷ line) ∷ lines

-- `evt.split("\n")`
abbrev pub split_lines : Text → List Text
split_lines [] = [] ∷ []
split_lines (c ∷ s) = let rest = split_lines s in if c == 10 then [] ∷ rest else cons_line c rest

-- `isinstance(ct, int) and ct > 0`; `True` is an `int` of Python.
abbrev pub reported : Option Json → ℕ
reported none = 0
reported (some (number n)) = n
reported (some (boolean true)) = 1
reported (some (boolean false)) = 0
reported (some null) = 0
reported (some (text _)) = 0
reported (some (array _)) = 0
reported (some (object _)) = 0

abbrev pub use_usage : ℕ → Option Json → ℕ
use_usage chars (some (object usage)) =
    max chars (reported (field_of (codes "completion_tokens") usage) * 4)
use_usage chars none = chars
use_usage chars (some null) = chars
use_usage chars (some (boolean _)) = chars
use_usage chars (some (number _)) = chars
use_usage chars (some (text _)) = chars
use_usage chars (some (array _)) = chars

abbrev pub content_of : Option Json → ℕ
content_of (some (text c)) = length c
content_of none = 0
content_of (some null) = 0
content_of (some (boolean _)) = 0
content_of (some (number _)) = 0
content_of (some (array _)) = 0
content_of (some (object _)) = 0

abbrev pub delta_of : Option Json → ℕ
delta_of (some (object delta)) = content_of (field_of (codes "content") delta)
delta_of none = 0
delta_of (some null) = 0
delta_of (some (boolean _)) = 0
delta_of (some (number _)) = 0
delta_of (some (text _)) = 0
delta_of (some (array _)) = 0

abbrev pub choice_of : Json → ℕ
choice_of (object choice) = delta_of (field_of (codes "delta") choice)
choice_of null = 0
choice_of (boolean _) = 0
choice_of (number _) = 0
choice_of (text _) = 0
choice_of (array _) = 0

abbrev pub sum_choices : Items → ℕ
sum_choices no_items = 0
sum_choices (item c cs) = choice_of c + sum_choices cs

-- `for choice in obj.get("choices") or []`; the keys of a dict and the characters of a text are no
-- dicts.
abbrev pub use_choices : ℕ → Option Json → Option ℕ
use_choices chars none = some chars
use_choices chars (some null) = some chars
use_choices chars (some (boolean false)) = some chars
use_choices chars (some (boolean true)) = none
use_choices chars (some (number n)) = if n == 0 then some chars else none
use_choices chars (some (text _)) = some chars
use_choices chars (some (array cs)) = some (chars + sum_choices cs)
use_choices chars (some (object _)) = some chars

abbrev pub use_object : ℕ → Option Json → Option ℕ
use_object chars (some (object d)) =
    use_choices (use_usage chars (field_of (codes "usage") d)) (field_of (codes "choices") d)
use_object chars none = some chars
use_object chars (some null) = some chars
use_object chars (some (boolean _)) = some chars
use_object chars (some (number _)) = some chars
use_object chars (some (text _)) = some chars
use_object chars (some (array _)) = some chars

module _ (loads : Text → Option Json) where
  abbrev pub use_data : ℕ → Option Text → Option ℕ
  use_data chars none = some chars
  use_data chars (some data_text) =
      let payload = strip data_text in
      if text_eq payload (codes "[DONE]") then some chars else use_object chars (loads payload)

  abbrev pub consume_lines : ℕ → List Text → Option ℕ
  consume_lines chars [] = some chars
  consume_lines chars (line ∷ lines) =
      use_data chars (strip_prefix (codes "data:") line) >>= λ next. consume_lines next lines

  -- `_consume_event`
  unfoldable pub consume_event : ℕ → Text → Option ℕ
  consume_event chars event = consume_lines chars (split_lines event)

  -- The loop of `feed`, on the number of rounds that are left; `feed` gives one for each character
  -- of the buffer, and every round takes two at least.
  abbrev pub drain : ℕ → ℕ → Text → Option Counter
  drain zero chars buffer = some (chars, buffer)
  drain (suc n) chars buffer = elim (split_event buffer) [
    | none ↦ some (chars, buffer)
    | some (event, rest) ↦ consume_event chars event >>= λ next. drain n next rest
  ]

  -- `feed`: each chunk is decoded by itself.
  unfoldable pub feed : Counter → Text → Option Counter
  unfolding consume_event
  feed (chars, buffer) chunk = let both = buffer ++ decode chunk in drain (length both) chars both

  abbrev pub feed_all : Counter → List Text → Option Counter
  feed_all s [] = some s
  feed_all s (chunk ∷ chunks) = feed s chunk >>= λ next. feed_all next chunks

-- `completion_token_estimate`
abbrev pub completion_token_estimate : Counter → ℕ
completion_token_estimate s = s.0 / 4
