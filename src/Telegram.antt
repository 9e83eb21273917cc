-- ===== src/Telegram.antt =====
-- apps/agents/services/telegram/service.py. The Bot API is a parameter: what it answers to a post,
-- given all posts before. The logs and the counters are left out.
use mathlib.Core.List.{flat_map}
use ai_inference_gateway_pla.Base.{
  ℕ, zero, suc, ◌+◌, ◌-◌, ◌/◌, ◌≡◌, Bool, true, false, ◌&&◌, ◌||◌, not, Option, none, some, List,
  [], ◌∷◌, ◌++◌, Text, codes, length, take, leb, text_eq, ◌==◌, if◌then◌else◌, decimal,
}
use ai_inference_gateway_pla.Chunker.{is_empty}
use ai_inference_gateway_pla.VectorStore.{chunked}
pub mod Escape
pub mod Digest
pub mod Posts
mod Tests

-- `escape_chars`
abbrev pub escape_chars : Text
escape_chars = codes "_*[]()~`>#+-=|{}.!"

abbrev pub is_in : ℕ → Text → Bool
is_in c [] = false
is_in c (d ∷ s) = (c == d) || is_in c s

unfoldable pub is_special : ℕ → Bool
is_special c = is_in c escape_chars

-- What one round of the loop appends.
abbrev pub escaped : ℕ → Text
escaped c = if is_special c then b'\\' ∷ c ∷ [] else c ∷ []

-- `_sanitize_markdown`, and `_sanitize_markdown_v2`, which has the same text
abbrev pub sanitize_markdown : Text → Text
sanitize_markdown [] = []
sanitize_markdown (c ∷ s) = escaped c ++ sanitize_markdown s

pub record TelegramConfig : Type 0 where
  pub bot_token : Text
  pub chat_id : Text

-- `is_available`
abbrev pub is_available : Option TelegramConfig → Bool
is_available none = false
is_available (some config) = not (is_empty config.bot_token) && not (is_empty config.chat_id)

abbrev pub chat_of : Option TelegramConfig → Text
chat_of none = []
chat_of (some config) = config.chat_id

pub record Payload : Type 0 where
  pub chat_id : Text
  pub text : Text
  pub parse_mode : Option Text

abbrev pub safe_text : Option Text → Text → Text
safe_text none text = text
safe_text (some mode) text =
    if text_eq mode (codes "Markdown") || text_eq mode (codes "MarkdownV2")
    then sanitize_markdown text
    else text

-- `if parse_mode: payload["parse_mode"] = parse_mode`
abbrev pub mode_of : Option Text → Option Text
mode_of none = none
mode_of (some mode) = if is_empty mode then none else some mode

abbrev pub is_ok : Option ℕ → Bool
is_ok none = false
is_ok (some status) = status == 200

abbrev pub is_bad_request : Option ℕ → Bool
is_bad_request none = false
is_bad_request (some status) = status == 400

-- `f"[Part {i // chunk_size + 1}/{(len(text) + chunk_size - 1) // chunk_size}]\n\n"`, for the part
-- of this number
abbrev pub part_header : ℕ → ℕ → Text
part_header number parts =
    codes "[Part " ++ (decimal number ++ (codes "/" ++ (decimal parts ++ codes "]\n\n")))

-- `chunk = header + chunk` for all but the first
abbrev pub later_parts : ℕ → ℕ → List Text → List Text
later_parts number parts [] = []
later_parts number parts (chunk ∷ chunks) =
    (part_header number parts ++ chunk) ∷ later_parts (suc number) parts chunks

abbrev pub parts_of : ℕ → List Text → List Text
parts_of parts [] = []
parts_of parts (chunk ∷ chunks) = chunk ∷ later_parts 2 parts chunks

-- The texts that `send_digest` sends.
unfoldable pub digest_texts : Text → List Text
digest_texts text =
    if leb (length text) 4000
    then text ∷ []
    else parts_of ((length text + 4000 - 1) / 4000) (chunked text 4000)

-- A method returns the posts so far, the last in front, and whether it succeeded. An answer is a
-- status, or `none` for a RequestError.
module _ (config : Option TelegramConfig) (answer : List Payload → Payload → Option ℕ) where
  abbrev pub post : Payload → List Payload → List Payload × Option ℕ
  post payload posted = (payload ∷ posted, answer posted payload)

  -- `send_message`
  unfoldable pub send_message : Text → Option Text → List Payload → List Payload × Bool
  send_message text parse_mode posted =
      let payload : Payload = record {
        chat_id = chat_of config;
        text = take 4096 (safe_text parse_mode text);
        parse_mode = mode_of parse_mode;
      } in
      if is_available config
      then (payload ∷ posted, is_ok (answer posted payload))
      else (posted, false)

  abbrev pub markdown_payload : Text → Payload
  markdown_payload text = record {
    chat_id = chat_of config;
    text = take 4096 text;
    parse_mode = some (codes "MarkdownV2");
  }

  -- `payload.pop("parse_mode", None)`
  abbrev pub plain_payload : Text → Payload
  plain_payload text = record (markdown_payload text) { parse_mode = none }

  abbrev pub send_plain : Text → List Payload → List Payload × Bool
  send_plain text posted = (plain_payload text ∷ posted, is_ok (answer posted (plain_payload text)))

  abbrev pub settle_trusted : Text → List Payload → Option ℕ → List Payload × Bool
  settle_trusted text posted status =
      if is_ok status
      then (posted, true)
      else if is_bad_request status
      then send_plain text posted
      else (posted, false)

  -- `_send_trusted_markdown`
  unfoldable pub send_trusted_markdown : Text → List Payload → List Payload × Bool
  send_trusted_markdown text posted =
      if is_available config
      then settle_trusted text (markdown_payload text ∷ posted)
          (answer posted (markdown_payload text))
      else (posted, false)

  -- The loop of `send_digest`: `success` is true if every part was sent.
  abbrev pub send_all : List Text → List Payload → List Payload × Bool
  send_all [] posted = (posted, true)
  send_all (text ∷ texts) posted =
      let (posted', sent) = send_trusted_markdown text posted in
      let (end, success) = send_all texts posted' in (end, sent && success)

  -- `send_digest`
  unfoldable pub send_digest : Text → List Payload → List Payload × Bool
  unfolding digest_texts
  send_digest text posted = send_all (digest_texts text) posted

  -- `text` of `send_error`
  abbrev pub error_text : Text → Text → Text
  error_text error_message agent_name =
      (0x26a0 ∷ 0xfe0f ∷ codes " *Agent Error*")
      ++ ((if is_empty agent_name then [] else codes ": " ++ agent_name)
          ++ (codes "\n\n`" ++ (take 500 error_message ++ codes "`")))

  -- `send_error`
  unfoldable pub send_error : Text → Text → List Payload → List Payload × Bool
  unfolding send_message
  send_error error_message agent_name posted =
      send_message (error_text error_message agent_name) (some (codes "Markdown")) posted
