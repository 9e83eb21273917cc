-- ===== src/Telegram/Tests.antt =====
-- Escapes, and a digest of two parts to a server that refuses the first as MarkdownV2.
use ai_inference_gateway_pla.Base.{
  ℕ, zero, suc, ◌≡◌, refl, true, Option, none, some, List, [], ◌∷◌, ◌++◌, Text, codes, length,
  arith,
}
use mathlib.Core.List.{reverse}
use ai_inference_gateway_pla.Telegram.{
  TelegramConfig, Payload, is_special, sanitize_markdown, digest_texts, send_digest, send_message,
  send_trusted_markdown, send_error,
}
use ai_inference_gateway_pla.Telegram.Escape.{read_text, read-sanitize_markdown}
use ai_inference_gateway_pla.Telegram.Digest.{IsDigest, digest_texts-IsDigest}
use ai_inference_gateway_pla.Telegram.Posts.{marked_texts, send_digest-marked}

abbrev config : Option TelegramConfig
config = some (record { bot_token = codes "t"; chat_id = codes "7" })

abbrev refuse_markup : List Payload → Payload → Option ℕ
refuse_markup posted p = elim p.parse_mode [ none ↦ some 200 | some mode ↦ some 400 ]

-- The stars of an error's heading are escaped with the rest, and are sent as plain stars.
heading_is_plain :
    (send_error config refuse_markup (codes "x") [] []).0
    ≡ record {
      chat_id = codes "7";
      text = (0x26a0 ∷ 0xfe0f ∷ codes " \\*Agent Error\\*\n\n\\`x\\`");
      parse_mode = some (codes "Markdown");
    }
      ∷ []
unfolding send_error send_message is_special
heading_is_plain = refl

resent_plain : (send_digest config refuse_markup (codes "a_b") []).1 ≡ true
unfolding send_digest digest_texts send_trusted_markdown
resent_plain = refl

read-sanitize_markdown_example :
    read_text (sanitize_markdown (codes "a_b. c")) ≡ some (codes "a_b. c")
read-sanitize_markdown_example =
    read-sanitize_markdown (codes "a_b. c") (refl, (refl, (refl, (refl, (refl, (refl, tt))))))

long_text : ℕ → Text
long_text zero = []
long_text (suc n) = b'a' ∷ long_text n

length-long_text : (n : ℕ) → length (long_text n) ≡ n
unfolding long_text
length-long_text zero = refl
length-long_text (suc n) = omega (arith, length-long_text n)

digest_texts-IsDigest_example : IsDigest (long_text 5000) (digest_texts (long_text 5000))
digest_texts-IsDigest_example =
    digest_texts-IsDigest (long_text 5000) (omega (arith, length-long_text 5000))

send_digest-marked_example :
    marked_texts (send_digest config refuse_markup (long_text 5000) []).0
    ≡ reverse (digest_texts (long_text 5000)) ++ []
send_digest-marked_example =
    send_digest-marked config refuse_markup (long_text 5000) [] refl
      (omega (arith, length-long_text 5000))
