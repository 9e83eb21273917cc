-- ===== src/Telegram/Posts.antt =====
-- What `send_digest` posts.
use mathlib.Core.List.{reverse, reverse-cons, append_assoc}
use ai_inference_gateway_pla.Base.{
  ℕ, codes, text_eq, if◌then◌else◌, zero, suc, ◌≤◌, ◌≡◌, refl, sym, ap, ◌∙◌, inl, inr, true,
  Bool-cases, Option, none, some, List, [], ◌∷◌, ◌++◌, Text, All, length, take, arith, ten_to, ◌<◌,
}
use ai_inference_gateway_pla.Telegram.{
  TelegramConfig, Payload, is_available, is_ok, is_bad_request, markdown_payload, settle_trusted,
  send_trusted_markdown, send_all, digest_texts, send_digest,
}
use ai_inference_gateway_pla.Telegram.Digest.{IsMessage, digest_texts-IsDigest}

abbrev add_marked : Option Text → Text → List Text → List Text
add_marked none text texts = texts
add_marked (some mode) text texts =
    if text_eq mode (codes "MarkdownV2") then text ∷ texts else texts

-- The texts of the posts as MarkdownV2.
abbrev pub marked_texts : List Payload → List Text
marked_texts [] = []
marked_texts (p ∷ ps) = add_marked p.parse_mode p.text (marked_texts ps)

take_all : (n : ℕ) (s : Text) → length s ≤ n → take n s ≡ s
take_all zero [] h = refl
take_all zero (c ∷ s) h = absurd (omega arith)
take_all (suc n) [] h = refl
take_all (suc n) (c ∷ s) h = ap (◌∷◌ c) (take_all n s (omega arith))

module _ (config : Option TelegramConfig) (answer : List Payload → Payload → Option ℕ) where
  settle-marked :
      (text : Text) (posted : List Payload) (status : Option ℕ)
      → marked_texts (settle_trusted config answer text posted status).0 ≡ marked_texts posted
  settle-marked text posted status = elim (Bool-cases (is_ok status)) [
    | inl e ↦ rw e refl
    | inr e ↦ elim (Bool-cases (is_bad_request status)) [
      | inl f ↦ rw (e, f) refl
      | inr f ↦ rw (e, f) refl
    ]
  ]

  trusted-marked :
      (text : Text) (posted : List Payload)
      → is_available config ≡ true
      → marked_texts (send_trusted_markdown config answer text posted).0
        ≡ take 4096 text ∷ marked_texts posted
  unfolding send_trusted_markdown
  trusted-marked text posted h =
      rw (send_trusted_markdown, h)
        (settle-marked text (markdown_payload config answer text ∷ posted)
          (answer posted (markdown_payload config answer text)))

  send_all-marked :
      (texts : List Text) (posted : List Payload)
      → is_available config ≡ true
      → All IsMessage texts
      → marked_texts (send_all config answer texts posted).0 ≡ reverse texts ++ marked_texts posted
  send_all-marked [] posted h messages = refl
  send_all-marked (text ∷ texts) posted h messages =
      send_all-marked texts (send_trusted_markdown config answer text posted).0 h messages.1
      ∙ ap (λ l. reverse texts ++ l)
          (trusted-marked text posted h
            ∙ ap (λ t. t ∷ marked_texts posted) (take_all 4096 text messages.0))
      ∙ sym (append_assoc (reverse texts) (text ∷ []) (marked_texts posted))
      ∙ ap (λ l. l ++ marked_texts posted) (sym (reverse-cons text texts))

  -- Where Telegram is configured, every part of a digest of less than `10 ^ 40` characters is posted
  -- as MarkdownV2, whole and in order, whatever the server answers to the parts before.
  pub send_digest-marked :
      (text : Text) (posted : List Payload)
      → is_available config ≡ true
      → length text < ten_to 40
      → marked_texts (send_digest config answer text posted).0
        ≡ reverse (digest_texts text) ++ marked_texts posted
  unfolding send_digest
  send_digest-marked text posted available h =
      send_all-marked (digest_texts text) posted available (digest_texts-IsDigest text h).messages
