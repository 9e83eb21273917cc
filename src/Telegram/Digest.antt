-- ===== src/Telegram/Digest.antt =====
-- The parts of a digest: together they are the text, and none is too long for a message.
use ai_inference_gateway_pla.Base.{
  ℕ, suc, ◌+◌, ◌-◌, ◌/◌, ◌≤◌, ◌<◌, ◌≡◌, refl, sym, ap, inl, inr, Bool-cases, List, [], ◌∷◌, ◌++◌,
  Text, All, codes, length, length-append, join, leb, arith, decimal, length-decimal, ten_to,
}
use mathlib.Core.List.{append-nil}
use ai_inference_gateway_pla.VectorStore.{chunked}
use ai_inference_gateway_pla.VectorStore.Chunks.{chunked-short, length-chunked, join-chunked-suc}
use ai_inference_gateway_pla.Telegram.{part_header, later_parts, parts_of, digest_texts}

-- A message of the Bot API has at most 4,096 characters.
abbrev pub IsMessage : Text → Type 0
IsMessage text = length text ≤ 4096

-- The header of a part, for numbers of at most forty digits.
length-part_header :
    (number parts : ℕ)
    → number < ten_to 40
    → parts < ten_to 40
    → length (part_header number parts) ≤ 90
length-part_header number parts h k = omega (
  arith,
  length-append (decimal number) (codes "/" ++ (decimal parts ++ codes "]\n\n")),
  length-append (decimal parts) (codes "]\n\n"),
  length-decimal number 40 h (omega arith),
  length-decimal parts 40 k (omega arith),
)

later_parts-IsMessage :
    (number parts : ℕ) (chunks : List Text)
    → number + length chunks ≤ ten_to 40
    → parts < ten_to 40
    → All (λ l. length l ≤ 4000) chunks
    → All IsMessage (later_parts number parts chunks)
later_parts-IsMessage number parts [] h k short = tt
later_parts-IsMessage number parts (chunk ∷ chunks) h k short =
    let header = length-part_header number parts (omega arith) k in
    (
      omega (arith, header, length-append (part_header number parts) chunk, short.0),
      later_parts-IsMessage (suc number) parts chunks (omega arith) k short.1,
    )

parts_of-IsMessage :
    (parts : ℕ) (chunks : List Text)
    → length chunks < ten_to 40
    → parts < ten_to 40
    → All (λ l. length l ≤ 4000) chunks
    → All IsMessage (parts_of parts chunks)
parts_of-IsMessage parts [] h k short = tt
parts_of-IsMessage parts (chunk ∷ chunks) h k short =
    (omega (arith, short.0), later_parts-IsMessage 2 parts chunks (omega arith) k short.1)

-- What the texts of a digest are: pieces of the text, each behind its header but the first, with the
-- number of all pieces in the headers.
pub record IsDigest (text : Text) (texts : List Text) : Type 0 where
  pub chunks : List Text
  pub headed : texts ≡ parts_of (length chunks) chunks
  pub whole : join chunks ≡ text
  pub messages : All IsMessage texts

-- A digest is sent in pieces that together are its text; each but the first has a header with its
-- number and the number of pieces, and none is longer than a message may be, so that cutting a
-- message at 4,096 characters loses nothing. This is for texts of less than `10 ^ 40` characters.
pub digest_texts-IsDigest :
    (text : Text) → length text < ten_to 40 → IsDigest text (digest_texts text)
unfolding digest_texts
digest_texts-IsDigest text h = elim (Bool-cases (leb (length text) 4000)) [
  | inl e ↦ rw e (record {
    chunks = text ∷ [];
    headed = refl;
    whole = append-nil text;
    messages = (ground arith, tt);
  })
  | inr e ↦
      let count = length-chunked text in
      rw e (record {
        chunks = chunked text 4000;
        headed = ap (λ n. parts_of n (chunked text 4000)) (sym count);
        whole = join-chunked-suc 3999 text;
        messages =
            parts_of-IsMessage ((length text + 4000 - 1) / 4000) (chunked text 4000) (omega arith)
              (omega arith) (chunked-short 4000 text);
      })
]
