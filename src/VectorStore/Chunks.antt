-- ===== src/VectorStore/Chunks.antt =====
-- The batches of a list: how many, how long, and that together they are the list.
use ai_inference_gateway_pla.Base.{
  ℕ, zero, suc, ◌+◌, ◌-◌, ◌/◌, ◌≤◌, ◌≡◌, List, [], ◌∷◌, All, length, length-take, drop, join, arith,
}
use ai_inference_gateway_pla.VectorStore.{batches, chunked}
use ai_inference_gateway_pla.VectorStore.Batches.{join-batches}

module _ {A : Type 0} where
  length-drop_minus : (n : ℕ) (xs : List A) → length (drop n xs) ≡ length xs - n
  length-drop_minus zero xs = omega arith
  length-drop_minus (suc n) [] = omega arith
  length-drop_minus (suc n) (x ∷ xs) = omega (arith, length-drop_minus n xs)

  batches-short : (n size : ℕ) (xs : List A) → All (λ l. length l ≤ size) (batches n size xs)
  unfolding batches
  batches-short zero size xs = tt
  batches-short (suc n) size [] = tt
  batches-short (suc n) size (x ∷ xs) =
      (omega (arith, length-take size (x ∷ xs)), batches-short n size (drop size (x ∷ xs)))

  length-batches :
      (n : ℕ) (xs : List A)
      → length xs ≤ n
      → length (batches n 4000 xs) ≡ (length xs + 4000 - 1) / 4000
  unfolding batches
  length-batches zero [] h = omega arith
  length-batches zero (x ∷ xs) h = absurd (omega arith)
  length-batches (suc n) [] h = omega arith
  length-batches (suc n) (x ∷ xs) h =
      let dropped = length-drop_minus 4000 (x ∷ xs) in
      omega (arith, dropped, length-batches n (drop 4000 (x ∷ xs)) (omega arith))

  pub chunked-short : (size : ℕ) (xs : List A) → All (λ l. length l ≤ size) (chunked xs size)
  unfolding chunked
  chunked-short size xs = batches-short (length xs) size xs

  pub length-chunked : (xs : List A) → length (chunked xs 4000) ≡ (length xs + 4000 - 1) / 4000
  unfolding chunked
  length-chunked xs = length-batches (length xs) xs (omega arith)

  pub join-chunked-suc : (size : ℕ) (xs : List A) → join (chunked xs (suc size)) ≡ xs
  unfolding chunked
  join-chunked-suc size xs = join-batches (length xs) size xs (omega arith)
