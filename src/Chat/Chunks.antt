-- ===== src/Chat/Chunks.antt =====
-- `chunkText` of rubezh-api/internal/chat/records.go: the pieces of an answer that are streamed.
use rubez_ai.Prelude.{
  ℕ, zero, suc, ◌≤◌, ◌<◌, ◌≡◌, refl, List, [], ◌∷◌, ◌++◌, arith, length, take, drop,
  take-append-drop, length-take, length-drop, All, Text,
}

-- All pieces in order.
abbrev pub concat : List Text → Text
concat [] = []
concat (s ∷ ss) = s ++ concat ss

-- The loop over `i`; the fuel is the length of the text, and each round takes at least one character.
unfoldable pub chunk_loop : ℕ → ℕ → Text → List Text
chunk_loop fuel size [] = []
chunk_loop zero size (c ∷ s) = []
chunk_loop (suc fuel) size (c ∷ s) = take size (c ∷ s) ∷ chunk_loop fuel size (drop size (c ∷ s))

unfoldable pub chunk_text : Text → ℕ → List Text
unfolding chunk_loop
chunk_text s size = chunk_loop (length s) size s

chunk_all :
    (fuel size : ℕ) (s : Text) → 0 < size → length s ≤ fuel → concat (chunk_loop fuel size s) ≡ s
unfolding chunk_loop
chunk_all fuel size [] p h = refl
chunk_all zero size (c ∷ s) p h = absurd (omega arith)
chunk_all (suc fuel) size (c ∷ s) p h =
    rw (chunk_all fuel size (drop size (c ∷ s)) p (omega (arith, length-drop size (c ∷ s))))
      (take-append-drop size (c ∷ s))

chunk_sizes :
    (fuel size : ℕ) (s : Text)
    → 0 < size
    → All (λ c. (0 < length c) × (length c ≤ size)) (chunk_loop fuel size s)
unfolding chunk_loop
chunk_sizes fuel size [] p = tt
chunk_sizes zero size (c ∷ s) p = tt
chunk_sizes (suc fuel) size (c ∷ s) p = (
  (omega (arith, length-take size (c ∷ s)), omega (arith, length-take size (c ∷ s))),
  chunk_sizes fuel size (drop size (c ∷ s)) p,
)

-- For a positive size, the pieces in order are the whole text, and each piece is neither empty nor
-- longer than the size.
pub chunk_text-whole :
    (s : Text) (size : ℕ)
    → 0 < size
    → (concat (chunk_text s size) ≡ s)
      × All (λ c. (0 < length c) × (length c ≤ size)) (chunk_text s size)
unfolding chunk_text
chunk_text-whole s size p =
    (chunk_all (length s) size s p (omega arith), chunk_sizes (length s) size s p)
