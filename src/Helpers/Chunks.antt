-- ===== src/Helpers/Chunks.antt =====
-- The chunks of `chunk_iterable` (a3m/archivematicaFunctions.py): no element is lost.
use a3m.Common.{
  ℕ, zero, suc, ◌≡◌, refl, ap, ◌∙◌, ◌≤◌, Option, none, some, List, [], ◌∷◌, ◌++◌, arith, length,
}
use a3m.Helpers.{next_chunk, chunks}

module _ {ℓ} {A : Type ℓ} where
  -- The elements that are not `None`.
  abbrev present : List (Option A) → List A
  present [] = []
  present (none ∷ chunk) = present chunk
  present (some x ∷ chunk) = x ∷ present chunk

  abbrev all_present : List (List (Option A)) → List A
  all_present [] = []
  all_present (chunk ∷ rest) = present chunk ++ all_present rest

  present-next_chunk :
      (n : ℕ) (xs : List A) → present (next_chunk n xs).0 ++ (next_chunk n xs).1 ≡ xs
  unfolding next_chunk
  present-next_chunk zero xs = refl
  present-next_chunk (suc n) [] = present-next_chunk n []
  present-next_chunk (suc n) (x ∷ xs) = ap (λ l. x ∷ l) (present-next_chunk n xs)

  length-next_chunk : (n : ℕ) (xs : List A) → length (next_chunk n xs).1 ≤ length xs
  unfolding next_chunk
  length-next_chunk zero xs = omega arith
  length-next_chunk (suc n) [] = length-next_chunk n []
  length-next_chunk (suc n) (x ∷ xs) = omega (arith, length-next_chunk n xs)

  -- With as much fuel as there are elements, the chunks have all elements, in order.
  all_present-chunks :
      (fuel n : ℕ) (xs : List A) → length xs ≤ fuel → all_present (chunks fuel (suc n) xs) ≡ xs
  unfolding chunks next_chunk
  all_present-chunks zero n [] h = refl
  all_present-chunks zero n (x ∷ xs) h = absurd (omega (arith, h))
  all_present-chunks (suc fuel) n [] h = refl
  all_present-chunks (suc fuel) n (x ∷ xs) h =
      ap (λ l. x ∷ (present (next_chunk n xs).0 ++ l))
        (all_present-chunks fuel n (next_chunk n xs).1 (omega (arith, h, length-next_chunk n xs)))
      ∙ ap (λ l. x ∷ l) (present-next_chunk n xs)
