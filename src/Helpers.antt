-- ===== src/Helpers.antt =====
-- The helpers that the client scripts call: `chunk_iterable` of a3m/archivematicaFunctions.py here, and in
-- the children a3m/dicts.py (Variables, with its texts in Options), a3m/executeOrRunSubProcess.py (Subprocess) and
-- a3m/databaseFunctions.py with a3m/fileOperations.py (Database); Chunks has a theorem.
pub mod Options
pub mod Variables
pub mod Subprocess
pub mod Database
mod Chunks
mod Tests
use a3m.Common.{ℕ, zero, suc, Option, some, none, List, [], ◌∷◌}

-- One tuple of `zip_longest`: the next `size` elements, `None` where there are no more, and the rest.
unfoldable pub next_chunk {ℓ} : {A : Type ℓ} → ℕ → List A → List (Option A) × List A
next_chunk zero xs = ([], xs)
next_chunk (suc size) [] = let later = next_chunk size [] in (none ∷ later.0, later.1)
next_chunk (suc size) (x ∷ xs) = let later = next_chunk size xs in (some x ∷ later.0, later.1)

-- The tuples, until there are no more elements; each round takes at least one.
unfoldable pub chunks {ℓ} : {A : Type ℓ} → (fuel : ℕ) → ℕ → List A → List (List (Option A))
unfolding next_chunk
chunks zero chunk_size xs = []
chunks (suc fuel) chunk_size [] = []
chunks (suc fuel) chunk_size (x ∷ xs) =
    let chunk = next_chunk chunk_size (x ∷ xs) in
    let rest = chunks fuel chunk_size chunk.1 in chunk.0 ∷ rest
