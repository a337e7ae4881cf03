-- ===== src/Helpers/Options.antt =====
-- The texts of a3m/dicts.py: the name of a GNU-style option, and a path without its last slashes.
use Prim.Native.Nat.{ℕ}
use Prim.Native.Char.{code}
use Prim.Native.String.{String, [], ◌∷◌}
use mathlib.Core.Bool.{Bool, not, ◌&&◌}
use text.Mathlib.Text.{◌==◌}
use a3m.Common.{nat_eq, leb, if◌then◌else◌}

-- `[A-Z]`
abbrev is_upper : ℕ → Bool
is_upper c = leb 65 c && leb c 90

-- `re.sub(r"([A-Z]+)", r"-\1", s)`: a hyphen before each run of capitals.
unfoldable pub hyphenate : (inside : Bool) → String → String
hyphenate inside [] = []
hyphenate inside (c ∷ s) =
    let rest = hyphenate (is_upper (code c)) s in
    if is_upper (code c) && not inside then "-" ∷ c ∷ rest else c ∷ rest

unfoldable pub without_last : String → String
without_last [] = []
without_last (c ∷ []) = []
without_last (c ∷ d ∷ s) = c ∷ without_last (d ∷ s)

-- `key[1:-1]`
unfoldable pub inner : String → String
unfolding without_last
inner [] = []
inner (c ∷ s) = without_last s

-- `s.rstrip("/")`
unfoldable pub rstrip_slashes : String → String
rstrip_slashes [] = []
rstrip_slashes (c ∷ s) =
    let rest = rstrip_slashes s in if (rest == []) && nat_eq (code c) 47 then [] else c ∷ rest
