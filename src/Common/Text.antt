-- ===== src/Common/Text.antt =====
-- Python's `str`, over the native `String`.
use Prim.Native.Nat.{ℕ, zero, suc, ◌-◌}
use Prim.Native.Char.{code}
use Prim.Native.String.{String, ◌++◌, [], ◌∷◌}
use mathlib.Core.Path.{◌≡◌, refl}
use mathlib.Core.Bool.{Bool, true, false, ◌&&◌, ◌||◌}
use a3m.Common.Tests.{nat_eq, if◌then◌else◌}

-- `s.startswith(prefix)`
unfoldable pub starts : String → String → Bool
starts [] s = true
starts (p ∷ ps) [] = false
starts (p ∷ ps) (c ∷ cs) = nat_eq (code p) (code c) && starts ps cs

-- The number of characters.
abbrev pub size : String → ℕ
size [] = 0
size (c ∷ s) = suc (size s)

-- `skip` characters of a match are still to be passed over.
unfoldable pub replace_from : (old new : String) (skip : ℕ) → String → String
replace_from old new skip [] = []
replace_from old new (suc skip) (c ∷ s) = replace_from old new skip s
replace_from old new zero (c ∷ s) =
    let after = new ++ replace_from old new (size old - 1) s in
    let kept = c ∷ replace_from old new zero s in if starts old (c ∷ s) then after else kept

-- `s.replace(old, new)` for an `old` that is not empty.
unfoldable pub replace : (s old new : String) → String
unfolding replace_from starts
replace s old new = replace_from old new zero s

replace_example : replace "a%b%c%b%" "%b%" "xy" ≡ "axycxy"
unfolding replace
replace_example = refl

-- `s[n:]`
abbrev pub drop : ℕ → String → String
drop zero s = s
drop (suc n) [] = []
drop (suc n) (c ∷ s) = drop n s

-- `s.replace(old, new, 1)`
unfoldable pub replace_first : (s old new : String) → String
unfolding starts
replace_first [] old new = []
replace_first (c ∷ s) old new =
    let rest = c ∷ replace_first s old new in
    if starts old (c ∷ s) then new ++ drop (size old) (c ∷ s) else rest

-- `part in s`
unfoldable pub contains : String → String → Bool
unfolding starts
contains part [] = starts part []
contains part (c ∷ s) = starts part (c ∷ s) || contains part s

-- `s.endswith(suffix)`
unfoldable pub ends : (suffix s : String) → Bool
unfolding starts
ends suffix [] = starts suffix []
ends suffix (c ∷ s) =
    let rest = ends suffix s in
    if nat_eq (size suffix) (suc (size s)) then starts suffix (c ∷ s) else rest
