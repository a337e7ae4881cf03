-- ===== src/Scripts/Names/Characters.antt =====
-- The characters that a3m/client/clientScripts/change_names.py leaves in a name (`ALLOWED_CHARS`).
use Prim.Native.Nat.{ℕ}
use Prim.Native.Char.{code}
use Prim.Native.String.{String, [], ◌∷◌}
use mathlib.Core.Path.{◌≡◌, refl, ap, ◌∙◌}
use mathlib.Core.Bool.{Bool, true, false, ◌&&◌, ◌||◌}
use text.Mathlib.TextLemmas.{cons≢nil}
use a3m.Common.{nat_eq, leb, if◌then◌else◌}

abbrev within : ℕ → ℕ → ℕ → Bool
within low high c = leb low c && leb c high

-- `[a-zA-Z0-9\-_.\(\)]`
unfoldable pub is_allowed : ℕ → Bool
is_allowed c =
    within 97 122 c
    || within 65 90 c
    || within 48 57 c
    || nat_eq c 45
    || nat_eq c 95
    || nat_eq c 46
    || nat_eq c 40
    || nat_eq c 41

-- `ALLOWED_CHARS.sub(REPLACEMENT_CHAR, s)`
unfoldable pub sub : String → String
unfolding is_allowed
sub [] = []
sub (c ∷ s) = (if is_allowed (code c) then c else "_") ∷ sub s

-- Every character of the text is allowed.
abbrev pub IsAllowed : String → Type 0
IsAllowed [] = Unit
IsAllowed (c ∷ s) = (is_allowed (code c) ≡ true) × IsAllowed s

pub sub-IsAllowed : (s : String) → IsAllowed (sub s)
unfolding sub
sub-IsAllowed [] = tt
sub-IsAllowed (c ∷ s) = (pick (is_allowed (code c)) refl, sub-IsAllowed s)
  where
    pick : (b : Bool) → is_allowed (code c) ≡ b → is_allowed (code (if b then c else "_")) ≡ true
    pick true e = e
    pick false e = refl

-- An allowed name stays as it is.
pub sub-allowed : (s : String) → IsAllowed s → sub s ≡ s
unfolding sub
sub-allowed [] h = refl
sub-allowed (c ∷ s) h =
    ap (λ b. (if b then c else "_") ∷ sub s) h.0 ∙ ap (λ r. c ∷ r) (sub-allowed s h.1)

pub sub-empty : (s : String) → sub s ≡ [] → s ≡ []
unfolding sub
sub-empty [] h = refl
sub-empty (c ∷ s) h = absurd (cons≢nil h)
