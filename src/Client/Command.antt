-- ===== src/Client/Command.antt =====
-- The escapes of a command line: `_shlex_unescape` of a3m/client/mcp.py, and the escape of backticks
-- in a3m/server/jobs/client.py that it undoes.
use Prim.Native.Nat.{ℕ}
use Prim.Native.Char.{Char, code}
use Prim.Native.String.{String, [], ◌∷◌, ◌++◌}
use mathlib.Core.Path.{◌≡◌, refl, ap, ap₂, ◌∙◌}
use mathlib.Core.Bool.{true, false, ◌&&◌}
use native.Mathlib.Omega.{arith}
use text.Mathlib.TextLemmas.{cons-append, nil-append}
use text.Mathlib.TextEquality.{Char-path}
use a3m.Common.{nat_eq, if◌then◌else◌, Bool-cases, inl, inr}
use a3m.Common.Text.{replace, starts, replace_from}

-- The first character of `s[1:] + "."`, from the rest of `s`.
abbrev first_code : String → ℕ
first_code [] = 46
first_code (c ∷ s) = code c

-- Backslash is 92, the backtick 96.
unfoldable pub shlex_unescape : String → String
shlex_unescape [] = []
shlex_unescape (c ∷ s) =
    let rest = shlex_unescape s in
    if nat_eq (code c) 92 && nat_eq (first_code s) 96 then rest else c ∷ rest

-- The line of `_escape_for_command_line` on backticks.
abbrev pub escape_backticks : String → String
escape_backticks value = replace value "`" "\\`"

escape_other :
    (c : Char) (s : String)
    → nat_eq 96 (code c) ≡ false
    → escape_backticks (c ∷ s) ≡ c ∷ escape_backticks s
unfolding replace replace_from starts
escape_other c s e =
    ap (λ b. if b && true then "\\`" ++ escape_backticks s else c ∷ escape_backticks s) e

escape_backtick :
    (c : Char) (s : String)
    → nat_eq 96 (code c) ≡ true
    → escape_backticks (c ∷ s) ≡ "\\" ∷ "`" ∷ escape_backticks s
unfolding replace replace_from starts
escape_backtick c s e =
    ap (λ b. if b && true then "\\`" ++ escape_backticks s else c ∷ escape_backticks s) e
    ∙ two_characters (escape_backticks s)
  where
    two_characters : (t : String) → "\\`" ++ t ≡ "\\" ∷ "`" ∷ t
    two_characters t =
        cons-append "\\" "`" t
        ∙ ap (λ r. "\\" ∷ r) (cons-append "`" [] t ∙ ap (λ r. "`" ∷ r) (nil-append t))

backtick : (c : Char) → nat_eq 96 (code c) ≡ true → "`" ≡ c
backtick c e = Char-path "`" c (ground arith)

-- The first character of a text with its backticks escaped is none.
first_code-escape : (s : String) → nat_eq (first_code (escape_backticks s)) 96 ≡ false
unfolding replace replace_from
first_code-escape [] = refl
first_code-escape (c ∷ s) = elim (Bool-cases (nat_eq 96 (code c))) [
  | inl e ↦ ap (λ t. nat_eq (first_code t) 96) (escape_backtick c s e)
  | inr e ↦ ap (λ t. nat_eq (first_code t) 96) (escape_other c s e) ∙ ground arith
]

unescape_other :
    (c : Char) (s : String)
    → nat_eq (first_code s) 96 ≡ false
    → shlex_unescape (c ∷ s) ≡ c ∷ shlex_unescape s
unfolding shlex_unescape
unescape_other c s e = ground (arith, e)

-- The client undoes what the server did to the backticks of an argument.
pub shlex_unescape-escape_backticks : (s : String) → shlex_unescape (escape_backticks s) ≡ s
unfolding shlex_unescape replace replace_from
shlex_unescape-escape_backticks [] = refl
shlex_unescape-escape_backticks (c ∷ s) = elim (Bool-cases (nat_eq 96 (code c))) [
  | inl e ↦
      ap shlex_unescape (escape_backtick c s e)
      ∙ unescape_other "`" (escape_backticks s) (first_code-escape s)
      ∙ ap₂ (λ d r. d ∷ r) (backtick c e) (shlex_unescape-escape_backticks s)
  | inr e ↦
      ap shlex_unescape (escape_other c s e)
      ∙ unescape_other c (escape_backticks s) (first_code-escape s)
      ∙ ap (λ r. c ∷ r) (shlex_unescape-escape_backticks s)
]
