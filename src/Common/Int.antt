-- ===== src/Common/Int.antt =====
-- Integers over the native numbers: exit codes. `negsuc n` is -(n + 1).
use Prim.Native.Nat.{ℕ, zero, suc, ◌+◌, ◌-◌, ◌/◌, ◌%◌, max}
use Prim.Native.String.{String, ◌++◌}
use mathlib.Core.Path.{◌≡◌, refl}
use mathlib.Core.Bool.{Bool, true, false}
use mathlib.Core.Option.{Option, none, some}
use a3m.Common.Tests.{ltb, nat_eq, if◌then◌else◌}

pub data ℤ : Type 0 where
  pos : ℕ → ℤ
  negsuc : ℕ → ℤ

-- Python's truth of an `int`.
abbrev pub is_nonzero : ℤ → Bool
is_nonzero (pos zero) = false
is_nonzero _ = true

-- `z > 0`
abbrev pub is_positive : ℤ → Bool
is_positive (pos zero) = false
is_positive (pos _) = true
is_positive (negsuc _) = false

-- `max([a, b])`
abbrev pub max_ℤ : ℤ → ℤ → ℤ
max_ℤ (pos a) (pos b) = pos (max a b)
max_ℤ (pos a) (negsuc b) = pos a
max_ℤ (negsuc a) (pos b) = pos b
max_ℤ (negsuc a) (negsuc b) = if ltb b a then negsuc b else negsuc a

-- `a + b`
infixl 6 ◌+ℤ◌
abbrev pub ◌+ℤ◌ : ℤ → ℤ → ℤ
(pos a) +ℤ (pos b) = pos (a + b)
(pos a) +ℤ (negsuc b) = if ltb b a then pos (a - suc b) else negsuc (b - a)
(negsuc a) +ℤ (pos b) = if ltb a b then pos (b - suc a) else negsuc (a - b)
(negsuc a) +ℤ (negsuc b) = negsuc (suc (a + b))

-- `value or 0`
abbrev pub or_zero : Option ℤ → ℤ
or_zero none = pos 0
or_zero (some z) = z

digit : ℕ → String
digit d =
    if nat_eq d 0
    then "0"
    else if nat_eq d 1
    then "1"
    else if nat_eq d 2
    then "2"
    else if nat_eq d 3
    then "3"
    else if nat_eq d 4
    then "4"
    else if nat_eq d 5
    then "5"
    else if nat_eq d 6
    then "6"
    else if nat_eq d 7
    then "7"
    else if nat_eq d 8
    then "8"
    else "9"

-- The decimal digits of `n`, with as much fuel as `n`: each round divides by ten.
decimal : ℕ → ℕ → String
unfolding digit
decimal zero n = digit n
decimal (suc fuel) n =
    let rest = decimal fuel (n / 10) in if ltb n 10 then digit n else rest ++ digit (n % 10)

-- `str(n)`
unfoldable pub show : ℕ → String
unfolding decimal
show n = decimal n n

-- `str(code)` of an exit code, or of `None`.
unfoldable pub show_code : Option ℤ → String
unfolding show
show_code none = "None"
show_code (some (pos n)) = show n
show_code (some (negsuc n)) = "-" ++ show (n + 1)

show_code_example : show_code (some (pos 254)) ≡ "254"
unfolding show_code
show_code_example = refl
