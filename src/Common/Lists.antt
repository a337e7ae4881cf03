-- ===== src/Common/Lists.antt =====
-- Lists measured by native numbers, under the library's names, and membership of texts as a test.
use Prim.Native.Nat.{ℕ, suc, ◌+◌, ◌≤◌}
use Prim.Native.String.{String}
use mathlib.Core.Path.{◌≡◌, refl, sym, ap, ◌∙◌}
use mathlib.Core.Logic.{◌≢◌, inl, inr}
use mathlib.Core.Bool.{Bool, true, false, not, ◌||◌}
use mathlib.Core.List.{List, [], ◌∷◌, ◌++◌}
use native.Mathlib.Omega.{arith}
use text.Mathlib.Text.{◌==◌}
use text.Mathlib.TextEquality.{eq_iff}
use text.Mathlib.TextPositions.{eq_refl}
use a3m.Common.Tests.{if◌then◌else◌, Bool-cases}

module _ {ℓ} {A : Type ℓ} where
  abbrev pub length : List A → ℕ
  length [] = 0
  length (x ∷ xs) = suc (length xs)

  pub length-append : (xs ys : List A) → length (xs ++ ys) ≡ length xs + length ys
  length-append [] ys = omega arith
  length-append (x ∷ xs) ys = omega (arith, length-append xs ys)

  -- Every element satisfies `P`.
  abbrev pub All {κ} : (A → Type κ) → List A → Type κ
  All P [] = Unit
  All P (x ∷ xs) = P x × All P xs

  pub All-append {κ} :
      (Holds : A → Type κ) (before after : List A)
      → All Holds before
      → All Holds after
      → All Holds (before ++ after)
  All-append Holds [] after left right = right
  All-append Holds (x ∷ before) after (first, left) right =
      (first, All-append Holds before after left right)

-- `x in xs` for a list of texts.
abbrev pub mem : String → List String → Bool
mem x [] = false
mem x (y ∷ ys) = (y == x) || mem x ys

-- No text stands twice.
abbrev pub Distinct : List String → Type 0
Distinct [] = Unit
Distinct (x ∷ xs) = (mem x xs ≡ false) × Distinct xs

pub mem-append : (x : String) (ys zs : List String) → mem x (ys ++ zs) ≡ (mem x ys || mem x zs)
mem-append x [] zs = refl
mem-append x (y ∷ ys) zs = ground (arith, mem-append x ys zs)

-- `xs` without the first `x`.
pub erase : String → List String → List String
erase x [] = []
erase x (y ∷ ys) = if y == x then ys else y ∷ erase x ys

length-erase :
    (x : String) (ys : List String) → mem x ys ≡ true → length ys ≡ suc (length (erase x ys))
unfolding erase
length-erase x [] h = ground arith
length-erase x (y ∷ ys) h = ground (arith, length-erase x ys)

mem-erase :
    (x z : String) (ys : List String)
    → (x == z) ≡ false
    → mem z ys ≡ true
    → mem z (erase x ys) ≡ true
unfolding erase
mem-erase x z [] ne h = h
mem-erase x z (y ∷ ys) ne h =
    ground (arith, mem-erase x z ys ne, eq_iff y x, eq_iff y z, eq_iff x z)

All-erase :
    (x : String) (xs ys : List String)
    → mem x xs ≡ false
    → All (λ z. mem z ys ≡ true) xs
    → All (λ z. mem z (erase x ys) ≡ true) xs
All-erase x [] ys h all = tt
All-erase x (w ∷ ws) ys h all = (
  mem-erase x w ys (ground (arith, eq_iff w x, eq_iff x w)) all.0,
  All-erase x ws ys (ground arith) all.1,
)

-- Distinct texts that all stand in `ys` are no more than `ys` has.
pub pigeonhole :
    (xs ys : List String) → Distinct xs → All (λ x. mem x ys ≡ true) xs → length xs ≤ length ys
pigeonhole [] ys d all = omega arith
pigeonhole (x ∷ xs) ys d all =
    omega
      (arith, length-erase x ys all.0, pigeonhole xs (erase x ys) d.1 (All-erase x xs ys d.0 all.1))

not_self : (b : Bool) → not b ≢ b
not_self true = λ e. cc
not_self false = λ e. cc

pub Distinct-snoc :
    (xs : List String) (x : String) → Distinct xs → mem x xs ≡ false → Distinct (xs ++ x ∷ [])
Distinct-snoc [] x d h = (refl, tt)
Distinct-snoc (y ∷ ys) x d h =
    ground (arith, Distinct-snoc ys x, mem-append y ys (x ∷ []), eq_iff y x, eq_iff x y)

-- Distinct texts stay distinct without the one in the middle, which stands nowhere else.
pub Distinct-middle :
    (xs : List String) (y : String) (zs : List String)
    → Distinct (xs ++ y ∷ zs)
    → Distinct (xs ++ zs) × (mem y (xs ++ zs) ≡ false)
Distinct-middle [] y zs d = (d.1, d.0)
Distinct-middle (x ∷ xs) y zs d = ground (
  arith,
  Distinct-middle xs y zs d.1,
  mem-append x xs (y ∷ zs),
  mem-append x xs zs,
  eq_iff x y,
  eq_iff y x,
)

pub All-middle {ℓ} :
    (P : String → Type ℓ) (xs : List String) (y : String) (zs : List String)
    → All P (xs ++ y ∷ zs)
    → P y × All P (xs ++ zs)
All-middle P [] y zs h = h
All-middle P (x ∷ xs) y zs h = let (hy, rest) = All-middle P xs y zs h.1 in (hy, (h.0, rest))

-- From one predicate to another, at the members.
pub All-of_mem {ℓ κ} :
    (P : String → Type ℓ) (Q : String → Type κ) (xs : List String)
    → ((x : String) → mem x xs ≡ true → P x → Q x)
    → All P xs
    → All Q xs
All-of_mem P Q [] f h = tt
All-of_mem P Q (x ∷ xs) f h = (
  f x (ground (arith, eq_refl x)) h.0,
  All-of_mem P Q xs (λ y m p. f y (ground (arith, m)) p) h.1,
)

-- A text that is outside a test that all members pass is no member.
pub not-mem_of_All :
    (f : String → Bool) (b : Bool) (x : String) (xs : List String)
    → All (λ y. f y ≡ b) xs
    → f x ≡ not b
    → mem x xs ≡ false
not-mem_of_All f b x [] h e = refl
not-mem_of_All f b x (y ∷ ys) h e = elim (Bool-cases (y == x)) [
  | inl p ↦ absurd (not_self b (sym (sym h.0 ∙ ap f ((eq_iff y x).0 p) ∙ e)))
  | inr p ↦ rw p (not-mem_of_All f b x ys h.1 e)
]
