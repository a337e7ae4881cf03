-- ===== src/Scripts/Names/Paths.antt =====
-- The names and paths that a3m/client/clientScripts/change_names.py gives.
use a3m.Common.{
  ℕ, zero, suc, String, ◌≡◌, ◌≢◌, refl, sym, ap, ◌∙◌, true, false, ◌==◌, ◌⊎◌, inl, inr, none, some,
  List, [], ◌∷◌, if◌then◌else◌, arith, mem, length, All, Distinct, pigeonhole, ok, Bool-cases,
  Option-cases, ok-injective, raise-ne-ok, eq_iff,
}
use mathlib.Core.Path.{subst}
use mathlib.Core.Option.{some-injective}
use a3m.Packages.{OsPath}
use a3m.Scripts.Names.{
  change_name, candidate, find_free, move, moved, found, change_to, change_path,
}
use a3m.Scripts.Names.Characters.{sub, IsAllowed, sub-IsAllowed, sub-empty}

-- A name that `change_name` gives has only ASCII letters, digits and `-_.()`, and is not empty,
-- whatever the transliteration does.
pub change_name-IsAllowed :
    (unidecode : String → String) (basename name : String)
    → change_name unidecode basename ≡ ok name
    → IsAllowed name × (name ≢ "")
unfolding change_name
change_name-IsAllowed unidecode basename name e = elim (Bool-cases (basename == "")) [
  | inl b ↦ absurd (raise-ne-ok (rw b at e))
  | inr b ↦
      let kept = if unidecode basename == "" then basename else unidecode basename in
      let named : sub kept ≡ name = ok-injective (rw b at e) in
      (
        subst IsAllowed named (sub-IsAllowed kept),
        λ empty.
            full (unidecode basename) b (Bool-cases (unidecode basename == ""))
              (sub-empty kept (named ∙ empty)),
      )
]
  where
    full :
        (u : String)
        → (basename == "") ≡ false
        → ((u == "") ≡ true) ⊎ ((u == "") ≡ false)
        → (if u == "" then basename else u) ≡ ""
        → ⊥
    full u b (inl p) q = ground (arith, p, b, q, eq_iff basename "")
    full u b (inr p) q = ground (arith, p, q, eq_iff u "")

-- The first names that the loop tries.
abbrev pub firsts : (ℕ → String) → (count n : ℕ) → List String
firsts candidates zero n = []
firsts candidates (suc count) n = candidates n ∷ firsts candidates count (suc n)

length-firsts : (candidates : ℕ → String) (count n : ℕ) → length (firsts candidates count n) ≡ count
length-firsts candidates zero n = refl
length-firsts candidates (suc count) n = ap suc (length-firsts candidates count (suc n))

find_free-none :
    (candidates : ℕ → String) (fuel n : ℕ) (existing : List String)
    → find_free candidates fuel n existing ≡ none
    → All (λ p. mem p existing ≡ true) (firsts candidates fuel n)
unfolding find_free
find_free-none candidates zero n existing h = tt
find_free-none candidates (suc fuel) n existing h =
    ground (arith, find_free-none candidates fuel (suc n) existing)

find_free-free :
    (candidates : ℕ → String) (fuel n : ℕ) (existing : List String) (p : String)
    → find_free candidates fuel n existing ≡ some p
    → mem p existing ≡ false
unfolding find_free
find_free-free candidates zero n existing p h = ground arith
find_free-free candidates (suc fuel) n existing p h =
    elim (Bool-cases (mem (candidates n) existing)) [
      | inl e ↦ find_free-free candidates fuel (suc n) existing p (rw e at h)
      | inr e ↦ ap (λ q. mem q existing) (sym (some-injective _ _ (rw e at h))) ∙ e
    ]

-- One name more than there are paths is enough.
find_free-found :
    (candidates : ℕ → String) (existing : List String)
    → Distinct (firsts candidates (suc (length existing)) zero)
    → (p : String) × (find_free candidates (suc (length existing)) zero existing ≡ some p)
find_free-found candidates existing d =
    elim (Option-cases (find_free candidates (suc (length existing)) zero existing)) [
      | inl e ↦ absurd (
          omega (
            arith,
            pigeonhole (firsts candidates (suc (length existing)) zero) existing d
                (find_free-none candidates (suc (length existing)) zero existing e),
            length-firsts candidates (suc (length existing)) zero,
          ))
      | inr p ↦ p
    ]

-- What a rename comes to: nothing, or a move to a path that was not there.
abbrev pub IsRenamed : String → List String → String × List String → Type 0
IsRenamed path existing (changed, after) =
    ((changed ≡ path) × (after ≡ existing))
    ⊎ ((mem changed existing ≡ false) × (after ≡ move path changed existing))

-- The loop of `change_path` ends, after no more rounds than there are paths and one, and no path is
-- overwritten: the file stays where it is or moves to a path that did not exist. The numbered names
-- are distinct.
pub change_path-IsRenamed :
    (os : OsPath) (unidecode : String → String) (path : String) (existing : List String)
    (name : String)
    → change_name unidecode (os.basename path) ≡ ok name
    → Distinct (
        firsts
          (candidate os (os.dirname path) (os.splitext name).0 (os.splitext name).1)
          (suc (length existing))
          zero)
    → (renamed : String × List String) × (change_path os unidecode
          (suc (length existing))
          path
          existing
        ≡ some (ok renamed))
      × IsRenamed path existing renamed
unfolding change_path change_to
change_path-IsRenamed os unidecode path existing name e d =
    elim (Bool-cases (os.basename path == name)) [
      | inl same ↦ ((path, existing), rw (e, same, change_to) refl, inl (refl, refl))
      | inr other ↦
          let tries = candidate os (os.dirname path) (os.splitext name).0 (os.splitext name).1 in
          let (p, f) = find_free-found tries existing d in
          (
            moved path existing p,
            rw (e, other, change_to) (ap (found path existing) f),
            inr (find_free-free tries (suc (length existing)) zero existing p f, refl),
          )
    ]
