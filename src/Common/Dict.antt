-- ===== src/Common/Dict.antt =====
-- Python's `dict` with text keys: an association list in the order of insertion. An assignment to a
-- key that is present keeps its place, as in Python.
use Prim.Native.Nat.{suc}
use Prim.Native.String.{String}
use mathlib.Core.Path.{◌≡◌, refl}
use mathlib.Core.Bool.{Bool, true, false, ◌||◌}
use mathlib.Core.Option.{Option, none, some}
use mathlib.Core.List.{List, [], ◌∷◌}
use native.Mathlib.Omega.{arith}
use text.Mathlib.Text.{◌==◌}
use text.Mathlib.TextEquality.{eq_iff}
use text.Mathlib.TextPositions.{eq_refl}
use a3m.Common.Tests.{if◌then◌else◌}
use a3m.Common.Lists.{length, mem, Distinct}

abbrev pub Dict {ℓ} : Type ℓ → Type ℓ
Dict V = List (String × V)

-- The value of `first` if it has one, else that of `second`.
abbrev pub or_else {ℓ} : {V : Type ℓ} → Option V → Option V → Option V
or_else (some v) second = some v
or_else none second = second

module _ {ℓ} {V : Type ℓ} where
  -- `d.get(k)`
  unfoldable pub lookup : String → Dict V → Option V
  lookup k [] = none
  lookup k ((j, v) ∷ d) = if j == k then some v else lookup k d

  -- `d[k] = v`
  unfoldable pub insert : String → V → Dict V → Dict V
  insert k v [] = (k, v) ∷ []
  insert k v ((j, w) ∷ d) = if j == k then (j, v) ∷ d else (j, w) ∷ insert k v d

  -- `del d[k]`, for a key that is present; a dict without `k` stays.
  unfoldable pub remove : String → Dict V → Dict V
  remove k [] = []
  remove k ((j, w) ∷ d) = let rest = remove k d in if j == k then rest else (j, w) ∷ rest

  -- `d.update(e)`
  unfoldable pub update : Dict V → Dict V → Dict V
  unfolding insert
  update d [] = d
  update d ((k, v) ∷ e) = update (insert k v d) e

  abbrev pub keys : Dict V → List String
  keys [] = []
  keys ((k, v) ∷ d) = k ∷ keys d

  -- `k in d`
  abbrev pub has : String → Dict V → Bool
  has k d = mem k (keys d)

  pub lookup-insert :
      (k j : String) (v : V) (d : Dict V)
      → lookup j (insert k v d) ≡ (if k == j then some v else lookup j d)
  unfolding lookup insert
  lookup-insert k j v [] = refl
  lookup-insert k j v ((i, w) ∷ d) =
      ground (arith, eq_iff k j, eq_iff i k, eq_iff i j, lookup-insert k j v d)

  pub lookup-insert_self : (k : String) (v : V) (d : Dict V) → lookup k (insert k v d) ≡ some v
  lookup-insert_self k v d = ground (arith, lookup-insert k k v d, eq_refl k)

  pub mem-keys-insert :
      (k j : String) (v : V) (d : Dict V) → has j (insert k v d) ≡ ((k == j) || has j d)
  unfolding insert
  mem-keys-insert k j v [] = refl
  mem-keys-insert k j v ((i, w) ∷ d) =
      ground (arith, eq_iff k j, eq_iff i k, eq_iff i j, mem-keys-insert k j v d)

  pub mem-keys-remove :
      (k j : String) (d : Dict V) → has j (remove k d) ≡ (if k == j then false else has j d)
  unfolding remove
  mem-keys-remove k j [] = ground arith
  mem-keys-remove k j ((i, w) ∷ d) =
      ground (arith, eq_iff k j, eq_iff i k, eq_iff i j, mem-keys-remove k j d)

  pub lookup-removed :
      (k j : String) (d : Dict V) → lookup j (remove k d) ≡ (if k == j then none else lookup j d)
  unfolding lookup remove
  lookup-removed k j [] = ground arith
  lookup-removed k j ((i, w) ∷ d) =
      ground (arith, eq_iff k j, eq_iff i k, eq_iff i j, lookup-removed k j d)

  pub Distinct-insert :
      (k : String) (v : V) (d : Dict V) → Distinct (keys d) → Distinct (keys (insert k v d))
  unfolding insert
  Distinct-insert k v [] h = (refl, tt)
  Distinct-insert k v ((i, w) ∷ d) h =
      ground (arith, eq_iff i k, eq_iff k i, mem-keys-insert k i v d, Distinct-insert k v d)

  pub Distinct-remove : (k : String) (d : Dict V) → Distinct (keys d) → Distinct (keys (remove k d))
  unfolding remove
  Distinct-remove k [] h = tt
  Distinct-remove k ((i, w) ∷ d) h = ground (arith, mem-keys-remove k i d, Distinct-remove k d)

  pub length-insert_new :
      (k : String) (v : V) (d : Dict V) → has k d ≡ false → length (insert k v d) ≡ suc (length d)
  unfolding insert
  length-insert_new k v [] h = refl
  length-insert_new k v ((i, w) ∷ d) h = ground (arith, length-insert_new k v d)

  remove_absent : (k : String) (d : Dict V) → has k d ≡ false → remove k d ≡ d
  unfolding remove
  remove_absent k [] h = refl
  remove_absent k ((i, w) ∷ d) h = ground (arith, remove_absent k d)

  pub length-remove :
      (k : String) (d : Dict V)
      → Distinct (keys d)
      → has k d ≡ true
      → length d ≡ suc (length (remove k d))
  unfolding remove
  length-remove k [] u h = ground arith
  length-remove k ((i, w) ∷ d) u h =
      ground (arith, eq_iff i k, length-remove k d, remove_absent k d)

  pub lookup-none : (k : String) (d : Dict V) → has k d ≡ false → lookup k d ≡ none
  unfolding lookup
  lookup-none k [] h = refl
  lookup-none k ((i, w) ∷ d) h = ground (arith, lookup-none k d)

  pub length-keys : (d : Dict V) → length (keys d) ≡ length d
  length-keys [] = refl
  length-keys ((k, v) ∷ d) = ground (arith, length-keys d)

  -- The value that an update gives, if its keys are distinct: its own first.
  pub lookup-update :
      (d e : Dict V) (j : String)
      → Distinct (keys e)
      → lookup j (update d e) ≡ or_else (lookup j e) (lookup j d)
  unfolding update lookup
  lookup-update d [] j u = refl
  lookup-update d ((k, v) ∷ e) j u =
      ground (
        arith,
        lookup-update (insert k v d) e j,
        lookup-insert k j v d,
        eq_iff k j,
        lookup-none k e,
      )
