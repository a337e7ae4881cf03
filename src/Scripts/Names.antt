-- ===== src/Scripts/Names.antt =====
-- a3m/client/clientScripts/change_names.py: the names that a file or directory may have, and the
-- renaming of a tree. `unidecode` and `os.path` are parameters. The file system is the list of the
-- paths that exist; a directory is renamed with what is below it, so that a listing has the paths of
-- one directory. The loop of `change_path` runs on fuel.
-- The children: Characters, Paths (theorems), Batches (change_object_names.py).
pub mod Characters
pub mod Paths
pub mod Batches
mod Tests
use a3m.Common.{
  ℕ, zero, suc, String, Bool, true, false, ◌==◌, Option, none, some, List, [], ◌∷◌, ◌++◌,
  if◌then◌else◌, mem, length, Exception, value_error, Result, ok, raise,
}
use Prim.Native.String.{◌++◌ as ◌⧺◌}
use a3m.Common.Int.{show}
use a3m.Packages.{OsPath}
use a3m.Scripts.Names.Characters.{sub}

-- `change_name`
unfoldable pub change_name : (unidecode : String → String) → String → Result String
change_name unidecode basename =
    if basename == ""
    then raise value_error
    else ok (sub (if unidecode basename == "" then basename else unidecode basename))

-- The names that the loop of `change_path` tries: without a number first, then from 1 on.
unfoldable pub candidate : OsPath → (dirname title extension : String) → ℕ → String
candidate os dirname title extension zero = os.join dirname ((title ⧺ extension) ∷ [])
candidate os dirname title extension (suc n) =
    os.join dirname ((title ⧺ "_" ⧺ show (suc n) ⧺ extension) ∷ [])

-- `while os.path.exists(changed_name)`, from the number `n` on.
unfoldable pub find_free : (ℕ → String) → (fuel n : ℕ) → List String → Option String
find_free candidates zero n existing = none
find_free candidates (suc fuel) n existing =
    let rest = find_free candidates fuel (suc n) existing in
    if mem (candidates n) existing then rest else some (candidates n)

-- `shutil.move` of a path: it is there no more, and its new name is.
unfoldable pub move : String → String → List String → List String
move path changed [] = []
move path changed (p ∷ existing) =
    if p == path then changed ∷ existing else p ∷ move path changed existing

-- The new path, and the paths after it.
abbrev pub moved : String → List String → String → String × List String
moved path existing changed = (changed, move path changed existing)

abbrev pub found : String → List String → Option String → Option (Result (String × List String))
found path existing none = none
found path existing (some changed) = some (ok (moved path existing changed))

-- `change_path`, from the name that `change_name` gave. The result is `none` while the loop runs.
pub change_to :
    OsPath
    → (fuel : ℕ) → String
    → List String
    → Result String
    → Option (Result (String × List String))
change_to os fuel path existing (raise e) = some (raise e)
change_to os fuel path existing (ok changed_name) =
    if os.basename path == changed_name
    then some (ok (path, existing))
    else let (title, extension) = os.splitext changed_name in
      found path existing
        (find_free (candidate os (os.dirname path) title extension) fuel zero existing)

unfoldable pub change_path :
    OsPath
    → (unidecode : String → String) → (fuel : ℕ) → String
    → List String
    → Option (Result (String × List String))
unfolding change_to
change_path os unidecode fuel path existing =
    change_to os fuel path existing (change_name unidecode (os.basename path))

-- A directory's entries in the order in which they are scanned: a file or a directory, and the rest.
pub data Tree : Type 0 where
  end : Tree
  file : (name : String) (rest : Tree) → Tree
  dir : (name : String) (below rest : Tree) → Tree

abbrev pub names : Tree → List String
names end = []
names (file name rest) = name ∷ names rest
names (dir name below rest) = name ∷ names rest

-- What `change_tree` yields.
pub record Change : Type 0 where
  pub old_path : String
  pub changed_path : String
  pub is_dir : Bool
  pub was_changed : Bool

abbrev pub change : OsPath → (start_path old_start_path name changed : String) → Bool → Change
change os start_path old_start_path name changed is_dir =
    let changed_path = os.join start_path (changed ∷ []) in
    let old_path = os.join old_start_path (name ∷ []) in
    record {
      old_path = old_path;
      changed_path = changed_path;
      is_dir = is_dir;
      was_changed = if changed_path == old_path then false else true;
    }

abbrev pub paths_in : OsPath → String → List String → List String
paths_in os start_path [] = []
paths_in os start_path (name ∷ rest) = os.join start_path (name ∷ []) ∷ paths_in os start_path rest

abbrev pub append_to : List Change → Option (Result (List Change)) → Option (Result (List Change))
append_to changes none = none
append_to changes (some (raise e)) = some (raise e)
append_to changes (some (ok rest)) = some (ok (changes ++ rest))

-- The entry with what is below it, and the rest of the directory.
abbrev pub both :
    Option (Result (List Change)) → Option (Result (List Change)) → Option (Result (List Change))
both none rest = none
both (some (raise e)) rest = some (raise e)
both (some (ok changes)) rest = append_to changes rest

-- `change_tree`, on an absolute path. Each rename is given the fuel that it needs at most.
unfoldable pub change_tree :
    OsPath
    → (unidecode : String → String) → (start_path old_start_path : String)
    → (existing : List String) → Tree
    → Option (Result (List Change))
change_tree os unidecode start_path old_start_path existing end = some (ok [])
change_tree os unidecode start_path old_start_path existing (file name rest) =
    elim (change_path os unidecode (suc (length existing)) (os.join start_path (name ∷ []))
      existing) [
        | none ↦ none
        | some (raise e) ↦ some (raise e)
        | some (ok renamed) ↦
            append_to (change os start_path old_start_path name renamed.0 false ∷ [])
              (change_tree os unidecode start_path old_start_path renamed.1 rest)
      ]
change_tree os unidecode start_path old_start_path existing (dir name below rest) =
    elim (change_path os unidecode (suc (length existing)) (os.join start_path (name ∷ []))
      existing) [
        | none ↦ none
        | some (raise e) ↦ some (raise e)
        | some (ok renamed) ↦
            let changed = change os start_path old_start_path name renamed.0 true in
            append_to (changed ∷ []) (
              both
                (change_tree os unidecode changed.changed_path changed.old_path
                  (paths_in os changed.changed_path (names below)) below)
                (change_tree os unidecode start_path old_start_path renamed.1 rest))
      ]
