-- ===== src/Packages/Files.antt =====
-- The files that a job of a3m/server goes over.
use a3m.Common.{
  String, ◌≡◌, refl, ap, ◌∙◌, Bool, true, false, ◌||◌, inl, inr, some, List, [], ◌∷◌, ◌++◌,
  if◌then◌else◌, arith, mem, mem-append, Distinct, All, All-append, eq_refl, eq_iff, ◌&&◌, ◌==◌,
  Bool-cases,
}
use Prim.Native.String.{◌++◌ as ◌⧺◌}
use a3m.Common.Dict.{lookup, insert, update}
use a3m.Packages.{
  Settings, OsPath, Mapping, File, absolute_path, get_file_replacement_mapping, Package,
  known_files, found_files, paths, files, in_subdir,
}

paths-append : (xs ys : List (String × Mapping)) → paths (xs ++ ys) ≡ paths xs ++ paths ys
paths-append [] ys = refl
paths-append ((path, mapping) ∷ xs) ys = ap (λ l. path ∷ l) (paths-append xs ys)

mem-found :
    (returned_already walked : List String) (path : String)
    → mem path (paths (found_files returned_already walked))
      ≡ (if mem path returned_already then false else mem path walked)
unfolding found_files
mem-found returned_already [] path = ground arith
mem-found returned_already (w ∷ walked) path =
    ground (arith, mem-found returned_already walked path, eq_iff w path)

mem-files :
    (known : List (String × Mapping)) (walked : List String) (path : String)
    → mem path (paths (known ++ found_files (paths known) walked))
      ≡ (mem path (paths known) || mem path walked)
mem-files known walked path =
    ap (mem path) (paths-append known (found_files (paths known) walked))
    ∙ mem-append path (paths known) (paths (found_files (paths known) walked))
    ∙ ap (λ b. mem path (paths known) || b) (mem-found (paths known) walked path)
    ∙ cases (mem path (paths known)) (mem path walked)
  where
    cases : (a b : Bool) → (a || (if a then false else b)) ≡ (a || b)
    cases true b = refl
    cases false b = refl

-- A mapping that a job substitutes in the arguments of a task names the file that it is of.
abbrev pub Names : String × Mapping → Type 0
Names entry = lookup "%relativeLocation%" entry.1 ≡ some (some entry.0)

file_mapping-Names :
    (os : OsPath) (settings : Settings) (file_obj : File) (directory : String)
    → Names (
      absolute_path file_obj directory,
      get_file_replacement_mapping os settings file_obj directory,
    )
unfolding get_file_replacement_mapping lookup insert update
file_mapping-Names os settings file_obj directory = refl

known-Names :
    (os : OsPath) (settings : Settings) (exists : String → Bool) (package_ : Package)
    (filter_subdir : String) (rows : List File)
    → All Names (known_files os settings exists package_ filter_subdir rows)
unfolding known_files
known-Names os settings exists package_ filter_subdir [] = tt
known-Names os settings exists package_ filter_subdir (file_obj ∷ rest) =
    pick (in_subdir package_ filter_subdir file_obj)
      (exists (absolute_path file_obj package_.current_path))
      (known-Names os settings exists package_ filter_subdir rest)
  where
    entry : String × Mapping
    entry = (
      absolute_path file_obj package_.current_path,
      get_file_replacement_mapping os settings file_obj package_.current_path,
    )

    others : List (String × Mapping)
    others = known_files os settings exists package_ filter_subdir rest

    pick :
        (a b : Bool)
        → All Names others
        → All Names (if a then (if b then entry ∷ others else others) else others)
    pick true true h = (file_mapping-Names os settings file_obj package_.current_path, h)
    pick true false h = h
    pick false b h = h

found-Names :
    (returned_already walked : List String) → All Names (found_files returned_already walked)
unfolding found_files lookup
found-Names returned_already [] = tt
found-Names returned_already (w ∷ walked) = elim (Bool-cases (mem w returned_already)) [
  | inl e ↦ rw e (found-Names returned_already walked)
  | inr e ↦ rw e (refl, found-Names returned_already walked)
]

found-Distinct :
    (returned_already walked : List String)
    → Distinct walked
    → Distinct (paths (found_files returned_already walked))
unfolding found_files
found-Distinct returned_already [] d = tt
found-Distinct returned_already (w ∷ walked) d =
    ground (arith, found-Distinct returned_already walked, mem-found returned_already walked w)

-- Lists with no text in common.
Distinct-append :
    (xs ys : List String)
    → Distinct xs
    → Distinct ys
    → ((x : String) → mem x xs ≡ true → mem x ys ≡ false)
    → Distinct (xs ++ ys)
Distinct-append [] ys d d' apart = d'
Distinct-append (x ∷ xs) ys d d' apart = (
  mem-append x xs ys ∙ ground (arith, d.0, apart x, eq_refl x),
  Distinct-append xs ys d.1 d' (λ z h. apart z (ground (arith, h))),
)

-- A row of the database is for this path, in the directory that the job is restricted to.
abbrev pub is_row_of : Package → (filter_subdir path : String) → List File → Bool
is_row_of package_ filter_subdir path [] = false
is_row_of package_ filter_subdir path (row ∷ rows) =
    ((absolute_path row package_.current_path == path) && in_subdir package_ filter_subdir row)
    || is_row_of package_ filter_subdir path rows

known-step :
    (a b : Bool) (p path : String) (mapping : Mapping) (others : List (String × Mapping))
    (there listed : Bool)
    → (p ≡ path → b ≡ there)
    → mem path (paths others) ≡ (there && listed)
    → mem path (paths (if a then (if b then (p, mapping) ∷ others else others) else others))
      ≡ (there && (((p == path) && a) || listed))
known-step true true p path mapping others there listed same h =
    ground (arith, h, same, eq_iff p path)
known-step true false p path mapping others there listed same h =
    ground (arith, h, same, eq_iff p path)
known-step false b p path mapping others there listed same h = ground (arith, h)

mem-known :
    (os : OsPath) (settings : Settings) (exists : String → Bool) (package_ : Package)
    (filter_subdir : String) (rows : List File) (path : String)
    → mem path (paths (known_files os settings exists package_ filter_subdir rows))
      ≡ (exists path && is_row_of package_ filter_subdir path rows)
unfolding known_files
mem-known os settings exists package_ filter_subdir [] path = ground arith
mem-known os settings exists package_ filter_subdir (row ∷ rows) path =
    known-step (in_subdir package_ filter_subdir row)
      (exists (absolute_path row package_.current_path)) (absolute_path row package_.current_path)
      path _ (known_files os settings exists package_ filter_subdir rows) (exists path)
      (is_row_of package_ filter_subdir path rows) (ap exists)
      (mem-known os settings exists package_ filter_subdir rows path)

-- A path is one that a job goes over just if it exists and a row of the database in the directory the
-- job is restricted to is for it, or it is found on disk below that directory; and each file comes with
-- its own path as its location.
pub files_cover :
    (os : OsPath) (settings : Settings) (exists : String → Bool) (walk : String → List String)
    (package_ : Package) (filter_subdir : String) (rows : List File) (path : String)
    → (mem path (paths (files os settings exists walk package_ filter_subdir rows)) ≡ (
        (exists path && is_row_of package_ filter_subdir path rows)
        || mem path (walk (package_.current_path ⧺ filter_subdir))))
      × All Names (files os settings exists walk package_ filter_subdir rows)
unfolding files
files_cover os settings exists walk package_ filter_subdir rows path =
    let known = known_files os settings exists package_ filter_subdir rows in
    let walked = walk (package_.current_path ⧺ filter_subdir) in
    (
      mem-files known walked path
          ∙ ap (λ b. b || mem path walked)
              (mem-known os settings exists package_ filter_subdir rows path),
      All-append Names known (found_files (paths known) walked)
          (known-Names os settings exists package_ filter_subdir rows)
          (found-Names (paths known) walked),
    )

-- A job goes over no path twice, as long as the rows of the database have distinct paths and a walk
-- finds none twice.
pub files-Distinct :
    (os : OsPath) (settings : Settings) (exists : String → Bool) (walk : String → List String)
    (package_ : Package) (filter_subdir : String) (rows : List File)
    → Distinct (paths (known_files os settings exists package_ filter_subdir rows))
    → Distinct (walk (package_.current_path ⧺ filter_subdir))
    → Distinct (paths (files os settings exists walk package_ filter_subdir rows))
unfolding files
files-Distinct os settings exists walk package_ filter_subdir rows d d' =
    let known = known_files os settings exists package_ filter_subdir rows in
    let walked = walk (package_.current_path ⧺ filter_subdir) in
    rw (paths-append known (found_files (paths known) walked)) (
      Distinct-append (paths known) (paths (found_files (paths known) walked)) d
        (found-Distinct (paths known) walked d')
        (λ x h. mem-found (paths known) walked x ∙ ap (λ b. if b then false else mem x walked) h))
