-- ===== src/Scripts/Tests.antt =====
-- Small runs of the shorter scripts, and the theorems about them.
use a3m.Common.{
  String, ◌≡◌, refl, some, List, [], ◌∷◌, raise, runtime_error, true, Bool, ◌==◌, ◌||◌,
}
use a3m.Common.Dict.{lookup, insert, remove}
use a3m.Scripts.Move.{Files, move_file, move_files, merge, rmtree, move_or_merge, directory}
use a3m.Scripts.Move.Merging.{IsKept, IsOutside, merge-IsKept}
use a3m.Common.Text.{starts}
use a3m.Packages.{OsPath}

abbrev os : OsPath
os = record {
  join = λ a rest. a;
  dirname = λ s. s;
  basename = λ s. s;
  abspath = λ s. s;
  splitext = λ s. (s, "");
  drop_first = λ s. s;
}

abbrev is_dir : String → Bool
is_dir path = (path == "s") || (path == "d")

abbrev disk : Files
disk = ("s/a", "1") ∷ ("s/b", "2") ∷ ("s/c", "3") ∷ ("d/b", "x") ∷ ("d/c", "3") ∷ []

abbrev walked : List (String × String)
walked = ("s/a", "d/a") ∷ ("s/c", "d/c") ∷ ("s/b", "d/b") ∷ []

program : Unit {0}
unfolding lookup insert remove move_file move_files merge rmtree move_or_merge starts
program = tt

-- The file a is moved, c is there already, and b differs.
merged :
    move_or_merge os is_dir "s" "d" (directory walked) true disk
    ≡ (raise runtime_error, ("s/b", "2") ∷ ("d/b", "x") ∷ ("d/c", "3") ∷ ("d/a", "1") ∷ [])
unfolding program
merged = refl

found : lookup "s/b" disk ≡ some "2"
unfolding program
found = refl

outside : IsOutside os is_dir "s" walked "d/b"
unfolding program
outside = (refl, refl)

merge-IsKept_example : IsKept os is_dir "s/b" "d/b" "2" (merge os is_dir "s" walked disk)
merge-IsKept_example =
    merge-IsKept os is_dir "s" (("s/a", "d/a") ∷ ("s/c", "d/c") ∷ []) "s/b" "d/b" "2" [] disk
      (refl, (refl, (refl, tt))) outside outside found
