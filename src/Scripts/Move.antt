-- ===== src/Scripts/Move.antt =====
-- a3m/client/clientScripts/move_or_merge.py. The file system is a dictionary from the paths of files to
-- their contents, and which paths are directories before the call is a parameter; a directory that is
-- walked is the list of its files' paths, in it and in the destination. `mkdir_p` and the emptied
-- directories change no file and are left out.
-- The child Merging has the theorem on the merge.
pub mod Merging
use a3m.Common.{
  String, Bool, true, false, ◌==◌, ◌&&◌, ◌||◌, Option, none, some, List, [], ◌∷◌, if◌then◌else◌,
  runtime_error, other_error, Result, ok, raise,
}
use Prim.Native.String.{◌++◌ as ◌⧺◌}
use a3m.Common.Dict.{Dict, lookup, insert, remove}
use a3m.Common.Int.{ℤ, pos}
use a3m.Common.Text.{starts}
use a3m.Packages.{OsPath}

abbrev pub Files : Type 0
Files = Dict String

-- `shutil.rmtree`: the files below the directory are gone.
abbrev pub is_below : (top path : String) → Bool
is_below top path = starts (top ⧺ "/") path

unfoldable pub rmtree : String → Files → Files
rmtree top [] = []
rmtree top ((path, contents) ∷ files) =
    let rest = rmtree top files in if is_below top path then rest else (path, contents) ∷ rest

abbrev pub is_there : Option String → Bool
is_there none = false
is_there (some contents) = true

-- `shutil.move` of a directory to a path that does not exist.
unfoldable pub move_all : List (String × String) → Files → Files
move_all [] files = files
move_all ((src, dst) ∷ rest) files = elim (lookup src files) [
  | none ↦ move_all rest files
  | some contents ↦ move_all rest (insert dst contents (remove src files))
]

-- What `src` is.
pub data Source : Type 0 where
  file : Source
  directory : (walked : List (String × String)) → Source
  absent : Source

abbrev pub sources : List (String × String) → List String
sources [] = []
sources ((src, dst) ∷ rest) = src ∷ sources rest

module _ (os : OsPath) (is_dir : String → Bool) where
  -- Where `shutil.move` puts a file: into the destination, where that is a directory.
  abbrev pub landing : (src dst : String) → String
  landing src dst = if is_dir dst then os.join dst (os.basename src ∷ []) else dst

  -- Something of that name in the destination: `shutil.move` raises an error.
  abbrev pub is_occupied : (src dst : String) → Files → Bool
  is_occupied src dst files =
      is_dir dst && (is_dir (landing src dst) || is_there (lookup (landing src dst) files))

  abbrev pub shutil_move : Bool → (src target contents : String) → Files → Result (Unit {0}) × Files
  shutil_move true src target contents files = (raise other_error, files)
  shutil_move false src target contents files = (ok tt, insert target contents (remove src files))

  -- `_move_file`; a source that is not there is an error of the system.
  pub move_contents :
      String → String → Option String → Option String → Files → Result (Unit {0}) × Files
  move_contents src dst none there files = (raise other_error, files)
  move_contents src dst (some contents) none files =
      shutil_move (is_occupied src dst files) src (landing src dst) contents files
  move_contents src dst (some contents) (some other) files =
      if contents == other then (ok tt, remove src files) else (raise runtime_error, files)

  unfoldable pub move_file : String → String → Files → Result (Unit {0}) × Files
  unfolding move_contents
  move_file src dst files = move_contents src dst (lookup src files) (lookup dst files) files

  -- The loop over `os.walk(src)`: each file with its paths in the source and in the destination. An
  -- exception leaves what was moved before it.
  unfoldable pub move_files : List (String × String) → Files → Result (Unit {0}) × Files
  move_files [] files = (ok tt, files)
  move_files ((src, dst) ∷ rest) files =
      let moved = move_file src dst files in
      elim moved.0 [ raise e ↦ (raise e, moved.1) | ok _ ↦ move_files rest moved.1 ]

  -- The loop, and the removal of the source directory where it ends.
  unfoldable pub merge : String → List (String × String) → Files → Result (Unit {0}) × Files
  merge top walked files =
      let moved = move_files walked files in
      elim moved.0 [ raise e ↦ (raise e, moved.1) | ok _ ↦ (ok tt, rmtree top moved.1) ]

  unfoldable pub move_or_merge :
      String → String → Source → (dst_exists : Bool) → Files → Result (Unit {0}) × Files
  move_or_merge src dst file dst_exists files = move_file src dst files
  move_or_merge src dst (directory walked) false files = (ok tt, move_all walked files)
  move_or_merge src dst (directory walked) true files = merge src walked files
  move_or_merge src dst absent dst_exists files = (ok tt, files)

-- `main`, as `call` reports it: any exception ends in the exit code 1.
abbrev pub exit_code : Result (Unit {0}) → ℤ
exit_code (ok _) = pos 0
exit_code (raise e) = pos 1
