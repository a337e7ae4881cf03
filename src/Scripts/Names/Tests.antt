-- ===== src/Scripts/Names/Tests.antt =====
-- Renames of small directories, and the theorems on names, paths and batches at them.
use a3m.Common.{
  String, ◌≡◌, refl, true, false, some, List, [], ◌∷◌, ok, raise, value_error, Distinct,
}
use Prim.Native.String.{◌++◌}
use a3m.Common.Dict.{lookup, insert, update}
use a3m.Common.Int.{show}
use a3m.Common.Text.{replace_first, starts}
use a3m.Packages.{OsPath}
use a3m.Scripts.Names.{
  change_name, candidate, find_free, move, change_path, change_tree, end, file, dir, Change,
}
use a3m.Scripts.Names.Characters.{sub, is_allowed}
use a3m.Scripts.Names.Paths.{firsts, IsRenamed, change_path-IsRenamed}
use a3m.Scripts.Names.Batches.{
  NameChanger, new_changer, normalize_path_for_db, update_row, update_rows, events_of,
  apply_file_updates, apply_dir_updates, index_file, add_file_to_batch, add_dir_to_batch,
  change_all, change_objects,
}
use a3m.Scripts.Names.Batches.Equivalence.{IsOrdered, file_changes, change_objects-update_rows}

-- Paths in one directory, without extensions.
abbrev join : String → List String → String
join directory [] = directory
join directory (name ∷ rest) = directory ++ name

abbrev os : OsPath
os = record {
  join = join;
  dirname = λ path. "";
  basename = λ path. path;
  abspath = λ path. path;
  splitext = λ name. (name, "");
  drop_first = λ s. s;
}

abbrev same : String → String
same s = s

program : Unit {0}
unfolding lookup insert update show replace_first starts change_name candidate find_free move
    change_path change_tree sub is_allowed new_changer normalize_path_for_db update_row update_rows
    events_of apply_file_updates apply_dir_updates index_file add_file_to_batch add_dir_to_batch
    change_all change_objects
program = tt

empty_name : change_name same "" ≡ raise value_error
unfolding program
empty_name = refl

-- A transliteration to nothing is not used.
stripped_name : change_name (λ s. "") "a%" ≡ ok "a_"
unfolding program
stripped_name = refl

named : change_name same "a b" ≡ ok "a_b"
unfolding program
named = refl

abbrev existing : List String
existing = "a b" ∷ "a_b" ∷ "a_b_1" ∷ []

renamed : change_path os same 4 "a b" existing ≡ some (ok ("a_b_2", "a_b_2" ∷ "a_b" ∷ "a_b_1" ∷ []))
unfolding program
renamed = refl

tries-Distinct : Distinct (firsts (candidate os "" "a_b" "") 4 0)
unfolding program
tries-Distinct = (refl, (refl, (refl, (refl, tt))))

change_path-IsRenamed_example :
    (result : String × List String) × (change_path os same 4 "a b" existing ≡ some (ok result))
    × IsRenamed "a b" existing result
change_path-IsRenamed_example =
    change_path-IsRenamed os same "a b" existing "a_b" named tries-Distinct

abbrev changes : List Change
changes =
    record { old_path = "/s/a b"; changed_path = "/s/a_b"; is_dir = false; was_changed = true }
    ∷ record { old_path = "/s/c"; changed_path = "/s/c"; is_dir = false; was_changed = false }
    ∷ record { old_path = "/s/d e"; changed_path = "/s/d_e"; is_dir = false; was_changed = true }
    ∷ []

abbrev changer : NameChanger
changer = record {
  group_type = "%SIPDirectory%";
  sip_path = "/s/";
  has_directories = false;
  files_index = [];
  dirs_index = [];
  files =
      record { pk = "1"; currentlocation = "%SIPDirectory%d e" }
      ∷ record { pk = "2"; currentlocation = "%SIPDirectory%c" }
      ∷ record { pk = "3"; currentlocation = "%SIPDirectory%a b" }
      ∷ [];
  directories = [];
  events = [];
}

made : new_changer "%SIPDirectory%" "/s/" false changer.files [] ≡ ok changer
unfolding program
made = refl

changed_files :
    (change_objects same same 1 changes changer).files
    ≡ record { pk = "1"; currentlocation = "%SIPDirectory%d_e" }
      ∷ record { pk = "2"; currentlocation = "%SIPDirectory%c" }
      ∷ record { pk = "3"; currentlocation = "%SIPDirectory%a_b" }
      ∷ []
unfolding program
changed_files = refl

changes-IsOrdered : IsOrdered same (file_changes same "/s/" "%SIPDirectory%" changes)
unfolding program
changes-IsOrdered = ((refl, refl), ((refl, refl), tt))

change_objects-update_rows_example :
    (change_objects same same 1 changes changer).files
    ≡ update_rows same (update [] (file_changes same "/s/" "%SIPDirectory%" changes)) changer.files
change_objects-update_rows_example =
    change_objects-update_rows same same 1 changes changer refl changes-IsOrdered

-- A directory with a blank in its name, and a file without.
tree_test :
    change_tree os same "" "" ("a b" ∷ "c" ∷ []) (dir "a b" end (file "c" end))
    ≡ some (
        ok (
          record { old_path = "a b"; changed_path = "a_b"; is_dir = true; was_changed = true }
          ∷ record { old_path = "c"; changed_path = "c"; is_dir = false; was_changed = false }
          ∷ []))
unfolding program
tree_test = refl
