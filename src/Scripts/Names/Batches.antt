-- ===== src/Scripts/Names/Batches.antt =====
-- a3m/client/clientScripts/change_object_names.py: the changed names are written to the rows of files
-- and of directories in batches. `unicodedata.normalize` and the last slash of a directory's path are
-- parameters; an event is the old and the new location of a file.
-- The child Equivalence has the theorem on batches.
pub mod Equivalence
use a3m.Common.{
  ℕ, String, Bool, true, false, ◌==◌, Option, none, some, List, [], ◌∷◌, ◌++◌, if◌then◌else◌,
  length, leb, Exception, value_error, Result, ok, raise,
}
use a3m.Common.Dict.{Dict, lookup, insert}
use a3m.Common.Text.{replace_first}
use a3m.Scripts.Names.{Change}

-- The rows of the unit with their current locations.
pub record Row : Type 0 where
  pub pk : String
  pub currentlocation : String

pub record NameChanger : Type 0 where
  pub group_type : String
  pub sip_path : String
  pub has_directories : Bool
  pub files_index : Dict String
  pub dirs_index : Dict String
  pub files : List Row
  pub directories : List Row
  pub events : List (String × String)

-- `NameChanger.__init__`; `has_directories` is whether the unit has rows for its directories.
unfoldable pub new_changer :
    (group_type sip_path : String) → Bool → (files directories : List Row) → Result NameChanger
new_changer group_type sip_path has_directories files directories =
    let changer : NameChanger = record {
      group_type = group_type;
      sip_path = sip_path;
      has_directories = has_directories;
      files_index = [];
      dirs_index = [];
      files = files;
      directories = directories;
      events = [];
    } in
    if group_type == "%SIPDirectory%"
    then ok changer
    else if group_type == "%transferDirectory%"
    then ok changer
    else raise value_error

module _ (nfc : String → String) where
  unfoldable pub normalize_path_for_db : NameChanger → String → String
  normalize_path_for_db changer path = replace_first (nfc path) changer.sip_path changer.group_type

  -- The loop over the rows: a row whose location has changed gets the new one.
  abbrev pub moved_row : Option String → Row → Row
  moved_row none row = row
  moved_row (some changed_location) row = record row { currentlocation = changed_location }

  unfoldable pub update_row : Dict String → Row → Row
  update_row index row = moved_row (lookup (nfc row.currentlocation) index) row

  unfoldable pub update_rows : Dict String → List Row → List Row
  update_rows index [] = []
  update_rows index (row ∷ rows) = update_row index row ∷ update_rows index rows

  abbrev pub event_of : Option String → String → List (String × String)
  event_of none old_location = []
  event_of (some changed_location) old_location = (old_location, changed_location) ∷ []

  unfoldable pub events_of : Dict String → List Row → List (String × String)
  events_of index [] = []
  events_of index (row ∷ rows) =
      event_of (lookup (nfc row.currentlocation) index) (nfc row.currentlocation)
      ++ events_of index rows

  unfoldable pub apply_file_updates : NameChanger → NameChanger
  apply_file_updates changer = record changer {
    files = update_rows changer.files_index changer.files;
    events = changer.events ++ events_of changer.files_index changer.files;
    files_index = [];
  }

  pub apply_directories : Bool → NameChanger → NameChanger
  apply_directories false changer = changer
  apply_directories true changer = record changer {
    directories = update_rows changer.dirs_index changer.directories;
    dirs_index = [];
  }

  unfoldable pub apply_dir_updates : NameChanger → NameChanger
  unfolding apply_directories
  apply_dir_updates changer = apply_directories changer.has_directories changer

  -- `if len(self.files_index) >= self.BATCH_SIZE`, and the same for the directories.
  pub flush_files : Bool → NameChanger → NameChanger
  flush_files true changer = apply_file_updates changer
  flush_files false changer = changer

  pub flush_dirs : Bool → NameChanger → NameChanger
  flush_dirs true changer = apply_dir_updates changer
  flush_dirs false changer = changer

  -- `add_file_to_batch`, from the paths as they stand in the database.
  unfoldable pub index_file :
      (batch_size : ℕ) → (old_path new_path : String) → NameChanger → NameChanger
  unfolding flush_files
  index_file batch_size old_path new_path changer =
      let index = insert old_path new_path changer.files_index in
      flush_files (leb batch_size (length index)) (record changer { files_index = index })

  unfoldable pub add_file_to_batch :
      (batch_size : ℕ) → (old_path new_path : String) → NameChanger → NameChanger
  add_file_to_batch batch_size old_path new_path changer =
      index_file batch_size (normalize_path_for_db changer old_path)
        (normalize_path_for_db changer new_path) changer

  unfoldable pub add_dir_to_batch :
      (with_slash : String → String)
      → (batch_size : ℕ) → (old_path new_path : String) → NameChanger
      → NameChanger
  unfolding flush_dirs
  add_dir_to_batch with_slash batch_size old_path new_path changer =
      let index =
        insert (with_slash (normalize_path_for_db changer old_path))
          (with_slash (normalize_path_for_db changer new_path)) changer.dirs_index in
      flush_dirs (leb batch_size (length index)) (record changer { dirs_index = index })

  -- The body of the loop of `change_objects`.
  pub add_change :
      (with_slash : String → String)
      → (batch_size : ℕ) → (was_changed is_dir : Bool) → (old_path new_path : String) → NameChanger
      → NameChanger
  add_change with_slash batch_size false is_dir old_path new_path changer = changer
  add_change with_slash batch_size true true old_path new_path changer =
      add_dir_to_batch with_slash batch_size old_path new_path changer
  add_change with_slash batch_size true false old_path new_path changer =
      add_file_to_batch batch_size old_path new_path changer

  -- The loop of `change_objects` over what `change_tree` yields.
  unfoldable pub change_all :
      (with_slash : String → String) → (batch_size : ℕ) → List Change → NameChanger → NameChanger
  unfolding add_change
  change_all with_slash batch_size [] changer = changer
  change_all with_slash batch_size (change ∷ changes) changer =
      change_all with_slash batch_size changes (
        add_change with_slash batch_size change.was_changed change.is_dir change.old_path
          change.changed_path changer)

  unfoldable pub change_objects :
      (with_slash : String → String) → (batch_size : ℕ) → List Change → NameChanger → NameChanger
  change_objects with_slash batch_size changes changer =
      apply_dir_updates (apply_file_updates (change_all with_slash batch_size changes changer))
