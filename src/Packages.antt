-- ===== src/Packages.antt =====
-- a3m/server/packages.py: the package as the jobs see it, the variables that it replaces in their
-- command lines, and the files that a job goes over. The functions of `os.path`, the
-- settings, the rows of `models.File` and what `os.walk` finds are parameters. A text that may be
-- `None` is an `Option`.
-- Not modelled: `_prepare_config` (the configuration comes as it returns it), and the queries.
-- The children: Files (theorems), Status (`get_package_status`), Launch (`create_package` and the
-- context), Tests.
pub mod Files
pub mod Status
pub mod Launch
mod Tests
use a3m.Common.{
  String, Bool, true, false, not, ◌==◌, Option, none, some, List, [], ◌∷◌, ◌++◌, if◌then◌else◌, mem,
}
use Prim.Native.String.{◌++◌ as ◌⧺◌}
use a3m.Common.Dict.{Dict, lookup, insert, update}
use a3m.Common.Text.{replace, replace_first, starts}
use a3m.Jobs.{Stage, transfer, ingest}

pub record Settings : Type 0 where
  pub shared_directory : String
  pub processing_directory : String
  pub rejected_directory : String

-- `os.path`; `join` ends with a separator where the source joins with an empty last part.
pub record OsPath : Type 0 where
  pub join : String → List String → String
  pub dirname : String → String
  pub basename : String → String
  pub abspath : String → String
  pub splitext : String → String × String
  pub drop_first : String → String

abbrev pub Mapping : Type 0
Mapping = Dict (Option String)

abbrev pub base_replacements : OsPath → Settings → Mapping
base_replacements os settings =
    ("%tmpDirectory%", some (os.join settings.shared_directory ("tmp" ∷ "" ∷ [])))
    ∷ ("%processingDirectory%", some settings.processing_directory)
    ∷ ("%rejectedDirectory%", some settings.rejected_directory)
    ∷ []

-- A row of `models.File`.
pub record File : Type 0 where
  pub pk : String
  pub originallocation : String
  pub currentlocation : String
  pub filegrpuse : String

abbrev pub absolute_path : File → String → String
absolute_path file_obj unit_directory =
    replace (replace file_obj.currentlocation "%SIPDirectory%" unit_directory) "%transferDirectory%"
      unit_directory

unfoldable pub get_file_replacement_mapping : OsPath → Settings → File → String → Mapping
get_file_replacement_mapping os settings file_obj unit_directory =
    let (name, ext) = os.splitext file_obj.currentlocation in
    let location = absolute_path file_obj unit_directory in
    update (base_replacements os settings) (
      ("%fileUUID%", some file_obj.pk)
      ∷ ("%originalLocation%", some file_obj.originallocation)
      ∷ ("%currentLocation%", some file_obj.currentlocation)
      ∷ ("%fileGrpUse%", some file_obj.filegrpuse)
      ∷ ("%fileDirectory%", some (os.dirname file_obj.currentlocation))
      ∷ ("%fileName%", some (os.basename name))
      ∷ ("%fileExtension%", some (os.drop_first ext))
      ∷ ("%fileExtensionWithDot%", some ext)
      ∷ ("%relativeLocation%", some location)
      ∷ ("%inputFile%", some location)
      ∷ ("%fileFullName%", some location)
      ∷ [])

-- `Package`; `config` has the fields of the processing configuration and their texts.
pub record Package : Type 0 where
  pub name : String
  pub url : String
  pub config : Dict String
  pub transfer_pk : String
  pub sip_pk : String
  pub stage : Stage
  pub aip_filename : Option String
  pub current_path : String

abbrev pub subid : Package → String
subid package_ = elim package_.stage [ ingest ↦ package_.sip_pk | transfer ↦ package_.transfer_pk ]

abbrev pub unit_variable_type : Package → String
unit_variable_type package_ = elim package_.stage [ ingest ↦ "SIP" | transfer ↦ "Transfer" ]

abbrev pub replacement_path_string : Package → String
replacement_path_string package_ = elim package_.stage [
  | ingest ↦ "%SIPDirectory%"
  | transfer ↦ "%transferDirectory%"
]

-- The setter of `current_path`
unfoldable pub set_current_path : Settings → String → Package → Package
set_current_path settings value package_ = record package_ {
  current_path = replace value "%sharedPath%" settings.shared_directory;
}

unfoldable pub start_ingest : Package → Package
start_ingest package_ = record package_ { stage = ingest }

-- `reload`, from the rows of the SIP and of the transfer.
unfoldable pub reload :
    Settings
    → (sip_path : String) (sip_aip_filename : Option String) (transfer_location : String) → Package
    → Package
unfolding set_current_path
reload settings sip_path sip_aip_filename transfer_location package_ = elim package_.stage [
  | ingest ↦ record (set_current_path settings sip_path package_) {
    aip_filename = some (elim sip_aip_filename [ none ↦ "" | some name ↦ name ]);
  }
  | transfer ↦ set_current_path settings transfer_location package_
]

abbrev pub config_replacements : Dict String → Mapping
config_replacements [] = []
config_replacements ((name, value) ∷ rest) =
    ("%config:" ⧺ name ⧺ "%", some value) ∷ config_replacements rest

unfoldable pub current_path_for_db : Settings → Package → String
current_path_for_db settings package_ =
    replace_first package_.current_path settings.shared_directory "%sharedPath%"

unfoldable pub get_replacement_mapping : OsPath → Settings → Package → Mapping
get_replacement_mapping os settings package_ =
    let path = package_.current_path in
    let own = update (base_replacements os settings) (
      ("%SIPUUID%", some package_.sip_pk)
      ∷ ("%TransferUUID%", some package_.transfer_pk)
      ∷ ("%SIPName%", some package_.name)
      ∷ ("%SIPLogsDirectory%", some (os.join path ("logs" ∷ "" ∷ [])))
      ∷ ("%SIPObjectsDirectory%", some (os.join path ("objects" ∷ "" ∷ [])))
      ∷ ("%SIPDirectory%", some path)
      ∷ ("%SIPDirectoryBasename%", some (os.basename (os.abspath path)))
      ∷ ("%relativeLocation%", some (current_path_for_db settings package_))
      ∷ []) in
    let configured = update own (config_replacements package_.config) in
    elim package_.stage [
      | ingest ↦ update configured (
          ("%unitType%", some (unit_variable_type package_))
          ∷ ("%AIPFilename%", package_.aip_filename)
          ∷ [])
      | transfer ↦ update configured (
          (replacement_path_string package_, some path)
          ∷ ("%unitType%", some (unit_variable_type package_))
          ∷ ("%URL%", some package_.url)
          ∷ [])
    ]

-- The truth of `filter_subdir`.
abbrev pub in_subdir : Package → String → File → Bool
in_subdir package_ filter_subdir file_obj =
    if filter_subdir == ""
    then true
    else starts (replacement_path_string package_ ⧺ filter_subdir) file_obj.currentlocation

-- The files of the database that are there, with their paths.
unfoldable pub known_files :
    OsPath → Settings → (String → Bool) → Package → String → List File → List (String × Mapping)
known_files os settings exists package_ filter_subdir [] = []
known_files os settings exists package_ filter_subdir (file_obj ∷ rest) =
    let others = known_files os settings exists package_ filter_subdir rest in
    let path = absolute_path file_obj package_.current_path in
    if in_subdir package_ filter_subdir file_obj
    then (if exists path
        then (path, get_file_replacement_mapping os settings file_obj package_.current_path)
          ∷ others
        else others)
    else others

abbrev pub found_mapping : String → Mapping
found_mapping file_path =
    ("%relativeLocation%", some file_path)
    ∷ ("%fileUUID%", some "None")
    ∷ ("%fileGrpUse%", some "")
    ∷ []

-- The files that `os.walk` finds and the database did not give.
unfoldable pub found_files : List String → List String → List (String × Mapping)
found_files returned_already [] = []
found_files returned_already (file_path ∷ rest) =
    let others = found_files returned_already rest in
    if mem file_path returned_already then others else (file_path, found_mapping file_path) ∷ others

abbrev pub paths : List (String × Mapping) → List String
paths [] = []
paths ((path, mapping) ∷ rest) = path ∷ paths rest

-- `files`: each mapping with the path that it is of. `walk` gives the paths below a directory.
unfoldable pub files :
    OsPath
    → Settings
    → (exists : String → Bool) (walk : String → List String) → Package
    → (filter_subdir : String) → List File
    → List (String × Mapping)
files os settings exists walk package_ filter_subdir rows =
    let known = known_files os settings exists package_ filter_subdir rows in
    known ++ found_files (paths known) (walk (package_.current_path ⧺ filter_subdir))
