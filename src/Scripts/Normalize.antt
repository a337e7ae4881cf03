-- ===== src/Scripts/Normalize.antt =====
-- a3m/client/clientScripts/normalize.py: the commands that normalize a file for preservation. What `os` and
-- `csv` find, the order of texts, the rows of the file's unit and the rules of the registry are parameters.
-- `World` is what a run changes: the job, the files on disk and the tables. When a call raises, what it
-- printed and wrote before is not modelled, and neither are foreign keys.
-- The children: Execution (`Executor`), Manual (`check_manual_normalization`),
-- Rows, Derived and Outcome (theorems), Tests.
pub mod Execution
pub mod Manual
pub mod Rows
pub mod Listed
pub mod Derived
pub mod Outcome
mod Tests
use a3m.Common.{
  String, Bool, true, false, not, ◌&&◌, ◌==◌, Option, none, some, List, [], ◌∷◌, ◌++◌,
  if◌then◌else◌, Exception, attribute_error, does_not_exist, Result, ok, raise, ◌>>=◌,
}
use Prim.Native.String.{◌++◌ as ◌⧺◌}
use a3m.Common.Dict.{Dict, update}
use a3m.Common.Int.{ℤ, pos, negsuc, is_nonzero}
use a3m.Common.Text.{starts, replace_first}
use a3m.Client.{Job, print_output, print_error, set_status}
use a3m.Packages.{OsPath, Settings}
use a3m.Helpers.Variables.{of_file, FileOf, frommodel}
use a3m.Helpers.Subprocess.{Machine}
use a3m.Helpers.Database.{
  FileRow, Database, Storage, new_uuid, insert_into_events, insert_into_derivations,
  update_size_and_checksum, add_file_to_sip,
}
use a3m.Scripts.Normalize.Execution.{
  Command, Details, Executor, no_executor, executor, World, Ran, Shell, init, run,
}
use a3m.Scripts.Normalize.Manual.{Options, Csv, find_file, check_manual_normalization}

-- What the script asks the operating system, and the rules of the file.
pub record Surroundings : Type 0 where
  pub os : OsPath
  pub settings : Settings
  pub shell : Shell
  pub storage : Storage
  pub now : String
  pub isfile : Dict String → String → Bool
  pub isdir : Dict String → String → Bool
  pub walk : Dict String → String → List String
  pub before : String → String → Bool
  pub normalization_csv : Option Csv
  pub file_of : String → Result FileOf
  pub rules : String → Result (List Command)

module _ (around : Surroundings) where
  -- `get_replacement_dict`
  unfoldable pub get_replacement_dict : Options → Result (Dict String)
  unfolding frommodel update
  get_replacement_dict opts =
      let output_dir = around.os.join (around.os.dirname opts.file_path) ("" ∷ []) in
      let output_filename =
        (around.os.splitext (around.os.basename opts.file_path)).0 ⧺ "-" ⧺ opts.task_uuid in
      do
        file_ ← around.file_of opts.file_uuid
        variables ← frommodel around.os around.settings of_file none (some file_) true
        ok (
            update variables (
              ("%outputDirectory%", output_dir)
              ∷ ("%prefix%", "")
              ∷ ("%postfix%", "-" ⧺ opts.task_uuid)
              ∷ ("%outputFileName%", output_filename)
              ∷ ("%outputFilePath%", around.os.join output_dir (output_filename ∷ []))
              ∷ []))

  -- The files that `os.walk` finds below a directory, if they are files.
  unfoldable pub only_files : Dict String → List String → List String
  only_files files [] = []
  only_files files (path ∷ paths) =
      let rest = only_files files paths in if around.isfile files path then path ∷ rest else rest

  -- `transcoded_files`, or none where the output is missing.
  unfoldable pub transcoded_files : String → Dict String → Option (List String)
  unfolding only_files
  transcoded_files output_location files =
      if around.isfile files output_location
      then some (output_location ∷ [])
      else if around.isdir files output_location
      then some (only_files files (around.walk files output_location))
      else if output_location == ""
      then some []
      else none

  -- `insert_derivation_event`
  unfoldable pub insert_derivation_event :
      (original_uuid output_uuid derivation_uuid detail note : String) → Database → Result Database
  unfolding insert_into_events insert_into_derivations
  insert_derivation_event original_uuid output_uuid derivation_uuid detail note db = do
    db' ←
        insert_into_events around.storage original_uuid derivation_uuid "normalization" around.now
          detail "" note db
    insert_into_derivations around.storage original_uuid output_uuid derivation_uuid db'

  -- The rows of one output file. Every file has the task's UUID.
  unfoldable pub register_file :
      Options → (derivation_uuid detail : String) → String → Database → Result Database
  unfolding new_uuid add_file_to_sip update_size_and_checksum insert_derivation_event
  register_file opts derivation_uuid detail ef db =
      let path = replace_first ef opts.sip_path "%SIPDirectory%" in
      do
        filed ←
            add_file_to_sip around.storage path opts.task_uuid opts.sip_uuid around.now "creation"
              "preservation" db
        let (event_uuid, made) = new_uuid around.storage filed in
            do
              summed ←
                  update_size_and_checksum around.storage opts.task_uuid ef around.now event_uuid
                    none "" "" true made
              insert_derivation_event opts.file_uuid opts.task_uuid derivation_uuid detail path
                  summed

  -- The format of an output file; a command without the attribute raises, and one without a format is
  -- an error, after which no other file is looked at.
  unfoldable pub register_format :
      Option (Option (String × String)) → Options → World → Result (Bool × World)
  register_format none opts world = raise attribute_error
  register_format (some none) opts world = ok (
    false,
    record world {
      job = print_error ("Error - command output format is undefined." ∷ []) world.job;
    },
  )
  register_format (some (some (format_id, description))) opts world = ok (
    true,
    record world {
      versions = world.versions ++ (opts.task_uuid, format_id) ∷ [];
      format_names = world.format_names ++ (opts.task_uuid, description) ∷ [];
    },
  )

  unfoldable pub register_all :
      Details
      → Options
      → (derivation_uuid detail : String) → List String
      → World
      → Result (Bool × World)
  unfolding register_file register_format
  register_all details opts derivation_uuid detail [] world = ok (true, world)
  register_all details opts derivation_uuid detail (ef ∷ rest) world = do
    db ← register_file opts derivation_uuid detail ef world.db
    registered ← register_format details.output_format opts (record world { db = db })
    (if registered.0
        then register_all details opts derivation_uuid detail rest registered.1
        else ok (false, registered.1))

  abbrev pub with_event_detail : String → Option String → String
  with_event_detail detail none = detail
  with_event_detail detail (some std_out) = detail ⧺ "; " ⧺ std_out

  abbrev pub code_if : Bool → ℤ
  code_if true = pos 0
  code_if false = negsuc 1

  -- `once_normalized`: the exit code after it, which was 0, and -2 on an error.
  pub register_output :
      Details
      → (output_location : String) → Options
      → (uuid detail : String) → Option (List String)
      → World
      → Result (ℤ × World)
  unfolding register_all
  register_output details output_location opts derivation_uuid detail none world = ok (
    negsuc 1,
    record world {
      job =
          print_error ("Error - output file does not exist [" ∷ output_location ∷ "]" ∷ [])
            world.job;
    },
  )
  register_output details output_location opts derivation_uuid detail (some files) world =
      register_all details opts derivation_uuid detail files world
      >>= (λ done_. ok (code_if done_.0, done_.1))

  unfoldable pub once_normalized :
      Details → (output_location : String) → Option String → Options → World → Result (ℤ × World)
  unfolding transcoded_files register_output new_uuid
  once_normalized details output_location event_std_out opts world =
      let (derivation_uuid, db) = new_uuid around.storage world.db in
      register_output details output_location opts derivation_uuid
        (with_event_detail ("ArchivematicaFPRCommandID=\"" ⧺ details.id ⧺ "\"") event_std_out)
        (transcoded_files output_location world.files) (record world { db = db })

  -- `execute` of the rule's command, with the callback.
  pub execute_top : Dict String → Executor → Options → World → Result (ℤ × World)
  unfolding run once_normalized
  execute_top variables no_executor opts world = ok (pos 0, world)
  execute_top variables (executor details location verification event_detail) opts world = do
    ran ← run around.shell variables (executor details location verification event_detail) world
    (if is_nonzero ran.0.exit_code
        then ok (ran.0.exit_code, ran.1)
        else once_normalized details location ran.0.event_std_out opts ran.1)

  abbrev pub normalized : String → String → ℤ × World → ℤ × World
  normalized description path (exitstatus, world) =
      if is_nonzero exitstatus
      then (
        pos 1,
        record world { job = print_error (("Command " ⧺ description ⧺ " failed!") ∷ []) world.job },
      )
      else (
        pos 0,
        record world {
          job =
              print_output (("Successfully normalized " ⧺ path ⧺ " for preservation") ∷ [])
                world.job;
        },
      )

  abbrev pub description_of : Executor → String
  description_of no_executor = ""
  description_of (executor details location verification event_detail) = details.description

  -- `main` from the rules on: the first rule's command.
  pub apply_rules : (path : String) → Options → List Command → World → Result (ℤ × World)
  unfolding init execute_top get_replacement_dict
  apply_rules path opts [] world = ok (
    pos 2,
    record world {
      job =
          print_output
            (("Not normalizing " ⧺ path
                ⧺ " - no rule or default rule found to normalize for preservation")
              ∷ [])
            world.job;
    },
  )
  apply_rules path opts (command ∷ rules) world = do
    variables ← get_replacement_dict opts
    let (made, filled) = init command variables in
        execute_top filled made opts world >>= (λ executed.
          ok (normalized (description_of made) (around.os.basename opts.file_path) executed))

  pub with_location : Option String → Options → World → Result (ℤ × World)
  unfolding apply_rules
  with_location none opts world = ok (
    pos 2,
    record world {
      job = print_output ("Not normalizing file because its path can't be found." ∷ []) world.job;
    },
  )
  with_location (some location) opts world =
      if location == ""
      then ok (
        pos 2,
        record world {
          job =
              print_output ("Not normalizing file because its path can't be found." ∷ []) world.job;
        },
      )
      else (around.rules opts.file_uuid
          >>= (λ rules. apply_rules (around.os.basename location) opts rules world))

  abbrev pub text_of : Option String → String
  text_of none = "None"
  text_of (some s) = s

  -- A file that was normalized by hand gets its derivation only.
  pub unless_manual : Option FileRow → FileRow → Options → World → Result (ℤ × World)
  unfolding with_location insert_derivation_event new_uuid
  unless_manual none file_ opts world = with_location file_.currentlocation opts world
  unless_manual (some manually) file_ opts world =
      let (derivation_uuid, db) = new_uuid around.storage world.db in
      let printed =
        print_output
          (around.os.basename opts.file_path
            ∷ "was already manually normalized into"
            ∷ text_of manually.currentlocation
            ∷ [])
          world.job in
      do
        db' ←
            insert_derivation_event opts.file_uuid manually.uuid derivation_uuid
              "manual normalization" "" db
        ok (pos 0, record world { job = printed; db = db' })

  -- A file of the submission documentation is skipped, unless it is what is normalized.
  abbrev pub is_documentation : Options → FileRow → Result Bool
  is_documentation opts file_ =
      if opts.normalize_file_grp_use == "submissionDocumentation"
      then ok false
      else elim file_.currentlocation [
        | none ↦ raise attribute_error
        | some location ↦ ok (starts "%SIPDirectory%objects/submissionDocumentation" location)
      ]

  pub unless_skipped : Bool → FileRow → Options → World → Result (ℤ × World)
  unfolding unless_manual check_manual_normalization
  unless_skipped true file_ opts world = ok (
    pos 0,
    record world {
      job =
          print_output
            ("File"
              ∷ around.os.basename opts.file_path
              ∷ "in objects/submissionDocumentation, skipping"
              ∷ [])
            world.job;
    },
  )
  unless_skipped false file_ opts world =
      if file_.filegrpuse == opts.normalize_file_grp_use
      then (check_manual_normalization around.os around.before around.normalization_csv opts
            world.db.files world.job
          >>= (λ manual. unless_manual manual.0 file_ opts (record world { job = manual.1 })))
      else ok (
        pos 0,
        record world {
          job =
              print_output
                (around.os.basename opts.file_path
                  ∷ "is file group usage"
                  ∷ file_.filegrpuse
                  ∷ "instead of "
                  ∷ opts.normalize_file_grp_use
                  ∷ " - skipping"
                  ∷ [])
                world.job;
        },
      )

  pub of_row : Option FileRow → Options → World → Result (ℤ × World)
  unfolding unless_skipped
  of_row none opts world = ok (
    pos 2,
    record world {
      job =
          print_error ("File with uuid" ∷ opts.file_uuid ∷ "does not exist in database." ∷ [])
            world.job;
    },
  )
  of_row (some file_) opts world = do
    documentation ← is_documentation opts file_
    unless_skipped documentation file_ opts (record world {
      job =
          print_output ("File found:" ∷ file_.uuid ∷ text_of file_.currentlocation ∷ []) world.job;
    })

  -- `main`
  unfoldable pub main : Options → World → Result (ℤ × World)
  unfolding of_row find_file
  main opts world = of_row (find_file opts.file_uuid world.db.files) opts world

  -- `call`, of one job whose arguments were parsed; `str(e)` is a function of the exception.
  pub reported : (Exception → String) → World → Result (ℤ × World) → World
  reported str world (ok (code, after)) = record after { job = set_status code "success" after.job }
  reported str world (raise e) = record world {
    job = set_status (pos 1) "success" (print_error (str e ∷ []) world.job);
  }
