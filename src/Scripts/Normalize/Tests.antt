-- ===== src/Scripts/Normalize/Tests.antt =====
-- The executor of a command with a verification, and the look-up in a normalization.csv.
use a3m.Common.{
  String, ◌≡◌, refl, true, false, ◌==◌, Option, none, some, List, [], ◌∷◌, ok, raise, value_error,
  Result, if◌then◌else◌,
}
use a3m.Common.Dict.{insert, lookup, update}
use a3m.Common.Int.{ℤ, pos, show, show_code}
use a3m.Common.Text.{starts, ends, contains, replace, replace_from}
use a3m.Client.{new_job, join, print_output, print_error, write_output, write_error}
use a3m.Helpers.Variables.{replace_variables, to_gnu_options}
use a3m.Helpers.Subprocess.{
  Machine, ended, command_line, execute_or_run, launch_sub_process, create_and_run_script,
  environment, set_default, words_of, source_of, with_shebang,
}
use a3m.Packages.{OsPath}
use a3m.Helpers.Options.{rstrip_slashes, hyphenate, inner}
use a3m.Helpers.Variables.{
  frommodel, unit_variables, base_location, locations, file_variables, unit_of,
}
use a3m.Helpers.Database.{
  create_file, update_files, unit_ids, insert_into_files, new_uuid, insert_into_events,
  create_event, event_uuid, insert_into_derivations, update_size_and_checksum, add_file_to_sip,
  get_size_and_checksum,
}
use a3m.Scripts.Normalize.{
  Surroundings, insert_derivation_event, register_file, register_format, register_all,
  once_normalized, main, transcoded_files, only_files, get_replacement_dict,
}
use a3m.Scripts.Normalize.Outcome.{Ends, main-Ends}
use a3m.Scripts.Normalize.Execution.{
  Details, Command, no_command, fp_command, World, Ran, Shell, init, run, execute_command,
  command_of, arguments_of, executor_label,
}
use a3m.Scripts.Normalize.Manual.{
  Options, find_file, check_manual_normalization, starting_with, first_sorted, unlisted_path,
  ending_in, among, find_row, listed, csv_error,
}

program : Unit {0}
unfolding insert lookup update show show_code starts contains replace replace_from replace_variables
    to_gnu_options join print_output print_error write_output write_error execute_or_run
    launch_sub_process create_and_run_script environment set_default words_of source_of with_shebang
    init run execute_command command_of arguments_of executor_label find_row
program = tt

-- The command "verify out" fails.
abbrev machine : Machine
machine = record {
  environ = [];
  split = λ s. some (s ∷ []);
  characters = λ s. s ∷ [];
  temporary = λ files. "/tmp/script";
  popen = λ command env stdin files. ended (code_of command) "" "" files;
}
  where
    code_of : List String → ℤ
    code_of [] = pos 0
    code_of (word ∷ words) = if word == "verify out" then pos 4 else pos 0

abbrev details : (command output_location : String) → Details
details command output_location = record {
  id = "1";
  label = command;
  command = command;
  script_type = command_line;
  output_location = output_location;
  description = command;
  output_format = none;
}

abbrev command : Command
command =
    fp_command (details "convert %in%" "%dir%out")
      (fp_command (details "verify %outputLocation%" "") no_command no_command) no_command

abbrev world : World
world = record {
  job = new_job "normalize" "1" [] false;
  files = [];
  db = record { files = []; events = []; derivations = []; made = 0 };
  versions = [];
  format_names = [];
}

abbrev code : Result (Ran × World) → Option ℤ
code (raise e) = none
code (ok ran) = some ran.0.exit_code

abbrev shell : Shell
shell = record { machine = machine; lower = λ s. s }

-- The verification has the output location of the command, and its exit code counts.
verified :
    code
      (run shell (init command (("%dir%", "") ∷ [])).1 (init command (("%dir%", "") ∷ [])).0 world)
    ≡ some (pos 4)
unfolding program
verified = refl

rows :
    find_row "b" false (("# names" ∷ []) ∷ [] ∷ ("a" ∷ "" ∷ "x" ∷ []) ∷ ("b" ∷ "" ∷ "y" ∷ []) ∷ [])
    ≡ ok (listed "y")
unfolding program
rows = refl

columns : find_row "b" false (("a" ∷ "x" ∷ []) ∷ []) ≡ raise value_error
unfolding program
columns = refl

broken : find_row "b" true (("a" ∷ "" ∷ "x" ∷ []) ∷ []) ≡ ok csv_error
unfolding program
broken = refl

-- A file that the command "convert" normalizes into out.tif.
abbrev os : OsPath
os = record {
  join = λ a rest. a;
  dirname = λ s. s;
  basename = λ s. s;
  abspath = λ s. s;
  splitext = λ s. (s, "");
  drop_first = λ s. s;
}

abbrev around : Surroundings
around = record {
  os = os;
  settings = record {
    shared_directory = "/s";
    processing_directory = "/p";
    rejected_directory = "/r";
  };
  shell = shell;
  storage = record {
    uuid4 = show;
    size_of = λ path. ok 7;
    checksum_of = λ path kind. ok "sum";
    default_checksum_algorithm = "sha256";
    accession_id = λ uuid. ok "";
  };
  now = "today";
  isfile = λ files path. path == "out.tif";
  isdir = λ files path. false;
  walk = λ files path. [];
  before = λ a b. false;
  normalization_csv = none;
  file_of = λ uuid. ok (record {
    file = record {
      pk = "f";
      originallocation = "a";
      currentlocation = "a";
      filegrpuse = "original";
    };
    sip = some (record { uuid = "s"; relative_location = "/sip" });
    transfer = none;
  });
  rules = λ uuid. ok (
      fp_command
        (record (details "convert" "out.tif") { output_format = some (some ("v", "TIFF")) })
        no_command no_command
      ∷ []);
}

abbrev opts : Options
opts = record {
  file_uuid = "f";
  file_path = "/sip/a";
  sip_path = "/sip";
  sip_uuid = "s";
  task_uuid = "t";
  normalize_file_grp_use = "original";
}

abbrev before : World
before = record world {
  db = record {
    files =
        record {
          uuid = "f";
          originallocation = "a";
          currentlocation = some "a";
          enteredsystem = "d";
          filegrpuse = "original";
          transfer_id = none;
          sip_id = some "s";
          digest = none;
          removedtime = none;
        }
        ∷ [];
    events = [];
    derivations = [];
    made = 0;
  };
}

abbrev got : Result (ℤ × World) → ℤ × World
got (ok result) = result
got (raise e) = (pos 9, before)

abbrev after : ℤ × World
after = got (main around opts before)

main_program : Unit {0}
unfolding program ends among find_file check_manual_normalization starting_with first_sorted
    unlisted_path ending_in main frommodel unit_variables base_location locations file_variables
    unit_of rstrip_slashes hyphenate inner once_normalized register_all register_format
    register_file transcoded_files only_files insert_derivation_event get_replacement_dict
    create_file update_files unit_ids insert_into_files new_uuid insert_into_events create_event
    event_uuid insert_into_derivations update_size_and_checksum add_file_to_sip
    get_size_and_checksum
main_program = tt

returned : main around opts before ≡ ok after
unfolding main_program
returned = refl

code_zero : after.0 ≡ pos 0
unfolding main_program
code_zero = refl

added :
    after.1.db.derivations ≡ (record { source_file = "f"; derived_file = "t"; event = "0" }) ∷ []
unfolding main_program
added = refl

main-Ends_example : Ends opts before after
main-Ends_example = main-Ends around opts before after returned
