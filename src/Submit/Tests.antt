-- ===== src/Submit/Tests.antt =====
-- The tasks of a job for two files, and the theorem about their submission at it.
use a3m.Common.{String, ◌≡◌, refl, none, some, List, [], ◌∷◌, ok, raise, attribute_error}
use a3m.Common.Dict.{lookup, insert, update, remove}
use a3m.Common.Text.{replace, replace_from, starts}
use a3m.Workflow.{Config}
use a3m.Packages.{Mapping}
use a3m.Tasks.{Task, init, submit_task, submit_tasks, save_batch}
use a3m.Submit.{
  task_name, filter_subdir, replace_each, replace_values, make_task, submit_files, submit_directory,
  IsMade, submit_files-IsMade,
}

abbrev config : Config
config = record {
  manager = "linkTaskManagerFiles";
  execute = some "identify_file_format";
  arguments = some "\"%relativeLocation%\" %SIPUUID%";
  stdout_file = none;
  stderr_file = none;
  filter_subdir = some "objects/";
  config_attr = none;
  default = none;
  choices = [];
  replacements = none;
}

abbrev command : Mapping
command = ("%SIPUUID%", some "s") ∷ ("%relativeLocation%", some "/p/") ∷ []

abbrev files : List (String × Mapping)
files =
    ("1", ("%relativeLocation%", some "/p/a`b") ∷ [])
    ∷ ("2", ("%relativeLocation%", some "/p/c") ∷ [])
    ∷ []

program : Unit {0}
unfolding lookup insert update remove replace replace_from starts submit_task submit_tasks
    save_batch replace_each replace_values make_task submit_files submit_directory
program = tt

-- The path of the file has its backtick escaped and takes the place of the package's.
arguments_test :
    replace_values config.arguments (update command (("%relativeLocation%", some "/p/a`b") ∷ []))
    ≡ ok (some "\"/p/a\\`b\" s")
unfolding program
arguments_test = refl

-- A package that has no AIP name yet.
none_test :
    (submit_directory 2 "job" "now" config "1" (("%AIPFilename%", none) ∷ []) init).0
    ≡ raise attribute_error
unfolding program
none_test = refl

submitted : (submit_files 2 "job" "now" config command files init).0 ≡ ok tt
unfolding program
submitted = refl

submit_files-IsMade_example :
    (tasks : List Task) × IsMade 2 "job" "now" config command files tasks
    × ((submit_files 2 "job" "now" config command files init).1 ≡ submit_tasks 2 "job" tasks init)
submit_files-IsMade_example = submit_files-IsMade 2 "job" "now" config command files init submitted

names_test :
    (task_name (λ s. s) config ≡ "identify_file_format") × (filter_subdir config ≡ "objects/")
names_test = (refl, refl)
