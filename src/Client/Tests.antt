-- ===== src/Client/Tests.antt =====
-- A batch of two tasks, and the theorems about its execution at it.
use a3m.Common.{
  String, ◌≡◌, ◌≢◌, refl, sym, ap, ◌∙◌, true, false, none, some, Option, List, [], ◌∷◌, ok,
  value_error, raise,
}
use a3m.Common.Dict.{Dict, lookup, insert}
use a3m.Common.Int.{pos}
use a3m.Common.Text.{replace, replace_from, starts}
use a3m.Client.{
  Job, Called, returned, failed, Environment, TaskData, Row, update_row, replace_all,
  parse_command_line, prepare, prepare_all, set_start_times, handle_batch_task, write_row,
  result_of, write_task_results, execute_command, set_status, failed_result,
}
use a3m.Client.{pyprint, sys_stderr, join, write_error, new_job}
use a3m.Client.Command.{shlex_unescape, escape_backticks, shlex_unescape-escape_backticks}
use a3m.Client.Results.{
  HasResult, KeepsUuids, uuids, execute_command-HasResult, IsFailed, execute_command_failed,
}

-- The first job fails, and all jobs write.
abbrev script : List Job → Called
script [] = returned []
script (job ∷ jobs) = returned (set_status (pos 2) "failed" (record job { error = "no" }) ∷ jobs)

abbrev modules : Option String → Option (List Job → Called)
modules (some name) = some script
modules none = none

-- The command line has no blanks here.
abbrev env : Environment
env = record {
  shared_path = "/shared/";
  client_assets_directory = "/assets/";
  utc_date = "now";
  capture_client_script_output = false;
  split = λ s. ok (s ∷ []);
  import_module = modules;
}

abbrev task_data : String → TaskData
task_data uuid = record {
  uuid = uuid;
  created_date = "then";
  arguments = some "%sharedPath%%taskUUID%\\`";
  wants_output = true;
  execute = some "script";
}

abbrev tasks : Dict TaskData
tasks = ("1", task_data "1") ∷ ("2", task_data "2") ∷ []

abbrev row : Row
row = record { starttime = none; exitcode = none; endtime = none; stdout = ""; stderror = "" }

abbrev rows : Dict Row
rows = ("1", row) ∷ ("2", row) ∷ []

program : Unit {0}
unfolding lookup insert replace replace_from starts shlex_unescape update_row replace_all
    parse_command_line prepare prepare_all set_start_times handle_batch_task write_row result_of
    write_task_results execute_command set_status
program = tt

arguments_test :
    parse_command_line env (replace_all (("%taskUUID%", "1") ∷ []) "%taskUUID%\\`") ≡ ok ("1`" ∷ [])
unfolding program
arguments_test = refl

-- The row of the task that failed has the error, that of the other has no output.
rows_test :
    (execute_command env (λ e. "") "script" tasks rows).1
    ≡ (
      "1",
      record row {
        starttime = some "now";
        exitcode = some (pos 2);
        endtime = some "now";
        stderror = "no";
      },
    )
      ∷ ("2", record row { starttime = some "now"; exitcode = some (pos 0); endtime = some "now" })
      ∷ []
unfolding program
rows_test = refl

abbrev called_uuids : Called → List String
called_uuids (returned jobs) = uuids jobs
called_uuids _ = []

abbrev module_or : Option (List Job → Called) → List Job → Called
module_or (some found) = found
module_or none = script

script-uuids : (jobs : List Job) → called_uuids (script jobs) ≡ uuids jobs
unfolding set_status
script-uuids [] = refl
script-uuids (job ∷ jobs) = refl

script_keeps : KeepsUuids env
script_keeps none found jobs jobs' i e = absurd (not_found i)
  where
    not_found : none ≢ some found
    not_found f = cc
script_keeps (some m) found jobs jobs' i e =
    ap called_uuids (sym e) ∙ ap (λ o. called_uuids (module_or o jobs)) (sym i) ∙ script-uuids jobs

execute_command-HasResult_example :
    HasResult (execute_command env (λ e. "") "script" tasks rows).0 "2"
execute_command-HasResult_example =
    execute_command-HasResult env (λ e. "") "script" tasks rows "2" script_keeps (refl, (refl, tt))
      refl

-- A quotation that is not closed.
abbrev broken : Environment
broken = record env { split = λ s. raise value_error }

broken_fails : (handle_batch_task broken "script" tasks rows).0 ≡ failed value_error
unfolding program
broken_fails = refl

row_there : lookup "1" rows ≡ some row
unfolding program
row_there = refl

execute_command_failed_example :
    (lookup "1" (execute_command broken (λ e. "No closing quotation") "script" tasks rows).0
      ≡ some failed_result)
    × IsFailed "No closing quotation"
        (execute_command broken (λ e. "No closing quotation") "script" tasks rows).1
        "1"
execute_command_failed_example =
    execute_command_failed broken (λ e. "No closing quotation") "script" tasks rows "1" value_error
      row broken_fails refl row_there

shlex_unescape-escape_backticks_example : shlex_unescape (escape_backticks "a\\`b`") ≡ "a\\`b`"
shlex_unescape-escape_backticks_example = shlex_unescape-escape_backticks "a\\`b`"

pyprint_test :
    pyprint sys_stderr " " "\n" ("a" ∷ "b" ∷ []) (new_job "n" "1" [] false)
    ≡ ok (record (new_job "n" "1" [] false) { error = "a b\n" })
unfolding pyprint write_error join
pyprint_test = refl
