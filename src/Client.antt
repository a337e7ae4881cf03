-- ===== src/Client.antt =====
-- a3m/client/job.py and a3m/client/mcp.py: the job that a client script works on, and the execution
-- of a batch of tasks. A client script is a function from the jobs to the jobs with their exit codes
-- and output, which may raise, or leave by `SystemExit`; it stands for the module that
-- `importlib.import_module` finds. `shlex.split`, the clock and the settings are fields of
-- `Environment`. A row is what `execute_command` writes of a task's row.
-- Not modelled: metrics, logging, and that `retryOnFailure` may run its function again.
-- The children: Command (the command line's escapes), Results (theorems), Tests.
pub mod Command
pub mod Results
mod Tests
use a3m.Common.{
  ℕ, String, Bool, true, false, ◌||◌, ◌==◌, Option, none, some, List, [], ◌∷◌, map, if◌then◌else◌,
  Exception, other_error, attribute_error, Result, ok, raise, ◌>>=◌,
}
use a3m.Common.Dict.{Dict, lookup, insert}
use a3m.Common.Int.{ℤ, pos, is_nonzero, is_positive}
use a3m.Common.Text.{replace}
use a3m.Client.Command.{shlex_unescape}
use Prim.Native.String.{◌++◌}

-- `Job` of a3m/client/job.py
pub record Job : Type 0 where
  pub name : String
  pub uuid : String
  pub args : List String
  pub caller_wants_output : Bool
  pub int_code : ℤ
  pub status_code : String
  pub output : String
  pub error : String

abbrev pub new_job : (name uuid : String) (args : List String) (caller_wants_output : Bool) → Job
new_job name uuid args caller_wants_output = record {
  name = name;
  uuid = uuid;
  args = name ∷ args;
  caller_wants_output = caller_wants_output;
  int_code = pos 0;
  status_code = "success";
  output = "";
  error = "";
}

-- `set_status`: a code that is 0 leaves the one before.
unfoldable pub set_status : ℤ → String → Job → Job
set_status int_code status_code job =
    if is_nonzero int_code
    then record job { int_code = int_code; status_code = status_code }
    else record job { status_code = status_code }

unfoldable pub write_output : String → Job → Job
write_output s job = record job { output = job.output ++ s }

unfoldable pub write_error : String → Job → Job
write_error s job = record job { error = job.error ++ s }

-- `sep.join(...)` of texts.
unfoldable pub join : String → List String → String
join sep [] = ""
join sep (s ∷ []) = s
join sep (s ∷ rest) = s ++ sep ++ join sep rest

-- `print_output` and `print_error`, of objects as their texts.
unfoldable pub print_output : List String → Job → Job
unfolding write_output join
print_output args job = write_output (join " " args ++ "\n") job

unfoldable pub print_error : List String → Job → Job
unfolding write_error join
print_error args job = write_error (join " " args ++ "\n") job

-- What `pyprint` may be told to print to.
pub data PrintFile : Type 0 where
  sys_stdout sys_stderr other_file : PrintFile

unfoldable pub pyprint : PrintFile → (sep end : String) → List String → Job → Result Job
unfolding write_output write_error join
pyprint sys_stdout sep end objects job = ok (write_output (join sep objects ++ end) job)
pyprint sys_stderr sep end objects job = ok (write_error (join sep objects ++ end) job)
pyprint other_file sep end objects job = raise other_error

-- `JobContext` around a body that raised, with the text of the exception and its traceback, or not.
unfoldable pub job_context : Option (String × String) → Job → Job
unfolding set_status write_error
job_context none job = job
job_context (some (message, traceback)) job =
    set_status (pos 1) "success" (write_error traceback (write_error message job))

-- What a module's `call` does with the jobs.
pub data Called : Type 0 where
  returned : List Job → Called
  exited : Called
  failed : Exception → Called

pub record Environment : Type 0 where
  pub shared_path : String
  pub client_assets_directory : String
  pub utc_date : String
  pub capture_client_script_output : Bool
  pub split : String → Result (List String)
  pub import_module : Option String → Option (List Job → Called)

-- A task as the server sends it (`serialize_task`).
pub record TaskData : Type 0 where
  pub uuid : String
  pub created_date : String
  pub arguments : Option String
  pub wants_output : Bool
  pub execute : Option String

-- A task's entry of `task_results`, a field for each key that either side uses.
pub record TaskResult : Type 0 where
  pub exit_code : Option ℤ
  pub finished_timestamp : Option String
  pub stdout : Option String
  pub stderror : Option String
  pub stderr : Option String

-- What the client writes of a row of `models.Task`.
pub record Row : Type 0 where
  pub starttime : Option String
  pub exitcode : Option ℤ
  pub endtime : Option String
  pub stdout : String
  pub stderror : String

-- `Task.objects.filter(taskuuid=uuid).update(...)`
unfoldable pub update_row : String → (Row → Row) → Dict Row → Dict Row
update_row uuid f [] = []
update_row uuid f ((key, row) ∷ rows) =
    let rest = update_row uuid f rows in
    if key == uuid then (key, f row) ∷ rest else (key, row) ∷ rest

-- The replacements in the arguments of a task, in order.
unfoldable pub replace_all : List (String × String) → String → String
replace_all [] arguments = arguments
replace_all ((var, val) ∷ rest) arguments = replace_all rest (replace arguments var val)

abbrev pub replacements : Environment → String → TaskData → List (String × String)
replacements env task_uuid task_data =
    ("%sharedPath%", env.shared_path)
    ∷ ("%clientAssetsDirectory%", env.client_assets_directory)
    ∷ ("%date%", env.utc_date)
    ∷ ("%taskUUID%", task_uuid)
    ∷ ("%jobCreatedDate%", task_data.created_date)
    ∷ []

-- `_parse_command_line`
unfoldable pub parse_command_line : Environment → String → Result (List String)
parse_command_line env s = do args ← env.split s; ok (map shlex_unescape args)

-- `arguments.replace` of `None` raises.
unfoldable pub prepare : Environment → String → String → TaskData → Option String → Result Job
unfolding parse_command_line
prepare env task_name task_uuid task_data none = raise attribute_error
prepare env task_name task_uuid task_data (some arguments) = do
  args ← parse_command_line env (replace_all (replacements env task_uuid task_data) arguments)
  ok (new_job task_name task_data.uuid args task_data.wants_output)

-- The loop of `handle_batch_task`, with `mod`: that of the last task is used.
unfoldable pub prepare_all :
    Environment → String → Option String → Dict TaskData → Result (List Job × Option String)
prepare_all env task_name mod_ [] = ok ([], mod_)
prepare_all env task_name mod_ ((task_uuid, task_data) ∷ rest) = do
  job ← prepare env task_name task_uuid task_data task_data.arguments
  found ← prepare_all env task_name task_data.execute rest
  ok (job ∷ found.0, found.1)

-- `set_start_times`
unfoldable pub set_start_times : String → List Job → Dict Row → Dict Row
set_start_times utc_date [] rows = rows
set_start_times utc_date (job ∷ jobs) rows =
    set_start_times utc_date jobs
      (update_row job.uuid (λ row. record row { starttime = some utc_date }) rows)

-- `module.call(jobs)`, or the error of `import_module`.
abbrev pub call : Option (List Job → Called) → List Job → Called
call none jobs = failed other_error
call (some module_) jobs = module_ jobs

pub handle_prepared : Environment → Result (List Job × Option String) → Dict Row → Called × Dict Row
handle_prepared env (raise e) rows = (failed e, rows)
handle_prepared env (ok (jobs, mod_)) rows =
    (call (env.import_module mod_) jobs, set_start_times env.utc_date jobs rows)

unfoldable pub handle_batch_task :
    Environment → String → Dict TaskData → Dict Row → Called × Dict Row
unfolding handle_prepared
handle_batch_task env task_name tasks rows =
    handle_prepared env (prepare_all env task_name (some "") tasks) rows

-- `fail_all_tasks_callback`, with the reason as a text.
unfoldable pub fail_rows : String → String → Dict TaskData → Dict Row → Dict Row
fail_rows utc_date reason [] rows = rows
fail_rows utc_date reason ((task_uuid, data_) ∷ tasks) rows = fail_rows utc_date reason tasks (
    update_row task_uuid
      (λ row. record row { stderror = reason; exitcode = some (pos 1); endtime = some utc_date })
      rows)

abbrev pub failed_result : TaskResult
failed_result = record {
  exit_code = some (pos 1);
  finished_timestamp = none;
  stdout = none;
  stderror = none;
  stderr = none;
}

unfoldable pub fail_results : Dict TaskData → Dict TaskResult
fail_results [] = []
fail_results ((task_id, data_) ∷ tasks) = (task_id, failed_result) ∷ fail_results tasks

unfoldable pub fail_all_tasks :
    Environment → Dict TaskData → String → Dict Row → Dict TaskResult × Dict Row
fail_all_tasks env tasks reason rows =
    (fail_results tasks, fail_rows env.utc_date reason tasks rows)

-- `kwargs` of `write_task_results_callback`.
unfoldable pub write_row : Environment → Job → Row → Row
write_row env job row =
    let ended = record row { exitcode = some job.int_code; endtime = some env.utc_date } in
    if env.capture_client_script_output || is_positive job.int_code
    then record ended { stdout = job.output; stderror = job.error }
    else ended

unfoldable pub result_of : Environment → Job → TaskResult
result_of env job =
    if job.caller_wants_output
    then record {
      exit_code = some job.int_code;
      finished_timestamp = some env.utc_date;
      stdout = some job.output;
      stderror = some job.error;
      stderr = none;
    }
    else record {
      exit_code = some job.int_code;
      finished_timestamp = some env.utc_date;
      stdout = none;
      stderror = none;
      stderr = none;
    }

unfoldable pub write_task_results :
    Environment → List Job → Dict TaskResult → Dict Row → Dict TaskResult × Dict Row
write_task_results env [] results rows = (results, rows)
write_task_results env (job ∷ jobs) results rows =
    write_task_results env jobs (insert job.uuid (result_of env job) results)
      (update_row job.uuid (write_row env job) rows)

-- `execute_command`, from what the script did. `str(e)` is a function of the exception.
pub finish :
    Environment
    → (Exception → String)
    → Dict TaskData
    → Called × Dict Row
    → Dict TaskResult × Dict Row
finish env str tasks (returned jobs, rows) = write_task_results env jobs [] rows
finish env str tasks (exited, rows) = fail_all_tasks env tasks "Module attempted exit" rows
finish env str tasks (failed e, rows) = fail_all_tasks env tasks (str e) rows

unfoldable pub execute_command :
    Environment
    → (Exception → String)
    → String
    → Dict TaskData
    → Dict Row
    → Dict TaskResult × Dict Row
unfolding finish
execute_command env str task_name tasks rows =
    finish env str tasks (handle_batch_task env task_name tasks rows)
