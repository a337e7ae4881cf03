-- ===== src/Submit.antt =====
-- How a client script job of a3m/server/jobs/client.py makes its tasks: the replacement of variables
-- in its command line and its output files, and `submit_tasks` of both classes of jobs. A task's
-- identifier (`uuid.uuid4`) and its time are arguments; the mapping of a package and its files are
-- those of Packages.
mod Tests
use a3m.Common.{
  ℕ, String, ◌≡◌, refl, ap, ◌∙◌, true, false, Bool, inl, inr, Option, none, some, List, [], ◌∷◌,
  Exception, attribute_error, Result, ok, raise, ◌>>=◌, Result-cases, raise-ne-ok,
}
use a3m.Common.Dict.{Dict, update}
use a3m.Common.Text.{replace}
use a3m.Workflow.{Config, get_or}
use a3m.Packages.{Mapping}
use a3m.Tasks.{Task, new_task, PoolTaskBackend, submit_task, submit_tasks}

-- `ClientScriptJob.name`, the task name that the client is called with; `lower` is `str.lower`.
abbrev pub task_name : (lower : String → String) → Config → String
task_name lower config = lower (get_or config.execute "")

-- `FilesClientScriptJob.filter_subdir`, which `Package.files` takes.
abbrev pub filter_subdir : Config → String
filter_subdir config = get_or config.filter_subdir ""

-- `_escape_for_command_line`
abbrev pub escape_for_command_line : String → String
escape_for_command_line value = replace (replace (replace value "\\" "\\\\") "\"" "\\\"") "`" "\\`"

-- The loop of `replace_values`; a value that is `None` has no method `replace`.
unfoldable pub replace_each : Mapping → String → Result String
replace_each [] command = ok command
replace_each ((key, none) ∷ rest) command = raise attribute_error
replace_each ((key, some replacement) ∷ rest) command =
    replace_each rest (replace command key (escape_for_command_line replacement))

unfoldable pub replace_values : Option String → Mapping → Result (Option String)
replace_values none replacements = ok none
replace_values (some command) replacements = do
  replaced ← replace_each replacements command
  ok (some replaced)

-- The task that `submit_tasks` makes of the link's configuration; no class asks for its output.
unfoldable pub make_task : (uuid now : String) → Config → Mapping → Result Task
make_task uuid now config replacements = do
  arguments ← replace_values config.arguments replacements
  stdout_file ← replace_values config.stdout_file replacements
  stderr_file ← replace_values config.stderr_file replacements
  ok (new_task uuid now config.execute arguments stdout_file stderr_file false)

module _ (task_batch_size : ℕ) (job_uuid now : String) (config : Config) where
  pub submit_made : Result Task → PoolTaskBackend → Result (Unit {0}) × PoolTaskBackend
  submit_made (raise e) b = (raise e, b)
  submit_made (ok task) b = (ok tt, submit_task task_batch_size job_uuid task b)

  -- `ClientScriptJob.submit_tasks`
  unfoldable pub submit_directory :
      String → Mapping → PoolTaskBackend → Result (Unit {0}) × PoolTaskBackend
  unfolding submit_made
  submit_directory uuid command_replacements b =
      submit_made (make_task uuid now config command_replacements) b

  -- `FilesClientScriptJob.submit_tasks`: the values of the file take priority.
  unfoldable pub submit_files :
      Mapping → List (String × Mapping) → PoolTaskBackend → Result (Unit {0}) × PoolTaskBackend
  submit_files command_replacements [] b = (ok tt, b)
  submit_files command_replacements ((uuid, file_replacements) ∷ rest) b =
      elim (make_task uuid now config (update command_replacements file_replacements)) [
        | raise e ↦ (raise e, b)
        | ok task ↦
            submit_files command_replacements rest (submit_task task_batch_size job_uuid task b)
      ]

  -- A task for each file, in order, made with the file's values over those of the package.
  abbrev pub IsMade : Mapping → List (String × Mapping) → List Task → Type 0
  IsMade command_replacements [] [] = Unit
  IsMade command_replacements [] (task ∷ tasks) = ⊥
  IsMade command_replacements (file ∷ files) [] = ⊥
  IsMade command_replacements (file ∷ files) (task ∷ tasks) =
      (make_task file.0 now config (update command_replacements file.1) ≡ ok task)
      × IsMade command_replacements files tasks

  -- When the submission of a files job ends without an exception, the backend is as after the
  -- submission of one task for each file, in the order of the files.
  pub submit_files-IsMade :
      (command_replacements : Mapping) (files : List (String × Mapping)) (b : PoolTaskBackend)
      → (submit_files command_replacements files b).0 ≡ ok tt
      → (tasks : List Task) × IsMade command_replacements files tasks
        × ((submit_files command_replacements files b).1
            ≡ submit_tasks task_batch_size job_uuid tasks b)
  unfolding submit_files submit_tasks
  submit_files-IsMade command_replacements [] b h = ([], tt, refl)
  submit_files-IsMade command_replacements ((uuid, own) ∷ files) b h =
      elim (Result-cases (make_task uuid now config (update command_replacements own))) [
        | inl (task, e) ↦
            let (tasks, made, same) =
              submit_files-IsMade command_replacements files
                (submit_task task_batch_size job_uuid task b) (rw (e, submit_files) at h) in
            (task ∷ tasks, (e, made), rw (e, submit_files) same)
        | inr (x, e) ↦ absurd (raise-ne-ok (rw (e, submit_files) at h))
      ]
