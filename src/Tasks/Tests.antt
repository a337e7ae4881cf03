-- ===== src/Tasks/Tests.antt =====
-- Three tasks in batches of two, and the theorems about batches and results at them.
use a3m.Common.{
  String, ◌≡◌, refl, sym, ap, ◌∙◌, true, false, none, some, Option, List, [], ◌∷◌, ok, arith, All,
}
use a3m.Common.Dict.{lookup, insert, remove}
use a3m.Common.Text.{replace, replace_from, starts}
use a3m.Common.Int.{pos}
use a3m.Workflow.{get_or}
use a3m.Client.{
  Job, Called, returned, Environment, update_row, replace_all, parse_command_line, prepare,
  prepare_all, set_start_times, handle_batch_task, write_row, result_of, write_task_results,
  execute_command,
}
use a3m.Client.Command.{shlex_unescape}
use a3m.Client.Results.{KeepsUuids, uuids}
use a3m.Tasks.{
  Task, Batch, new_task, PoolTaskBackend, init, save_batch, submit_task, submit_tasks, submit_batch,
  submit_each, submit_batches, payload, update_task_results, results_of, wait_for_results,
  write_output, written,
}
use a3m.Tasks.Batches.{IsPartition, submit_batches-IsPartition, concat}
use a3m.Tasks.Waiting.{Finished, client, wait_for_results-Finished, write_output_stdout}

abbrev task : String → Task
task uuid = new_task uuid "then" (some "script") (some "%taskUUID%") (some "out") (some "err") false

abbrev tasks : List Task
tasks = task "1" ∷ task "2" ∷ task "3" ∷ []

abbrev submitted : PoolTaskBackend
submitted = submit_tasks 2 "job" tasks init

program : Unit {0}
unfolding lookup insert remove replace replace_from starts shlex_unescape update_row replace_all
    parse_command_line prepare prepare_all set_start_times handle_batch_task write_row result_of
    write_task_results execute_command save_batch submit_task submit_tasks submit_batch submit_each
    submit_batches payload update_task_results results_of wait_for_results write_output
program = tt

-- A full batch is saved, and the third task waits.
submitted_test :
    (submitted.batches_to_submit ≡ ("job", (task "1" ∷ task "2" ∷ []) ∷ []) ∷ [])
    × (submitted.current_task_batches ≡ ("job", task "3" ∷ []) ∷ [])
unfolding program
submitted_test = (refl, refl)

abbrev batches : List Batch
batches = (task "1" ∷ task "2" ∷ []) ∷ (task "3" ∷ []) ∷ []

pending : lookup "job" (submit_batches "job" submitted).pending_jobs ≡ some batches
unfolding program
pending = refl

absent : {V : Type 0} → lookup {V = V} "job" [] ≡ none
unfolding program
absent = refl

submit_batches-IsPartition_example :
    IsPartition 2 "job" tasks (
      get_or
        (lookup "job" (submit_batches "job" (submit_tasks 2 "job" tasks init)).pending_jobs)
        [])
submit_batches-IsPartition_example =
    submit_batches-IsPartition 2 "job" tasks init (omega arith) absent absent absent

abbrev script : List Job → Called
script jobs = returned jobs

abbrev env : Environment
env = record {
  shared_path = "/shared/";
  client_assets_directory = "/assets/";
  utc_date = "now";
  capture_client_script_output = false;
  split = λ s. ok (s ∷ []);
  import_module = λ name. some script;
}

abbrev called_uuids : Called → List String
called_uuids (returned jobs) = uuids jobs
called_uuids _ = []

abbrev module_or : Option (List Job → Called) → List Job → Called
module_or (some found) = found
module_or none = script

script_keeps : KeepsUuids env
script_keeps m found jobs jobs' i e =
    ap called_uuids (sym e) ∙ ap (λ o. called_uuids (module_or o jobs)) (sym i)

-- The batches complete in the opposite order.
abbrev swapped : List Batch → List Batch
swapped (a ∷ b ∷ rest) = b ∷ a ∷ rest
swapped rest = rest

wait_for_results-Finished_example :
    Finished
      (concat (swapped batches))
      (wait_for_results (client env (λ e. "") "script" []) swapped "job" submitted).0
    × (lookup "job"
          (wait_for_results
            (client env (λ e. "") "script" [])
            swapped
            "job"
            submitted).1.pending_jobs
        ≡ none)
wait_for_results-Finished_example =
    wait_for_results-Finished env (λ e. "") "script" [] script_keeps swapped "job" submitted batches
      pending

abbrev finished : String → Task
finished uuid = record (task uuid) {
  exit_code = some (pos 0);
  finished_timestamp = some "now";
  is_done = true;
}

results :
    results_of (client env (λ e. "") "script" []) batches
    ≡ ok (finished "1" ∷ finished "2" ∷ finished "3" ∷ [])
unfolding program
results = refl

write_output_stdout_example :
    All
      (λ (t : Task). write_output t ≡ written t.stdout_file_path t.stdout)
      (finished "1" ∷ finished "2" ∷ finished "3" ∷ [])
write_output_stdout_example =
    write_output_stdout env (λ e. "") "script" [] script_keeps batches
      (finished "1" ∷ finished "2" ∷ finished "3" ∷ []) results
