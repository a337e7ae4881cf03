-- ===== src/Tasks.antt =====
-- a3m/server/tasks: tasks (task.py) and the pool that sends them to the client in batches
-- (backends/pool_backend.py). A batch is the list of its tasks: once it is saved no task is added to
-- it. The executor's part is `execute_command` of the client, run on each batch; the order in which
-- `as_completed` yields the batches is a parameter.
-- Not modelled: the metrics, and the rows that `bulk_log` creates but for which tasks they are of.
-- The children: Batches, Waiting (theorems), Tests.
pub mod Batches
pub mod Waiting
mod Tests
use a3m.Common.{
  ℕ, String, Bool, true, false, ◌||◌, not, ◌==◌, ltb, nat_eq, Option, none, some, List, [], ◌∷◌,
  ◌++◌, length, ◌%◌, if◌then◌else◌, Exception, key_error, Result, ok, raise, ◌>>=◌,
}
use a3m.Common.Dict.{Dict, has, lookup, insert, remove}
use a3m.Common.Int.{ℤ}
use a3m.Workflow.{get_or, get_item}
use a3m.Client.{TaskData, TaskResult}

pub record Task : Type 0 where
  pub uuid : String
  pub execute : Option String
  pub arguments : Option String
  pub stdout_file_path : Option String
  pub stderr_file_path : Option String
  pub wants_output : Bool
  pub exit_code : Option ℤ
  pub stdout : String
  pub stderr : String
  pub start_timestamp : String
  pub finished_timestamp : Option String
  pub is_done : Bool

-- The truth of a path: neither `None` nor empty.
abbrev pub is_set : Option String → Bool
is_set none = false
is_set (some path) = not (path == "")

-- `Task.__init__`
abbrev pub new_task :
    (uuid start_timestamp : String)
    (execute arguments stdout_file_path stderr_file_path : Option String) (wants_output : Bool)
    → Task
new_task uuid start_timestamp execute arguments stdout_file_path stderr_file_path wants_output =
    record {
      uuid = uuid;
      execute = execute;
      arguments = arguments;
      stdout_file_path = stdout_file_path;
      stderr_file_path = stderr_file_path;
      wants_output = wants_output || is_set stdout_file_path || is_set stderr_file_path;
      exit_code = none;
      stdout = "";
      stderr = "";
      start_timestamp = start_timestamp;
      finished_timestamp = none;
      is_done = false;
    }

-- `_write_file_to_disk` for a path and contents that are both set: what is appended, and where.
abbrev pub written : Option String → String → List (String × String)
written none contents = []
written (some path) contents =
    if not (path == "") then (if not (contents == "") then (path, contents) ∷ [] else []) else []

-- `Task.write_output`
unfoldable pub write_output : Task → List (String × String)
write_output task =
    written task.stdout_file_path task.stdout ++ written task.stderr_file_path task.stderr

abbrev pub Batch : Type 0
Batch = List Task

-- `PoolTaskBackend`, with the tasks of which `bulk_log` has created rows.
pub record PoolTaskBackend : Type 0 where
  pub current_task_batches : Dict Batch
  pub pending_jobs : Dict (List Batch)
  pub batches_to_submit : Dict (List Batch)
  pub logged : List Task

abbrev pub init : PoolTaskBackend
init = record { current_task_batches = []; pending_jobs = []; batches_to_submit = []; logged = [] }

-- `_get_current_task_batch` returns this batch, and stores it if it is new.
abbrev pub current_batch : String → PoolTaskBackend → Batch
current_batch job_uuid b = get_or (lookup job_uuid b.current_task_batches) []

abbrev pub set_current_batch : String → Batch → PoolTaskBackend → PoolTaskBackend
set_current_batch job_uuid batch b = record b {
  current_task_batches = insert job_uuid batch b.current_task_batches;
}

-- `d.setdefault(key, []).append(batch)`, as both lists of batches are kept.
abbrev pub append_batch : String → Batch → Dict (List Batch) → Dict (List Batch)
append_batch job_uuid batch batches =
    insert job_uuid (get_or (lookup job_uuid batches) [] ++ batch ∷ []) batches

-- `_save_batch`
unfoldable pub save_batch : String → Batch → PoolTaskBackend → PoolTaskBackend
save_batch job_uuid batch b = record b {
  current_task_batches = remove job_uuid b.current_task_batches;
  batches_to_submit = append_batch job_uuid batch b.batches_to_submit;
  logged = b.logged ++ batch;
}

-- `submit_task`. `TASK_BATCH_SIZE` is not 0, by which the source would divide.
unfoldable pub submit_task :
    (task_batch_size : ℕ) → String → Task → PoolTaskBackend → PoolTaskBackend
submit_task task_batch_size job_uuid task b =
    let batch = current_batch job_uuid b ++ task ∷ [] in
    let added = set_current_batch job_uuid batch b in
    if nat_eq (length batch % task_batch_size) 0 then save_batch job_uuid batch added else added

-- The calls of `submit_task` by a job, one for each task.
unfoldable pub submit_tasks :
    (task_batch_size : ℕ) → String → List Task → PoolTaskBackend → PoolTaskBackend
submit_tasks task_batch_size job_uuid [] b = b
submit_tasks task_batch_size job_uuid (task ∷ tasks) b =
    submit_tasks task_batch_size job_uuid tasks (submit_task task_batch_size job_uuid task b)

-- `_submit_batch`
unfoldable pub submit_batch : String → Batch → PoolTaskBackend → PoolTaskBackend
submit_batch job_uuid [] b = b
submit_batch job_uuid (task ∷ tasks) b = record b {
  pending_jobs = append_batch job_uuid (task ∷ tasks) b.pending_jobs;
}

unfoldable pub submit_each : String → List Batch → PoolTaskBackend → PoolTaskBackend
submit_each job_uuid [] b = b
submit_each job_uuid (batch ∷ batches) b =
    submit_each job_uuid batches (submit_batch job_uuid batch b)

-- `_submit_batches`: first what is not saved yet, then every saved batch.
abbrev pub save_rest : String → Batch → PoolTaskBackend → PoolTaskBackend
save_rest job_uuid [] b = set_current_batch job_uuid [] b
save_rest job_uuid (task ∷ tasks) b = save_batch job_uuid (task ∷ tasks) b

unfoldable pub submit_batches : String → PoolTaskBackend → PoolTaskBackend
submit_batches job_uuid b =
    let saved = save_rest job_uuid (current_batch job_uuid b) b in
    submit_each job_uuid (get_or (lookup job_uuid saved.batches_to_submit) []) saved

-- `serialize_task`
abbrev pub serialize_task : Task → TaskData
serialize_task task = record {
  uuid = task.uuid;
  created_date = task.start_timestamp;
  arguments = task.arguments;
  wants_output = task.wants_output;
  execute = task.execute;
}

-- The tasks of `PoolTaskBatch.submit`.
unfoldable pub payload : Dict TaskData → Batch → Dict TaskData
payload tasks [] = tasks
payload tasks (task ∷ rest) = payload (insert task.uuid (serialize_task task) tasks) rest

-- A step of `update_task_results`, up to the output files: a result has to have an exit code.
abbrev pub update_task : Task → TaskResult → Result Task
update_task task task_result = do
  exit_code ← get_item task_result.exit_code
  ok (record task {
    exit_code = some exit_code;
    stdout = get_or task_result.stdout "";
    stderr = get_or task_result.stderr "";
    finished_timestamp = task_result.finished_timestamp;
    is_done = true;
  })

unfoldable pub update_task_results : Dict TaskResult → Batch → Result Batch
update_task_results results [] = ok []
update_task_results results (task ∷ rest) = do
  task_result ← get_item (lookup task.uuid results)
  finished ← update_task task task_result
  others ← update_task_results results rest
  ok (finished ∷ others)

-- The loop of `wait_for_results` over the batches as they complete.
unfoldable pub results_of : (Dict TaskData → Dict TaskResult) → List Batch → Result (List Task)
results_of execute [] = ok []
results_of execute (batch ∷ batches) = do
  finished ← update_task_results (execute (payload [] batch)) batch
  others ← results_of execute batches
  ok (finished ++ others)

-- The end of `wait_for_results`: an exception leaves the batches pending.
abbrev pub clear_pending :
    String → PoolTaskBackend → Result (List Task) → Result (List Task) × PoolTaskBackend
clear_pending job_uuid b (raise e) = (raise e, b)
clear_pending job_uuid b (ok tasks) =
    (ok tasks, record b { pending_jobs = remove job_uuid b.pending_jobs })

abbrev pub wait_pending :
    (Dict TaskData → Dict TaskResult)
    → (List Batch → List Batch)
    → String
    → PoolTaskBackend
    → Option (List Batch)
    → Result (List Task) × PoolTaskBackend
wait_pending execute as_completed job_uuid b none = (ok [], b)
wait_pending execute as_completed job_uuid b (some batches) =
    clear_pending job_uuid b (results_of execute (as_completed batches))

-- `wait_for_results`, with the tasks that it yields.
unfoldable pub wait_for_results :
    (Dict TaskData → Dict TaskResult)
    → (List Batch → List Batch)
    → String
    → PoolTaskBackend
    → Result (List Task) × PoolTaskBackend
wait_for_results execute as_completed job_uuid b =
    let submitted = submit_batches job_uuid b in
    wait_pending execute as_completed job_uuid submitted (lookup job_uuid submitted.pending_jobs)
