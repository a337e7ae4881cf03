-- ===== src/Tasks/Waiting.antt =====
-- The results of a job's tasks in a3m/server/tasks, from the client's `execute_command`.
use a3m.Common.{
  String, ◌≡◌, refl, sym, ap, ◌∙◌, true, ◌||◌, inl, inr, Option, none, some, List, [], ◌∷◌, ◌++◌,
  arith, mem, All, All-append, Exception, Result, ok, raise, eq_refl, eq-cases, raise-ne-ok,
  ok-injective,
}
use mathlib.Core.Path.{subst}
use a3m.Common.Dict.{Dict, keys, has, lookup, insert, mem-keys-insert}
use a3m.Common.Int.{ℤ}
use a3m.Workflow.{get_or}
use a3m.Client.{Environment, TaskData, TaskResult, Row, execute_command}
use a3m.Client.Results.{HasResult, IsKeyed, KeepsUuids, execute_command-HasResult}
use a3m.Tasks.{
  Task, Batch, PoolTaskBackend, serialize_task, payload, update_task_results, results_of,
  write_output, written, submit_batches, wait_for_results, clear_pending,
}
use a3m.Tasks.Batches.{concat, lookup-remove, append_nil}

abbrev pub task_uuids : List Task → List String
task_uuids [] = []
task_uuids (task ∷ tasks) = task.uuid ∷ task_uuids tasks

IsKeyed-insert :
    (task : Task) (tasks : Dict TaskData)
    → IsKeyed tasks
    → IsKeyed (insert task.uuid (serialize_task task) tasks)
unfolding insert
IsKeyed-insert task [] k = (refl, tt)
IsKeyed-insert task ((uuid, data_) ∷ tasks) k = elim (eq-cases uuid task.uuid) [
  | inl (p, e) ↦ rw e (sym p, k.1)
  | inr (p, e) ↦ rw e (k.0, IsKeyed-insert task tasks k.1)
]

payload-IsKeyed :
    (tasks : Dict TaskData) (batch : Batch) → IsKeyed tasks → IsKeyed (payload tasks batch)
unfolding payload
payload-IsKeyed tasks [] k = k
payload-IsKeyed tasks (task ∷ rest) k =
    payload-IsKeyed (insert task.uuid (serialize_task task) tasks) rest
      (IsKeyed-insert task tasks k)

has-payload :
    (tasks : Dict TaskData) (batch : Batch) (id_ : String)
    → (has id_ tasks || mem id_ (task_uuids batch)) ≡ true
    → has id_ (payload tasks batch) ≡ true
unfolding payload
has-payload tasks [] id_ h = ground arith
has-payload tasks (task ∷ rest) id_ h =
    has-payload (insert task.uuid (serialize_task task) tasks) rest id_
      (ground (arith, mem-keys-insert task.uuid id_ (serialize_task task) tasks))

-- What a task is when its result is in.
pub record IsFinished (task : Task) : Type 0 where
  pub code : ℤ
  pub coded : task.exit_code ≡ some code
  pub ended : task.is_done ≡ true
  pub no_stderr : task.stderr ≡ ""

abbrev pub Finished : Batch → Result Batch → Type 0
Finished batch outcome =
    (finished : Batch) × (outcome ≡ ok finished)
    × (task_uuids finished ≡ task_uuids batch)
    × All IsFinished finished

update-Finished :
    (results : Dict TaskResult) (batch : Batch)
    → All (HasResult results) (task_uuids batch)
    → Finished batch (update_task_results results batch)
unfolding update_task_results
update-Finished results [] h = ([], refl, refl, tt)
update-Finished results (task ∷ rest) (h, hs) =
    let (others, e, same, all) = update-Finished results rest hs in
    let finished : Task = record task {
      exit_code = some h.code;
      stdout = get_or h.result.stdout "";
      stderr = get_or h.result.stderr "";
      finished_timestamp = h.result.finished_timestamp;
      is_done = true;
    } in
    (
      finished ∷ others,
      rw (h.found, h.coded, e) refl,
      ap (λ l. task.uuid ∷ l) same,
      (
        record {
          code = h.code;
          coded = refl;
          ended = refl;
          no_stderr = ap (λ o. get_or o "") h.no_stderr;
        },
        all,
      ),
    )

task_uuids-append : (xs ys : List Task) → task_uuids (xs ++ ys) ≡ task_uuids xs ++ task_uuids ys
task_uuids-append [] ys = refl
task_uuids-append (task ∷ xs) ys = ap (λ l. task.uuid ∷ l) (task_uuids-append xs ys)

-- Each member of a list that a test holds of.
All-of_test :
    (P : String → Type 0) (xs ys : List String)
    → ((id_ : String) → mem id_ ys ≡ true → P id_)
    → ((id_ : String) → mem id_ xs ≡ true → mem id_ ys ≡ true)
    → All P xs
All-of_test P [] ys f g = tt
All-of_test P (x ∷ xs) ys f g = (
  f x (g x (ground (arith, eq_refl x))),
  All-of_test P xs ys f (λ id_ h. g id_ (ground (arith, h))),
)

-- `write_output` of a finished task, which has no errors, writes its output alone.
finished-output :
    (task : Task) → IsFinished task → write_output task ≡ written task.stdout_file_path task.stdout
unfolding write_output
finished-output task h =
    ap (λ s. written task.stdout_file_path task.stdout ++ written task.stderr_file_path s)
      h.no_stderr
    ∙ ap (λ l. written task.stdout_file_path task.stdout ++ l) (nothing task.stderr_file_path)
    ∙ append_nil (written task.stdout_file_path task.stdout)
  where
    nothing : (path : Option String) → written path "" ≡ []
    nothing none = refl
    nothing (some path) = ground arith

-- The client's part of `wait_for_results`: a batch to its results.
abbrev pub client :
    Environment → (Exception → String) → String → Dict Row → Dict TaskData → Dict TaskResult
client env str task_name rows tasks = (execute_command env str task_name tasks rows).0

module _ (env : Environment) (str : Exception → String) (task_name : String) (rows : Dict Row)
    (keeps : KeepsUuids env) where
  batch-Finished :
      (batch : Batch)
      → Finished batch
          (update_task_results (client env str task_name rows (payload [] batch)) batch)
  batch-Finished batch = update-Finished (client env str task_name rows (payload [] batch)) batch (
      All-of_test (HasResult (client env str task_name rows (payload [] batch))) (task_uuids batch)
        (keys (payload [] batch))
        (λ id_ h.
          execute_command-HasResult env str task_name (payload [] batch) rows id_ keeps
            (payload-IsKeyed [] batch tt) h)
        (λ id_ h. has-payload [] batch id_ h))

  results-Finished :
      (batches : List Batch)
      → Finished (concat batches) (results_of (client env str task_name rows) batches)
  unfolding results_of
  results-Finished [] = ([], refl, refl, tt)
  results-Finished (batch ∷ batches) =
      let (finished, e, same, all) = batch-Finished batch in
      let (others, e', same', all') = results-Finished batches in
      (
        finished ++ others,
        rw (e, e') refl,
        task_uuids-append finished others
            ∙ ap (λ l. l ++ task_uuids others) same
            ∙ ap (λ l. task_uuids batch ++ l) same'
            ∙ sym (task_uuids-append batch (concat batches)),
        All-append IsFinished finished others all all',
      )

  wait-Finished :
      (batches : List Batch) (job_uuid : String) (b : PoolTaskBackend)
      (outcome : Result (List Task))
      → results_of (client env str task_name rows) batches ≡ outcome
      → Finished (concat batches) (clear_pending job_uuid b outcome).0
        × (lookup job_uuid (clear_pending job_uuid b outcome).1.pending_jobs ≡ none)
  wait-Finished batches job_uuid b (ok tasks) e = (
    subst (Finished (concat batches)) e (results-Finished batches),
    lookup-remove job_uuid b.pending_jobs,
  )
  wait-Finished batches job_uuid b (raise x) e =
      let (finished, f, same, all) = results-Finished batches in absurd (raise-ne-ok (sym e ∙ f))

  -- Waiting for a job's results ends with all of them: each task of its batches, in the order in which
  -- the batches complete, is done and has an exit code, whatever the client scripts do, as long as one
  -- that returns keeps the identifiers of its jobs. No batch of the job stays pending.
  pub wait_for_results-Finished :
      (as_completed : List Batch → List Batch) (job_uuid : String) (b : PoolTaskBackend)
      (batches : List Batch)
      → lookup job_uuid (submit_batches job_uuid b).pending_jobs ≡ some batches
      → Finished
          (concat (as_completed batches))
          (wait_for_results (client env str task_name rows) as_completed job_uuid b).0
        × (lookup job_uuid
              (wait_for_results
                (client env str task_name rows)
                as_completed
                job_uuid
                b).1.pending_jobs
            ≡ none)
  unfolding wait_for_results
  wait_for_results-Finished as_completed job_uuid b batches e =
      rw e (wait-Finished (as_completed batches) job_uuid (submit_batches job_uuid b) _ refl)

  outputs :
      (tasks : List Task)
      → All IsFinished tasks
      → All (λ (task : Task). write_output task ≡ written task.stdout_file_path task.stdout) tasks
  outputs [] h = tt
  outputs (task ∷ tasks) h = (finished-output task h.0, outputs tasks h.1)

  -- No error output is ever written: of each task whose results are in, `write_output` writes at most
  -- its standard output, though the task may name a file for its errors.
  pub write_output_stdout :
      (batches : List Batch) (finished : List Task)
      → results_of (client env str task_name rows) batches ≡ ok finished
      → All
          (λ (task : Task). write_output task ≡ written task.stdout_file_path task.stdout)
          finished
  write_output_stdout batches finished e =
      let (tasks, f, same, all) = results-Finished batches in
      subst (All (λ (task : Task). write_output task ≡ written task.stdout_file_path task.stdout))
        (ok-injective (sym f ∙ e)) (outputs tasks all)
