-- ===== src/Client/Results.antt =====
-- The results of a batch that a3m/client/mcp.py sends back, and the rows that it writes.
use a3m.Common.{
  String, ◌≡◌, ◌≢◌, refl, sym, ap, ◌∙◌, true, ◌==◌, inl, inr, Option, none, some, List, [], ◌∷◌,
  if◌then◌else◌, arith, mem, Exception, Result, ok, raise, ok-injective, raise-ne-ok, bind_ok,
  eq_iff, eq_refl, eq-cases, Bool-cases, Option-cases,
}
use mathlib.Core.Path.{subst, ap₂}
use a3m.Common.Dict.{Dict, keys, has, lookup, insert, lookup-insert, lookup-insert_self}
use a3m.Common.Int.{ℤ, pos}
use a3m.Client.{
  Job, new_job, Called, returned, exited, failed, Environment, TaskData, TaskResult, Row,
  update_row, prepare, prepare_all, set_start_times, call, handle_prepared, handle_batch_task,
  fail_rows, failed_result, fail_results, fail_all_tasks, result_of, write_task_results, finish,
  execute_command,
}

-- The task has a result with an exit code, and without the key that the server reads its errors from.
pub record HasResult (results : Dict TaskResult) (id_ : String) : Type 0 where
  pub result : TaskResult
  pub found : lookup id_ results ≡ some result
  pub code : ℤ
  pub coded : result.exit_code ≡ some code
  pub no_stderr : result.stderr ≡ none

-- Each task stands under its own identifier, as `submit` sends it.
abbrev pub IsKeyed : Dict TaskData → Type 0
IsKeyed [] = Unit
IsKeyed ((task_uuid, task_data) ∷ tasks) = (task_data.uuid ≡ task_uuid) × IsKeyed tasks

abbrev pub uuids : List Job → List String
uuids [] = []
uuids (job ∷ jobs) = job.uuid ∷ uuids jobs

-- A script that returns has changed the jobs and not which jobs there are.
abbrev pub KeepsUuids : Environment → Type 0
KeepsUuids env =
    (mod_ : Option String) (script : List Job → Called) (jobs jobs' : List Job)
    → env.import_module mod_ ≡ some script
    → script jobs ≡ returned jobs'
    → uuids jobs' ≡ uuids jobs

result_of-coded :
    (env : Environment) (job : Job) → (result_of env job).exit_code ≡ some job.int_code
unfolding result_of
result_of-coded env job = ground arith

result_of-stderr : (env : Environment) (job : Job) → (result_of env job).stderr ≡ none
unfolding result_of
result_of-stderr env job = ground arith

HasResult-insert :
    (env : Environment) (job : Job) (results : Dict TaskResult) (id_ : String)
    → HasResult results id_
    → HasResult (insert job.uuid (result_of env job) results) id_
HasResult-insert env job results id_ h = elim (Bool-cases (job.uuid == id_)) [
  | inl e ↦ record {
    result = result_of env job;
    found = lookup-insert job.uuid id_ (result_of env job) results ∙ rw e;
    code = job.int_code;
    coded = result_of-coded env job;
    no_stderr = result_of-stderr env job;
  }
  | inr e ↦ record {
    result = h.result;
    found = lookup-insert job.uuid id_ (result_of env job) results ∙ rw e h.found;
    code = h.code;
    coded = h.coded;
    no_stderr = h.no_stderr;
  }
]

HasResult-insert_self :
    (env : Environment) (job : Job) (results : Dict TaskResult)
    → HasResult (insert job.uuid (result_of env job) results) job.uuid
HasResult-insert_self env job results = record {
  result = result_of env job;
  found = lookup-insert_self job.uuid (result_of env job) results;
  code = job.int_code;
  coded = result_of-coded env job;
  no_stderr = result_of-stderr env job;
}

write_keeps :
    (env : Environment) (jobs : List Job) (results : Dict TaskResult) (rows : Dict Row)
    (id_ : String)
    → HasResult results id_
    → HasResult (write_task_results env jobs results rows).0 id_
unfolding write_task_results
write_keeps env [] results rows id_ h = h
write_keeps env (job ∷ jobs) results rows id_ h =
    write_keeps env jobs _ _ id_ (HasResult-insert env job results id_ h)

write_has :
    (env : Environment) (jobs : List Job) (results : Dict TaskResult) (rows : Dict Row)
    (id_ : String)
    → mem id_ (uuids jobs) ≡ true
    → HasResult (write_task_results env jobs results rows).0 id_
unfolding write_task_results
write_has env [] results rows id_ h = ground arith
write_has env (job ∷ jobs) results rows id_ h = elim (eq-cases job.uuid id_) [
  | inl (p, e) ↦ write_keeps env jobs _ _ id_ (
      subst (λ k. HasResult (insert job.uuid (result_of env job) results) k) p
        (HasResult-insert_self env job results))
  | inr (p, e) ↦ write_has env jobs _ _ id_ (ground (arith, e))
]

fail_has :
    (tasks : Dict TaskData) (id_ : String)
    → has id_ tasks ≡ true
    → lookup id_ (fail_results tasks) ≡ some failed_result
unfolding fail_results lookup
fail_has [] id_ h = ground arith
fail_has ((task_id, data_) ∷ tasks) id_ h = ground (arith, fail_has tasks id_)

prepare-uuid :
    (env : Environment) (task_name task_uuid : String) (task_data : TaskData)
    (arguments : Option String) (job : Job)
    → prepare env task_name task_uuid task_data arguments ≡ ok job
    → job.uuid ≡ task_data.uuid
unfolding prepare
prepare-uuid env task_name task_uuid task_data none job e = absurd (raise-ne-ok e)
prepare-uuid env task_name task_uuid task_data (some arguments) job e =
    let (args, f, g) =
      bind_ok _ (λ args. ok (new_job task_name task_data.uuid args task_data.wants_output)) e in
    ap (λ (j : Job). j.uuid) (sym (ok-injective g))

prepare_all-uuids :
    (env : Environment) (task_name : String) (mod_ : Option String) (tasks : Dict TaskData)
    (prepared : List Job × Option String)
    → IsKeyed tasks
    → prepare_all env task_name mod_ tasks ≡ ok prepared
    → uuids prepared.0 ≡ keys tasks
unfolding prepare_all
prepare_all-uuids env task_name mod_ [] prepared k e =
    ap (λ (p : List Job × Option String). uuids p.0) (sym (ok-injective e))
prepare_all-uuids env task_name mod_ ((task_uuid, task_data) ∷ rest) prepared k e =
    let (job, f, g) = bind_ok (prepare env task_name task_uuid task_data task_data.arguments) _ e in
    let (found, f', g') = bind_ok (prepare_all env task_name task_data.execute rest) _ g in
    ap (λ (p : List Job × Option String). uuids p.0) (sym (ok-injective g'))
    ∙ ap₂ (λ a b. a ∷ b)
        (prepare-uuid env task_name task_uuid task_data task_data.arguments job f ∙ k.0)
        (prepare_all-uuids env task_name task_data.execute rest found k.1 f')

call-uuids :
    (env : Environment) (prepared : List Job × Option String) (jobs' : List Job)
    → KeepsUuids env
    → call (env.import_module prepared.1) prepared.0 ≡ returned jobs'
    → uuids jobs' ≡ uuids prepared.0
call-uuids env prepared jobs' keeps e = elim (Option-cases (env.import_module prepared.1)) [
  | inl p ↦ absurd (not_returned (ap (λ m. call m prepared.0) (sym p) ∙ e))
  | inr (script, p) ↦
      keeps prepared.1 script prepared.0 jobs' p (ap (λ m. call m prepared.0) (sym p) ∙ e)
]
  where
    not_returned : call none prepared.0 ≢ returned jobs'
    not_returned f = cc

handled-uuids :
    (env : Environment) (task_name : String) (tasks : Dict TaskData)
    (prepared : Result (List Job × Option String)) (rows : Dict Row) (jobs : List Job)
    → KeepsUuids env
    → IsKeyed tasks
    → prepare_all env task_name (some "") tasks ≡ prepared
    → (handle_prepared env prepared rows).0 ≡ returned jobs
    → uuids jobs ≡ keys tasks
unfolding handle_prepared
handled-uuids env task_name tasks (raise x) rows jobs keeps k p e = absurd (not_returned e)
  where
    not_returned : failed x ≢ returned jobs
    not_returned f = cc
handled-uuids env task_name tasks (ok prepared) rows jobs keeps k p e =
    call-uuids env prepared jobs keeps e
    ∙ prepare_all-uuids env task_name (some "") tasks prepared k p

finish-HasResult :
    (env : Environment) (str : Exception → String) (tasks : Dict TaskData) (handled : Called)
    (rows : Dict Row) (id_ : String)
    → ((jobs : List Job) → handled ≡ returned jobs → uuids jobs ≡ keys tasks)
    → has id_ tasks ≡ true
    → HasResult (finish env str tasks (handled, rows)).0 id_
unfolding finish fail_all_tasks
finish-HasResult env str tasks (returned jobs) rows id_ same h =
    write_has env jobs [] rows id_ (ap (mem id_) (same jobs refl) ∙ h)
finish-HasResult env str tasks exited rows id_ same h = record {
  result = failed_result;
  found = fail_has tasks id_ h;
  code = pos 1;
  coded = refl;
  no_stderr = refl;
}
finish-HasResult env str tasks (failed e) rows id_ same h = record {
  result = failed_result;
  found = fail_has tasks id_ h;
  code = pos 1;
  coded = refl;
  no_stderr = refl;
}

-- Whatever a script does, be it that it returns, raises or exits, every task of the batch has a result
-- with an exit code, as long as a script that returns keeps the identifiers of its jobs. No result has
-- the key `stderr`.
pub execute_command-HasResult :
    (env : Environment) (str : Exception → String) (task_name : String) (tasks : Dict TaskData)
    (rows : Dict Row) (id_ : String)
    → KeepsUuids env
    → IsKeyed tasks
    → has id_ tasks ≡ true
    → HasResult (execute_command env str task_name tasks rows).0 id_
unfolding execute_command handle_batch_task
execute_command-HasResult env str task_name tasks rows id_ keeps k h =
    finish-HasResult env str tasks _ _ id_
      (λ jobs e. handled-uuids env task_name tasks _ rows jobs keeps k refl e) h

update_row-lookup :
    (uuid id_ : String) (f : Row → Row) (rows : Dict Row) (row : Row)
    → lookup id_ rows ≡ some row
    → lookup id_ (update_row uuid f rows) ≡ some (if uuid == id_ then f row else row)
unfolding update_row lookup
update_row-lookup uuid id_ f [] row h = ground arith
update_row-lookup uuid id_ f ((key, r) ∷ rows) row h =
    ground (
      arith,
      eq_iff key uuid,
      eq_iff key id_,
      eq_iff uuid id_,
      update_row-lookup uuid id_ f rows row,
    )

-- The row is there.
abbrev IsPresent : Dict Row → String → Type 0
IsPresent rows id_ = (row : Row) × (lookup id_ rows ≡ some row)

update_row-IsPresent :
    (uuid id_ : String) (f : Row → Row) (rows : Dict Row)
    → IsPresent rows id_
    → IsPresent (update_row uuid f rows) id_
update_row-IsPresent uuid id_ f rows (row, h) = (_, update_row-lookup uuid id_ f rows row h)

started-IsPresent :
    (utc_date id_ : String) (jobs : List Job) (rows : Dict Row)
    → IsPresent rows id_
    → IsPresent (set_start_times utc_date jobs rows) id_
unfolding set_start_times
started-IsPresent utc_date id_ [] rows h = h
started-IsPresent utc_date id_ (job ∷ jobs) rows h =
    started-IsPresent utc_date id_ jobs _ (update_row-IsPresent job.uuid id_ _ rows h)

handled-IsPresent :
    (env : Environment) (id_ : String) (prepared : Result (List Job × Option String))
    (rows : Dict Row)
    → IsPresent rows id_
    → IsPresent (handle_prepared env prepared rows).1 id_
unfolding handle_prepared
handled-IsPresent env id_ (raise e) rows h = h
handled-IsPresent env id_ (ok (jobs, mod_)) rows h = started-IsPresent env.utc_date id_ jobs rows h

-- The row of a task that failed, with the reason.
pub record IsFailed (reason : String) (rows : Dict Row) (id_ : String) : Type 0 where
  pub row : Row
  pub found : lookup id_ rows ≡ some row
  pub coded : row.exitcode ≡ some (pos 1)
  pub reasoned : row.stderror ≡ reason

abbrev fail_row : String → String → Row → Row
fail_row utc_date reason row = record row {
  stderror = reason;
  exitcode = some (pos 1);
  endtime = some utc_date;
}

IsFailed-update :
    (utc_date reason uuid id_ : String) (rows : Dict Row)
    → IsFailed reason rows id_
    → IsFailed reason (update_row uuid (fail_row utc_date reason) rows) id_
IsFailed-update utc_date reason uuid id_ rows h = elim (Bool-cases (uuid == id_)) [
  | inl e ↦ record {
    row = fail_row utc_date reason h.row;
    found = update_row-lookup uuid id_ _ rows h.row h.found ∙ rw e;
    coded = refl;
    reasoned = refl;
  }
  | inr e ↦ record {
    row = h.row;
    found = update_row-lookup uuid id_ _ rows h.row h.found ∙ rw e;
    coded = h.coded;
    reasoned = h.reasoned;
  }
]

IsFailed-update_self :
    (utc_date reason uuid : String) (rows : Dict Row)
    → IsPresent rows uuid
    → IsFailed reason (update_row uuid (fail_row utc_date reason) rows) uuid
IsFailed-update_self utc_date reason uuid rows (row, h) = record {
  row = fail_row utc_date reason row;
  found = update_row-lookup uuid uuid _ rows row h ∙ rw (eq_refl uuid);
  coded = refl;
  reasoned = refl;
}

fail_rows-keeps :
    (utc_date reason id_ : String) (tasks : Dict TaskData) (rows : Dict Row)
    → IsFailed reason rows id_
    → IsFailed reason (fail_rows utc_date reason tasks rows) id_
unfolding fail_rows
fail_rows-keeps utc_date reason id_ [] rows h = h
fail_rows-keeps utc_date reason id_ ((task_uuid, data_) ∷ tasks) rows h =
    fail_rows-keeps utc_date reason id_ tasks _
      (IsFailed-update utc_date reason task_uuid id_ rows h)

fail_rows-IsFailed :
    (utc_date reason id_ : String) (tasks : Dict TaskData) (rows : Dict Row)
    → has id_ tasks ≡ true
    → IsPresent rows id_
    → IsFailed reason (fail_rows utc_date reason tasks rows) id_
unfolding fail_rows
fail_rows-IsFailed utc_date reason id_ [] rows h p = ground arith
fail_rows-IsFailed utc_date reason id_ ((task_uuid, data_) ∷ tasks) rows h p =
    elim (eq-cases task_uuid id_) [
      | inl (q, e) ↦ fail_rows-keeps utc_date reason id_ tasks _ (
          subst (λ k. IsFailed reason (update_row task_uuid (fail_row utc_date reason) rows) k) q
            (IsFailed-update_self utc_date reason task_uuid rows
              (subst (IsPresent rows) (sym q) p)))
      | inr (q, e) ↦
          fail_rows-IsFailed utc_date reason id_ tasks _ (ground (arith, e))
            (update_row-IsPresent task_uuid id_ _ rows p)
    ]

-- Where a batch fails by an exception, each of its tasks gets the exit code 1 without any output, and
-- its row, if there is one, the exit code 1 and the text of the exception.
pub execute_command_failed :
    (env : Environment) (str : Exception → String) (task_name : String) (tasks : Dict TaskData)
    (rows : Dict Row) (id_ : String) (e : Exception) (row : Row)
    → (handle_batch_task env task_name tasks rows).0 ≡ failed e
    → has id_ tasks ≡ true
    → lookup id_ rows ≡ some row
    → (lookup id_ (execute_command env str task_name tasks rows).0 ≡ some failed_result)
      × IsFailed (str e) (execute_command env str task_name tasks rows).1 id_
unfolding execute_command handle_batch_task fail_all_tasks finish
execute_command_failed env str task_name tasks rows id_ e row f h present =
    let prepared = prepare_all env task_name (some "") tasks in
    let rows' = (handle_prepared env prepared rows).1 in
    subst
      (λ called.
        (lookup id_ (finish env str tasks (called, rows')).0 ≡ some failed_result)
        × IsFailed (str e) (finish env str tasks (called, rows')).1 id_)
      (sym f)
      (
        fail_has tasks id_ h,
        fail_rows-IsFailed env.utc_date (str e) id_ tasks rows' h
            (handled-IsPresent env id_ prepared rows (row, present)),
      )
