-- ===== src/Jobs.antt =====
-- a3m/server/jobs: the classes of jobs (base.py, client.py, decisions.py) and the chain that makes
-- them (chain.py). A chain is a record, `__next__` takes it to its next state. The job that runs is
-- the chain's `current_job`: the program shares the object, so that what a job writes to its exit
-- code is what `__next__` reads.
-- Not modelled here: the database rows but for the `currentstep` of the job that runs, and the
-- command line (a3m/server/tasks hands the tasks on).
-- The children: ExitCodes, Routing, Decisions, Chains (theorems), Tests.
pub mod ExitCodes
pub mod Routing
pub mod Decisions
pub mod Chains
mod Tests
use a3m.Common.{
  ℕ, zero, String, Bool, true, false, Option, none, some, List, [], ◌∷◌, ◌==◌, nat_eq,
  if◌then◌else◌, Exception, key_error, value_error, attribute_error, stop_iteration, Result, ok,
  raise, ◌>>=◌,
}
use a3m.Common.Dict.{Dict}
use a3m.Common.Int.{ℤ, pos, negsuc, max_ℤ, or_zero}
use a3m.Workflow.{
  Value, flag, number, Choice, Config, Link, Workflow, get_item, get_link, get_next_link,
  get_status_id, status_executing_commands, status_completed_successfully,
}

-- `DirectoryClientScriptJob`, `FilesClientScriptJob`, `NextLinkDecisionJob`
pub data JobClass : Type 0 where
  directory_client_script files_client_script next_link_decision : JobClass

unfoldable pub get_job_class_for_link : Link → Result JobClass
get_job_class_for_link link =
    let manager_name = link.src.config.manager in
    if manager_name == "linkTaskManagerDirectories"
    then ok directory_client_script
    else if manager_name == "linkTaskManagerFiles"
    then ok files_client_script
    else if manager_name == "linkTaskManagerChoice"
    then ok next_link_decision
    else raise value_error

pub record Job : Type 0 where
  pub job_class : JobClass
  pub link : Link
  pub exit_code : Option ℤ

-- `Job.__init__` sets 0, and `ClientScriptJob.__init__` sets `None` after it.
abbrev pub new_job : JobClass → Link → Job
new_job next_link_decision link = record {
  job_class = next_link_decision;
  link = link;
  exit_code = some (pos 0);
}
new_job job_class link = record { job_class = job_class; link = link; exit_code = none }

-- What `JobChain.next_link` may hold: a link's identifier, or a link.
pub data NextLink : Type 0 where
  by_id : String → NextLink
  by_link : Link → NextLink

pub record JobChain : Type 0 where
  pub workflow : Workflow
  pub current_link : Option Link
  pub next_link : Option NextLink
  pub current_job : Option Job

-- `JobChain.__init__`
abbrev pub init : Workflow → Link → JobChain
init workflow starting_link = record {
  workflow = workflow;
  current_link = none;
  next_link = some (by_link starting_link);
  current_job = none;
}

-- The test `if self.next_link`: an empty text counts as no link.
abbrev pub truthy : Option NextLink → Option NextLink
truthy (some (by_id id_)) = if id_ == "" then none else some (by_id id_)
truthy (some (by_link link)) = some (by_link link)
truthy none = none

-- `except KeyError: next_link = None`
abbrev pub except_key_error : Result Link → Result (Option NextLink)
except_key_error (ok link) = ok (some (by_link link))
except_key_error (raise key_error) = ok none
except_key_error (raise e) = raise e

-- The link that follows by the exit code of the job before.
abbrev pub follow : Workflow → Option Link → Option Job → Result (Option NextLink)
follow workflow none job = raise attribute_error
follow workflow (some link) none = raise attribute_error
follow workflow (some link) (some job) =
    except_key_error (get_next_link workflow link job.exit_code)

-- `__next__` from a link: the class of its job is looked up after the link is made current.
unfoldable pub begin_job : Result JobClass → Link → JobChain → Result Job × JobChain
begin_job (raise e) link chain = (raise e, chain)
begin_job (ok job_class) link chain =
    (ok (new_job job_class link), record chain { current_job = some (new_job job_class link) })

unfoldable pub start_job : Link → JobChain → Result Job × JobChain
unfolding begin_job
start_job link chain =
    begin_job (get_job_class_for_link link) link (record chain { current_link = some link })

unfoldable pub start_found : Result Link → JobChain → Result Job × JobChain
start_found (raise e) chain = (raise e, chain)
start_found (ok link) chain = start_job link chain

unfoldable pub resolve : NextLink → JobChain → Result Job × JobChain
unfolding start_found
resolve (by_link link) chain = start_job link chain
resolve (by_id id_) chain = start_found (get_link chain.workflow (some id_)) chain

unfoldable pub continue_with : Result (Option NextLink) → JobChain → Result Job × JobChain
continue_with (raise e) chain = (raise e, chain)
continue_with (ok none) chain =
    (raise stop_iteration, record chain { current_link = none; current_job = none })
continue_with (ok (some next_link)) chain = resolve next_link chain

unfoldable pub advance_from : Option NextLink → JobChain → Result Job × JobChain
advance_from (some next_link) chain = resolve next_link (record chain { next_link = none })
advance_from none chain =
    continue_with (follow chain.workflow chain.current_link chain.current_job) chain

-- `JobChain.__next__`
unfoldable pub next : JobChain → Result Job × JobChain
unfolding advance_from continue_with resolve start_job
next chain = advance_from (truthy chain.next_link) chain

-- `next(job_chain, None)`
abbrev pub or_none : Result Job → Result (Option Job)
or_none (ok job) = ok (some job)
or_none (raise stop_iteration) = ok none
or_none (raise e) = raise e

unfoldable pub next_or_none : JobChain → Result (Option Job) × JobChain
next_or_none chain = let (result, after) = next chain in (or_none result, after)

-- `value == config_value`: in Python, `True` equals 1 and `False` equals 0.
abbrev to_number : Value → ℕ
to_number (flag true) = 1
to_number (flag false) = 0
to_number (number n) = n

unfoldable pub equals : Value → Value → Bool
equals a b = nat_eq (to_number a) (to_number b)

-- The loop over `config["choices"]`, which stops at the first that fits.
unfoldable pub first_choice : Value → List Choice → Option String
unfolding equals
first_choice config_value [] = none
first_choice config_value (item ∷ rest) =
    if equals item.value config_value then some item.link_id else first_choice config_value rest

abbrev pub configured_or_default : Option Value → Config → Result Value
configured_or_default (some value) config = ok value
configured_or_default none config = get_item config.default

-- `NextLinkDecisionJob.decide`; `configured` is `getattr(package.config, attr, None)`.
unfoldable pub decide : (String → Option Value) → Link → Result (Option String)
decide configured link = do
  config_attr ← get_item link.src.config.config_attr
  config_value ← configured_or_default (configured config_attr) link.src.config
  ok (first_choice config_value link.src.config.choices)

-- The stage of the package that the jobs work on (`packages.Stage`).
pub data Stage : Type 0 where
  transfer ingest : Stage

-- The chain, the stage of its package, and the `currentstep` of the running job's row, once it has one.
pub record Run : Type 0 where
  pub chain : JobChain
  pub stage : Stage
  pub currentstep : Option ℕ

-- `wait_for_task_results`: the results come in the order in which the batches complete.
unfoldable pub collect : Option ℤ → List (Option ℤ) → Option ℤ
collect exit_code [] = exit_code
collect exit_code (task_exit_code ∷ rest) =
    collect (some (max_ℤ (or_zero exit_code) (or_zero task_exit_code))) rest

abbrev pub link_end_of_transfer : String
link_end_of_transfer = "39a128e3-c35d-40b7-9363-87f75091e1ff"

-- `task_completed_callback`, for each task in turn.
unfoldable pub completed_tasks : Job → List (Option ℤ) → Stage → Stage
completed_tasks job [] stage = stage
completed_tasks job (task ∷ rest) stage = completed_tasks job rest (elim job.job_class [
  | directory_client_script ↦ if job.link.id == link_end_of_transfer then ingest else stage
  | _ ↦ stage
])

-- The exit code before the results: `FilesClientScriptJob.submit_tasks` sets 0.
abbrev pub submitted : Job → Option ℤ
submitted job = elim job.job_class [ files_client_script ↦ some (pos 0) | _ ↦ job.exit_code ]

-- `ClientScriptJob.run`, from the exit codes of its tasks.
unfoldable pub run_client_script : List (Option ℤ) → Job → Run → Result (Option Job) × Run
run_client_script results job run =
    let exit_code = collect (submitted job) results in
    let finished = record job { exit_code = exit_code } in
    let (result, chain) = next_or_none (record run.chain { current_job = some finished }) in
    (
      result,
      record {
        chain = chain;
        stage = completed_tasks job results run.stage;
        currentstep = some (get_status_id job.link exit_code);
      },
    )

-- `NextLinkDecisionJob.run`
pub after_decision : Result (Option String) → Run → Result (Option Job) × Run
after_decision (raise e) run =
    (raise e, record run { currentstep = some status_executing_commands })
after_decision (ok next_id) run =
    let decided = record run.chain {
      next_link = elim next_id [ none ↦ none | some id_ ↦ some (by_id id_) ];
    } in
    let (result, chain) = next_or_none decided in
    (result, record run { chain = chain; currentstep = some status_completed_successfully })

unfoldable pub run_decision : (String → Option Value) → Job → Run → Result (Option Job) × Run
unfolding after_decision
run_decision configured job run = after_decision (decide configured job.link) run

-- `Job.run` of the job's own class.
unfoldable pub run_job :
    (String → Option Value) → List (Option ℤ) → Job → Run → Result (Option Job) × Run
run_job configured results job run = elim job.job_class [
  | next_link_decision ↦ run_decision configured job run
  | _ ↦ run_client_script results job run
]
