-- ===== src/Packages/Launch.antt =====
-- `create_package`, `trigger_workflow` and the context (`PackageContext`) of a3m/server/packages.py.
-- The identifiers from `uuid4` are arguments; `literal_eval` is `ast.literal_eval`.
use a3m.Common.{
  String, ◌≡◌, ◌≢◌, refl, ap, ◌∙◌, Option, none, some, List, [], ◌∷◌, ◌++◌, ◌==◌, if◌then◌else◌,
  value_error, Result, ok, raise, Bool, true, false, ◌⊎◌, inl, inr, All, arith,
}
use mathlib.Core.Path.{subst}
use mathlib.Core.Option.{some-injective}
use a3m.Common.Dict.{Dict, update}
use a3m.Workflow.{Link, Workflow, get_or, first_initiator, get_initiator, is_initiator, is_terminal}
use a3m.Jobs.{
  JobClass, directory_client_script, files_client_script, next_link_decision,
  get_job_class_for_link, JobChain, by_link, init, next, advance_from, resolve, start_job,
  begin_job, transfer, new_job,
}
use a3m.Queue.{PackageQueue, Outcome, done, raised, schedule_job}
use a3m.Packages.{OsPath, Settings, Package}

-- The loop of `load_from_db` over the distinct values of the package's unit variables: a value that is
-- no literal is skipped.
unfoldable pub load_from_db :
    (literal_eval : String → Result (Dict String))
    → List String
    → Dict String
    → Result (Dict String)
load_from_db literal_eval [] context = ok context
load_from_db literal_eval (unit_var_value ∷ rest) context = elim (literal_eval unit_var_value) [
  | ok unit_var ↦ load_from_db literal_eval rest (update context unit_var)
  | raise value_error ↦ load_from_db literal_eval rest context
  | raise e ↦ raise e
]

-- `create_package` up to the submission of `trigger_workflow`.
unfoldable pub create_package :
    OsPath
    → Settings
    → (transfer_id sip_id : String) → (name url : String) → Dict String
    → Result Package
create_package os settings transfer_id sip_id name url config =
    if name == ""
    then raise value_error
    else if url == ""
    then raise value_error
    else ok (record {
      name = name;
      url = url;
      config = config;
      transfer_pk = transfer_id;
      sip_pk = sip_id;
      stage = transfer;
      aip_filename = none;
      current_path = os.join settings.processing_directory ("transfer" ∷ transfer_id ∷ "" ∷ []);
    })

-- The job of the chain as the queue sees it.
abbrev pub queue_job : String → Package → a3m.Jobs.Job → a3m.Queue.Job
queue_job uuid package_ job = record {
  uuid = uuid;
  unit = record { uuid = package_.sip_pk };
  link_id = job.link.id;
  is_terminal = is_terminal job.link;
}

pub schedule_first :
    String → Package → PackageQueue → Result a3m.Jobs.Job → Outcome (Unit {0}) × PackageQueue
schedule_first uuid package_ queue (raise e) = (raised e, queue)
schedule_first uuid package_ queue (ok job) = schedule_job (queue_job uuid package_ job) queue

pub trigger_from :
    String → Package → PackageQueue → Workflow → Option Link → Outcome (Unit {0}) × PackageQueue
unfolding schedule_first
trigger_from uuid package_ queue workflow none = (raised value_error, queue)
trigger_from uuid package_ queue workflow (some initiator_link) =
    schedule_first uuid package_ queue (next (init workflow initiator_link)).0

unfoldable pub trigger_workflow :
    (job_uuid : String) → Package → PackageQueue → Workflow → Outcome (Unit {0}) × PackageQueue
unfolding trigger_from
trigger_workflow job_uuid package_ queue workflow =
    trigger_from job_uuid package_ queue workflow (get_initiator workflow)

first_job :
    (workflow : Workflow) (link : Link) (found : Result JobClass) (chain : JobChain) (uuid : String)
    (package_ : Package) (queue : PackageQueue)
    → (schedule_first uuid package_ queue (begin_job found link chain).0).0 ≡ done tt
    → (job_class : JobClass) × (found ≡ ok job_class)
      × (schedule_first uuid package_ queue (begin_job found link chain).0
          ≡ schedule_job (queue_job uuid package_ (new_job job_class link)) queue)
unfolding schedule_first begin_job
first_job workflow link (ok job_class) chain uuid package_ queue h = (job_class, refl, refl)
first_job workflow link (raise e) chain uuid package_ queue h = absurd (not_done h)
  where
    not_done : raised e ≢ done tt
    not_done f = cc

-- A link of the workflow is where its chains start: its `start` is set, and no link before it has one
-- that is set.
pub record IsFirst (links : Dict Link) (link : Link) : Type 0 where
  pub before : Dict Link
  pub id : String
  pub after : Dict Link
  pub split : links ≡ before ++ (id, link) ∷ after
  pub starts : link.src.start ≡ some true
  pub others : All (λ (entry : String × Link). entry.1.src.start ≢ some true) before

-- The job that starts a package is of the workflow's first link with `start`, whose manager is known, and
-- of the package.
pub record IsLaunched (uuid : String) (package_ : Package) (queue : PackageQueue)
    (workflow : Workflow) (outcome : Outcome (Unit {0}) × PackageQueue) : Type 0 where
  pub link : Link
  pub initiator : IsFirst workflow.links link
  pub job_class : JobClass
  pub classed : get_job_class_for_link link ≡ ok job_class
  pub scheduled :
      outcome
      ≡ schedule_job
          (record {
            uuid = uuid;
            unit = record { uuid = package_.sip_pk };
            link_id = link.id;
            is_terminal = is_terminal link;
          })
          queue

start-cases :
    (link : Link)
    → (is_initiator link ≡ true) × (link.src.start ≡ some true)
      ⊎ (is_initiator link ≡ false) × (link.src.start ≢ some true)
start-cases link = cases link.src.start
  where
    cases :
        (start : Option Bool)
        → (get_or start false ≡ true) × (start ≡ some true)
          ⊎ (get_or start false ≡ false) × (start ≢ some true)
    cases none = inr (refl, λ e. cc)
    cases (some true) = inl (refl, refl)
    cases (some false) = inr (refl, λ e. cc)

first_initiator-IsFirst :
    (links : Dict Link) (link : Link) → first_initiator links ≡ some link → IsFirst links link
unfolding first_initiator
first_initiator-IsFirst [] link e = absurd (ground (arith, e))
first_initiator-IsFirst ((id, first) ∷ rest) link e = elim (start-cases first) [
  | inl (q, starts) ↦
      let same : first ≡ link = some-injective first link (rw q at e) in
      record {
        before = [];
        id = id;
        after = rest;
        split = ap (λ l. (id, l) ∷ rest) same;
        starts = subst (λ (l : Link). l.src.start ≡ some true) same starts;
        others = tt;
      }
  | inr (q, other) ↦
      let found = first_initiator-IsFirst rest link (rw q at e) in
      record {
        before = (id, first) ∷ found.before;
        id = found.id;
        after = found.after;
        split = ap (λ l. (id, first) ∷ l) found.split;
        starts = found.starts;
        others = (other, found.others);
      }
]

new_job-link : (job_class : JobClass) (link : Link) → (new_job job_class link).link ≡ link
new_job-link directory_client_script link = refl
new_job-link files_client_script link = refl
new_job-link next_link_decision link = refl

launched :
    (uuid : String) (package_ : Package) (queue : PackageQueue) (workflow : Workflow)
    (found : Option Link)
    → get_initiator workflow ≡ found
    → (trigger_from uuid package_ queue workflow found).0 ≡ done tt
    → IsLaunched uuid package_ queue workflow (trigger_from uuid package_ queue workflow found)
unfolding trigger_from next advance_from resolve start_job get_initiator
launched uuid package_ queue workflow none i h = absurd (not_done h)
  where
    not_done : raised value_error ≢ done tt
    not_done f = cc
launched uuid package_ queue workflow (some link) i h =
    let (job_class, e, same) =
      first_job workflow link (get_job_class_for_link link) _ uuid package_ queue h in
    record {
      link = link;
      initiator = first_initiator-IsFirst workflow.links link i;
      job_class = job_class;
      classed = e;
      scheduled =
          same
          ∙ ap
              (λ (l : Link).
                schedule_job
                  (record {
                    uuid = uuid;
                    unit = record { uuid = package_.sip_pk };
                    link_id = l.id;
                    is_terminal = is_terminal l;
                  })
                  queue)
              (new_job-link job_class link);
    }

-- When the workflow of a package is triggered without an exception, what it did is to schedule the job
-- of the first link of the workflow whose `start` is set, for the SIP of the package; the manager of that
-- link names a job class.
pub trigger_workflow-IsLaunched :
    (uuid : String) (package_ : Package) (queue : PackageQueue) (workflow : Workflow)
    → (trigger_workflow uuid package_ queue workflow).0 ≡ done tt
    → IsLaunched uuid package_ queue workflow (trigger_workflow uuid package_ queue workflow)
unfolding trigger_workflow
trigger_workflow-IsLaunched uuid package_ queue workflow h =
    launched uuid package_ queue workflow (get_initiator workflow) refl h
