-- ===== src/Queue.antt =====
-- a3m/server/queues.py: the class `PackageQueue`, a method to a function. A method takes the queue's
-- state and returns its outcome and the new state. What a method reads of a `Job` is its package (`unit`),
-- its link's id and whether the link is terminal. The two `queue.Queue` objects are lists, oldest
-- job first; the Prometheus gauges that the methods move are counted in the same record.
-- The children prove: Valid (the limits and the gauges), Orderly and System (no slot is refused),
-- Race (two threads in `schedule_job`).
pub mod Valid
pub mod System
pub mod Histories
pub mod Conservation
pub mod Orderly
pub mod Slots
pub mod Race
mod Tests
use a3m.Common.{
  ℕ, zero, suc, ◌+◌, String, Bool, true, false, ◌&&◌, Option, none, some, List, [], ◌∷◌, ◌++◌, ltb,
  leb, if◌then◌else◌, length, Exception, runtime_error, value_error, queue_full, Result, ok, raise,
}
use a3m.Common.Dict.{Dict, insert, remove, has}

-- What the queue reads of a package: `Package.uuid`, the primary key of its SIP, a text.
pub record Package : Type 0 where
  pub uuid : String

pub record Job : Type 0 where
  pub uuid : String
  pub unit : Package
  pub link_id : String
  pub is_terminal : Bool

-- A gauge, by how often it was incremented and decremented.
pub record Gauge : Type 0 where
  pub incs : ℕ
  pub decs : ℕ

abbrev pub inc : Gauge → Gauge
inc g = record g { incs = g.incs + 1 }

abbrev pub dec : Gauge → Gauge
dec g = record g { decs = g.decs + 1 }

pub record PackageQueue : Type 0 where
  pub shutdown_event : Bool
  pub max_concurrent_packages : ℕ
  pub max_queued_packages : ℕ
  pub active_packages : Dict Package
  pub job_queue : List Job
  pub queue : List Job
  pub job_queue_length_gauge : Gauge
  pub package_queue_length_gauge : Gauge
  pub active_package_gauge : Gauge
  pub active_jobs_gauge : Gauge

-- How a call ends: with a value, by an exception, or not at all while `put(block=True)` waits for a
-- slot.
pub data Outcome (A : Type 0) : Type 0 where
  done : A → Outcome A
  raised : Exception → Outcome A
  blocked : Outcome A

abbrev pub zero_gauge : Gauge
zero_gauge = record { incs = 0; decs = 0 }

-- `PackageQueue.__init__`
abbrev pub init : (max_concurrent_packages max_queued_packages : ℕ) → PackageQueue
init max_concurrent max_queued = record {
  shutdown_event = false;
  max_concurrent_packages = max_concurrent;
  max_queued_packages = max_queued;
  active_packages = [];
  job_queue = [];
  queue = [];
  job_queue_length_gauge = zero_gauge;
  package_queue_length_gauge = zero_gauge;
  active_package_gauge = zero_gauge;
  active_jobs_gauge = zero_gauge;
}

-- `queue.Queue(maxsize).full()`: a maxsize of 0 stands for no limit.
abbrev pub is_full : (maxsize size : ℕ) → Bool
is_full maxsize size = ltb 0 maxsize && leb maxsize size

-- `job_queue.put(job)` and its gauge, where there is a slot.
abbrev pub put_job : Job → PackageQueue → PackageQueue
put_job job q = record q {
  job_queue = q.job_queue ++ job ∷ [];
  job_queue_length_gauge = inc q.job_queue_length_gauge;
}

-- `queue.put_nowait(job)` and its gauge, where there is room.
abbrev pub store_job : Job → PackageQueue → PackageQueue
store_job job q = record q {
  queue = q.queue ++ job ∷ [];
  package_queue_length_gauge = inc q.package_queue_length_gauge;
}

-- `_put_package_nowait`
unfoldable pub put_package_nowait : Job → PackageQueue → Outcome Unit × PackageQueue
put_package_nowait job q =
    if is_full q.max_queued_packages (length q.queue)
    then (raised queue_full, q)
    else (done tt, store_job job q)

take_package_job : List Job → PackageQueue → Option Job × PackageQueue
take_package_job [] q = (none, q)
take_package_job (job ∷ rest) q = (
  some job,
  record q { queue = rest; package_queue_length_gauge = dec q.package_queue_length_gauge },
)

-- `_get_package_job_nowait`
unfoldable pub get_package_job_nowait : PackageQueue → Option Job × PackageQueue
unfolding take_package_job
get_package_job_nowait q = take_package_job q.queue q

unfoldable pub activate_package : Package → PackageQueue → PackageQueue
activate_package unit q = if has unit.uuid q.active_packages then q else record q {
  active_packages = insert unit.uuid unit q.active_packages;
  active_package_gauge = inc q.active_package_gauge;
}

unfoldable pub deactivate_package : Package → PackageQueue → PackageQueue
deactivate_package unit q =
    if has unit.uuid q.active_packages
    then record q {
      active_packages = remove unit.uuid q.active_packages;
      active_package_gauge = dec q.active_package_gauge;
    }
    else q

-- `queue_next_job`, from the job that it took on.
unfoldable pub release : Option Job → PackageQueue → Outcome Unit × PackageQueue
release none q = (done tt, q)
release (some job) q =
    let active = activate_package job.unit q in
    if is_full active.max_concurrent_packages (length active.job_queue)
    then (raised queue_full, active)
    else (done tt, put_job job active)

unfoldable pub queue_next_job : PackageQueue → Outcome Unit × PackageQueue
queue_next_job q = let (found, taken) = get_package_job_nowait q in release found taken

-- The end of `schedule_job` for a package that was not active, after `_put_package_nowait`: the
-- number of active packages was read before it.
unfoldable pub start_if_capacity : ℕ → Outcome Unit → PackageQueue → Outcome Unit × PackageQueue
start_if_capacity active_package_count (done _) q =
    if ltb active_package_count q.max_concurrent_packages then queue_next_job q else (done tt, q)
start_if_capacity active_package_count (raised e) q = (raised e, q)
start_if_capacity active_package_count blocked q = (blocked, q)

unfoldable pub schedule_job : Job → PackageQueue → Outcome Unit × PackageQueue
unfolding start_if_capacity
schedule_job job q =
    if q.shutdown_event
    then (raised runtime_error, q)
    else if has job.unit.uuid q.active_packages
    then (if is_full q.max_concurrent_packages (length q.job_queue)
        then (blocked, q)
        else (done tt, put_job job q))
    else let (result, queued) = put_package_nowait job q in
      start_if_capacity (length q.active_packages) result queued

take_job : List Job → PackageQueue → Option Job × PackageQueue
take_job [] q = (none, q)
take_job (job ∷ rest) q = (
  some job,
  record q {
    job_queue = rest;
    job_queue_length_gauge = dec q.job_queue_length_gauge;
    active_jobs_gauge = inc q.active_jobs_gauge;
  },
)

-- `process_one_job` up to the submission of the job that it returns to the executor.
unfoldable pub process_one_job : PackageQueue → Option Job × PackageQueue
unfolding take_job
process_one_job q = take_job q.job_queue q

-- `future.result()`: what `Job.run` returned, the next job or `None`, or the exception it raised.
abbrev pub Future : Type 0
Future = Result (Option Job)

-- `_job_completed_callback`
unfoldable pub job_completed_callback : Future → PackageQueue → Outcome Unit × PackageQueue
job_completed_callback future q =
    let settled = record q { active_jobs_gauge = dec q.active_jobs_gauge } in
    elim future [
      | ok none ↦ (done tt, settled)
      | ok (some next_job) ↦ schedule_job next_job settled
      | raise e ↦ (raised e, settled)
    ]

-- `_package_completed_callback`
unfoldable pub package_completed_callback :
    Package → Future → PackageQueue → Outcome Unit × PackageQueue
package_completed_callback unit future q = elim future [
  | ok none ↦ queue_next_job (deactivate_package unit q)
  | ok (some unexpected) ↦ (done tt, q)
  | raise e ↦ (raised e, q)
]

-- The second callback, which `process_one_job` adds for a terminal link. The executor runs the
-- callbacks in order; it logs an exception of the first and goes on, and waits while it blocks.
unfoldable pub complete_package : Job → Future → Outcome Unit → PackageQueue → PackageQueue
complete_package job future blocked q = q
complete_package job future _ q =
    if job.is_terminal then (package_completed_callback job.unit future q).1 else q

-- All that the completion of a submitted job does to the queue.
unfoldable pub complete_job : Job → Future → PackageQueue → PackageQueue
unfolding complete_package
complete_job job future q =
    let (outcome, called_back) = job_completed_callback future q in
    complete_package job future outcome called_back

unfoldable pub stop : PackageQueue → PackageQueue
stop q = record q { shutdown_event = true }

-- The argument of `is_package_active`: a text or a `uuid.UUID`.
pub data PackageId : Type 0 where
  text uuid : String → PackageId

-- `package_uuid in self.active_packages`: the keys are texts, and no UUID equals a text.
abbrev is_key : PackageId → Dict Package → Bool
is_key (text s) d = has s d
is_key (uuid u) d = false

-- `is_package_active`; `parse` is `uuid.UUID` on a text.
unfoldable pub is_package_active : (String → Option String) → PackageId → PackageQueue → Result Bool
is_package_active parse (uuid u) q = ok (is_key (uuid u) q.active_packages)
is_package_active parse (text s) q = elim (parse s) [
  | none ↦ raise value_error
  | some u ↦ ok (is_key (uuid u) q.active_packages)
]
