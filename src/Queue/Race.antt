-- ===== src/Queue/Race.antt =====
-- `schedule_job` of a3m/server/queues.py in two threads at once. A thread can be interrupted between
-- the parts that a lock or one call of a `queue.Queue` method makes atomic.
use a3m.Common.{
  ℕ, suc, ◌≤◌, ◌≡◌, ◌≢◌, Bool, true, false, none, some, Option, List, [], ◌∷◌, ltb, if◌then◌else◌,
  arith, length, eq_iff, runtime_error, queue_full,
}
use a3m.Common.Dict.{has, insert, mem-keys-insert, length-insert_new}
use a3m.Queue.{
  Job, PackageQueue, Outcome, done, raised, is_full, put_job, store_job, get_package_job_nowait,
  activate_package,
}

-- Where a thread stands in `schedule_job`.
pub data Thread : Type 0 where
  -- before the test of the shutdown event
  arrived : Job → Thread
  -- before the first block under the lock
  checked : Job → Thread
  -- before `_put_package_nowait`, with the number of active packages that it read under the lock
  counted : Job → ℕ → Thread
  -- before the test for capacity and `_get_package_job_nowait`
  stored : ℕ → Thread
  -- before `activate_package`
  fetched : Job → Thread
  -- before `job_queue.put_nowait`
  activated : Job → Thread
  finished : Outcome Unit → Thread

-- A job that was taken is activated next.
take_on : Option Job → PackageQueue → Thread × PackageQueue
take_on none q = (finished (done tt), q)
take_on (some job) q = (fetched job, q)

-- From the test for capacity to the next atomic part.
fetch : ℕ → PackageQueue → Thread × PackageQueue
unfolding take_on
fetch n q =
    if ltb n q.max_concurrent_packages
    then (let (found, taken) = get_package_job_nowait q in take_on found taken)
    else (finished (done tt), q)

-- One atomic part. A thread that waits for a slot stays where it is.
advance : Thread → PackageQueue → Thread × PackageQueue
unfolding fetch
advance (arrived job) q =
    if q.shutdown_event then (finished (raised runtime_error), q) else (checked job, q)
advance (checked job) q =
    if has job.unit.uuid q.active_packages
    then (if is_full q.max_concurrent_packages (length q.job_queue)
        then (checked job, q)
        else (finished (done tt), put_job job q))
    else (counted job (length q.active_packages), q)
advance (counted job n) q =
    if is_full q.max_queued_packages (length q.queue)
    then (finished (raised queue_full), q)
    else (stored n, store_job job q)
advance (stored n) q = fetch n q
advance (fetched job) q = (activated job, activate_package job.unit q)
advance (activated job) q =
    if is_full q.max_concurrent_packages (length q.job_queue)
    then (finished (raised queue_full), q)
    else (finished (done tt), put_job job q)
advance (finished o) q = (finished o, q)

-- Two threads, and the queue that they share.
pub record Pair : Type 0 where
  pub first : Thread
  pub second : Thread
  pub queue : PackageQueue

-- Which thread goes on: the first at `true`.
advance_one : Bool → Pair → Pair
advance_one true p =
    let (t, q) = advance p.first p.queue in record { first = t; second = p.second; queue = q }
advance_one false p =
    let (t, q) = advance p.second p.queue in record { first = p.first; second = t; queue = q }

pub run_two : List Bool → Pair → Pair
unfolding advance_one advance
run_two [] p = p
run_two (b ∷ bs) p = run_two bs (advance_one b p)

-- Both threads read the number of active packages before either of them activates one.
abbrev pub race : List Bool
race = true ∷ true ∷ false ∷ false ∷ true ∷ false ∷ true ∷ false ∷ true ∷ false ∷ []

abbrev pub together : Job → Job → PackageQueue → Pair
together a b q = record { first = arrived a; second = arrived b; queue = q }

-- A queue that is not shut down and where no job waits.
abbrev pub idle : PackageQueue → PackageQueue
idle q = record q { shutdown_event = false; queue = [] }

-- If two threads schedule jobs of two new packages at once while there is room for one more active
-- package, one order of their atomic parts leaves one active package more than the limit.
pub race_exceeds_limit :
    (a b : Job) (q : PackageQueue)
    → suc (length q.active_packages) ≡ q.max_concurrent_packages
    → 2 ≤ q.max_queued_packages
    → has a.unit.uuid q.active_packages ≡ false
    → has b.unit.uuid q.active_packages ≡ false
    → a.unit.uuid ≢ b.unit.uuid
    → length (run_two race (together a b (idle q))).queue.active_packages
      ≡ suc q.max_concurrent_packages
unfolding run_two get_package_job_nowait activate_package
race_exceeds_limit a b q one_left room a_new b_new differ = ground (
  arith,
  length-insert_new a.unit.uuid a.unit q.active_packages,
  length-insert_new b.unit.uuid b.unit (insert a.unit.uuid a.unit q.active_packages),
  mem-keys-insert a.unit.uuid b.unit.uuid a.unit q.active_packages,
  eq_iff a.unit.uuid b.unit.uuid,
)
