-- ===== src/Queue/System.antt =====
-- The life of the queue of a3m/server/queues.py: packages arrive, the processing loop submits jobs,
-- and submitted jobs complete, in any order. The methods are called from several threads; here the
-- calls do not overlap: each is a step from its begin to its end, and the first job of a package is
-- scheduled once. Race has two calls of `schedule_job` that overlap, where the limit fails.
use a3m.Common.{
  ℕ, ◌+◌, ◌<◌, String, ◌≡◌, sym, ap, ◌∙◌, inl, inr, true, false, none, some, Option, List, [], ◌∷◌,
  ◌++◌, arith, length, length-append, mem, Distinct, All, Distinct-middle, All-middle, ok, raise,
  Exception, Bool-cases,
}
use mathlib.Core.Path.{subst}
use mathlib.Core.List.{append_assoc}
use a3m.Common.Dict.{has}
use a3m.Queue.{
  Job, PackageQueue, Outcome, done, raised, blocked, schedule_job, process_one_job, Future, dec,
  job_completed_callback, package_completed_callback, complete_package, complete_job, stop, init,
}
use a3m.Queue.Valid.{IsValid, job_completed_callback-IsValid, package_completed_callback-IsValid}
use a3m.Queue.Orderly.{units, units-append, length-units, IsOrderly, pending-le}
use a3m.Queue.Slots.{
  GoesWell, schedule_active-IsOrderly, schedule_active_slot, package_completed-IsOrderly,
  settled-IsOrderly,
}

-- The queue, and the jobs that the executor runs.
pub record System : Type 0 where
  pub queue : PackageQueue
  pub running : List Job

-- What `Job.run` may return: its chain makes the jobs of one package only.
abbrev pub Continues : Job → Future → Type 0
Continues job (ok (some next)) = next.unit.uuid ≡ job.unit.uuid
Continues job _ = Unit

abbrev pub launched : Option Job → List Job
launched none = []
launched (some job) = job ∷ []

pub data Step (s t : System) : Type 0 where
  -- a package that is neither active nor waiting has its first job scheduled
  submit :
      (job : Job)
      → has job.unit.uuid s.queue.active_packages ≡ false
      → mem job.unit.uuid (units s.queue.queue) ≡ false
      → t ≡ record { queue = (schedule_job job s.queue).1; running = s.running }
      → Step s t
  dispatch :
      t ≡ record {
        queue = (process_one_job s.queue).1;
        running = s.running ++ launched (process_one_job s.queue).0;
      }
      → Step s t
  complete :
      (front : List Job) (job : Job) (back : List Job) (future : Future)
      → s.running ≡ front ++ job ∷ back
      → Continues job future
      → t ≡ record { queue = complete_job job future s.queue; running = front ++ back }
      → Step s t
  shut_down : t ≡ record { queue = stop s.queue; running = s.running } → Step s t

pub data Reach (s : System) : System → Type 0 where
  here : Reach s s
  next : {t u : System} → Reach s t → Step t u → Reach s u

abbrev pub start : ℕ → ℕ → System
start max_concurrent max_queued = record { queue = init max_concurrent max_queued; running = [] }

pub record IsSafe (s : System) : Type 0 where
  pub valid : IsValid s.queue
  pub orderly : IsOrderly (units s.running) s.queue

-- A job that runs, seen from the others: they are orderly without it, and its package has no other job.
pub record IsApart (on_way : List String) (job : Job) (q : PackageQueue) : Type 0 where
  pub others : IsOrderly on_way q
  pub active : has job.unit.uuid q.active_packages ≡ true
  pub absent : mem job.unit.uuid (on_way ++ units q.job_queue) ≡ false
  pub fewer : length on_way + length q.job_queue < length q.active_packages

pub apart :
    (front : List Job) (job : Job) (back : List Job) (q : PackageQueue)
    → IsOrderly (units (front ++ job ∷ back)) q
    → IsApart (units (front ++ back)) job q
apart front job back q o =
    let jobs = units q.job_queue in
    let u = job.unit.uuid in
    let split : units (front ++ job ∷ back) ++ jobs ≡ units front ++ u ∷ (units back ++ jobs) =
      ap (λ l. l ++ jobs) (units-append front (job ∷ back))
      ∙ append_assoc (units front) (u ∷ units back) jobs in
    let join : units front ++ (units back ++ jobs) ≡ units (front ++ back) ++ jobs =
      sym (append_assoc (units front) (units back) jobs)
      ∙ ap (λ l. l ++ jobs) (sym (units-append front back)) in
    let (distinct, absent) =
      Distinct-middle (units front) u (units back ++ jobs)
        (subst Distinct split o.pending_distinct) in
    let (active, others) =
      All-middle (λ x. has x q.active_packages ≡ true) (units front) u (units back ++ jobs)
        (subst (All (λ x. has x q.active_packages ≡ true)) split o.pending_active) in
    record {
      others = record {
        pending_distinct = subst Distinct join distinct;
        pending_active = subst (All (λ x. has x q.active_packages ≡ true)) join others;
        waiting_distinct = o.waiting_distinct;
        waiting_inactive = o.waiting_inactive;
      };
      active = active;
      absent = subst (λ l. mem u l ≡ false) join absent;
      fewer = omega (
        arith,
        pending-le (units (front ++ job ∷ back)) q o,
        length-units (front ++ job ∷ back),
        length-units (front ++ back),
        length-append front (job ∷ back),
        length-append front back,
      );
    }

-- Only a job that returned `None` lets the second callback change the queue.
complete_package-some :
    (job next_job : Job) (o : Outcome Unit) (q : PackageQueue)
    → complete_package job (ok (some next_job)) o q ≡ q
unfolding complete_package package_completed_callback
complete_package-some job next_job (done _) q = ground arith
complete_package-some job next_job (raised e) q = ground arith
complete_package-some job next_job blocked q = ground arith

complete_package-raise :
    (job : Job) (e : Exception) (o : Outcome Unit) (q : PackageQueue)
    → complete_package job (raise e) o q ≡ q
unfolding complete_package package_completed_callback
complete_package-raise job e (done _) q = ground arith
complete_package-raise job e (raised x) q = ground arith
complete_package-raise job e blocked q = ground arith

-- A next job of a package that has no other job on its way gets its slot.
pub next_job_slot :
    (on_way : List String) (job next_job : Job) (q : PackageQueue)
    → IsApart on_way job q
    → IsValid q
    → q.shutdown_event ≡ false
    → next_job.unit.uuid ≡ job.unit.uuid
    → GoesWell on_way (job_completed_callback (ok (some next_job)) q)
      × ((job_completed_callback (ok (some next_job)) q).1.job_queue ≡ q.job_queue ++ next_job ∷ [])
      × ((job_completed_callback (ok (some next_job)) q).1.queue ≡ q.queue)
unfolding job_completed_callback
next_job_slot on_way job next_job q a v open_ same =
    let settled = record q { active_jobs_gauge = dec q.active_jobs_gauge } in
    let active : has next_job.unit.uuid q.active_packages ≡ true = rw same a.active in
    let well =
      schedule_active-IsOrderly on_way next_job settled (settled-IsOrderly on_way q _ a.others)
        (ground arith) open_ active (rw same a.absent) a.fewer in
    let (slot, same_waiting) = schedule_active_slot on_way next_job settled open_ active well.1 in
    (well, slot, same_waiting)

-- After the shutdown the next job is refused.
schedule_job-shutdown :
    (job : Job) (q : PackageQueue) → q.shutdown_event ≡ true → (schedule_job job q).1 ≡ q
unfolding schedule_job
schedule_job-shutdown job q stopped = ground arith

pub complete_job-IsOrderly :
    (on_way : List String) (job : Job) (future : Future) (q : PackageQueue)
    → IsApart on_way job q
    → IsValid q
    → Continues job future
    → IsOrderly on_way (complete_job job future q)
unfolding complete_job
complete_job-IsOrderly on_way job (ok none) q a v c =
    let settled = record q { active_jobs_gauge = dec q.active_jobs_gauge } in
    let o = settled-IsOrderly on_way q (dec q.active_jobs_gauge) a.others in
    unfold complete_package job_completed_callback in
    ground (
      arith,
      package_completed-IsOrderly on_way job.unit settled o (ground arith) a.active a.absent,
    )
complete_job-IsOrderly on_way job (ok (some next_job)) q a v c =
    rw complete_package-some (elim (Bool-cases q.shutdown_event) [
      | inl stopped ↦
          unfold job_completed_callback in
          rw schedule_job-shutdown (settled-IsOrderly on_way q (dec q.active_jobs_gauge) a.others)
      | inr open_ ↦ (next_job_slot on_way job next_job q a v open_ c).0.0
    ])
complete_job-IsOrderly on_way job (raise e) q a v c =
    rw complete_package-raise (
      unfold job_completed_callback in
      settled-IsOrderly on_way q (dec q.active_jobs_gauge) a.others)

pub complete_job-IsValid :
    (job : Job) (future : Future) (q : PackageQueue)
    → has job.unit.uuid q.active_packages ≡ true
    → IsValid q
    → IsValid (complete_job job future q)
unfolding complete_job
complete_job-IsValid job (ok none) q active v =
    let settled = record q { active_jobs_gauge = dec q.active_jobs_gauge } in
    unfold complete_package job_completed_callback in
    ground
      (arith, package_completed_callback-IsValid job.unit (ok none) settled active (ground arith))
complete_job-IsValid job (ok (some next_job)) q active v =
    rw complete_package-some (job_completed_callback-IsValid (ok (some next_job)) q v)
complete_job-IsValid job (raise e) q active v =
    rw complete_package-raise (job_completed_callback-IsValid (raise e) q v)
