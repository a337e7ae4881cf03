-- ===== src/Queue/Histories.antt =====
-- What holds of the queue of a3m/server/queues.py in every history of calls (System).
use a3m.Common.{
  ℕ, ◌<◌, String, ◌≡◌, refl, sym, ap, ◌∙◌, ◌⊎◌, inl, inr, true, false, some, List, [], ◌∷◌, ◌++◌,
  arith, Distinct, All, ok, Exception,
}
use mathlib.Core.Path.{subst}
use mathlib.Core.List.{append_assoc, append-nil}
use a3m.Common.Dict.{has}
use a3m.Queue.{
  Job, PackageQueue, done, raised, schedule_job, take_job, process_one_job, job_completed_callback,
  stop,
}
use a3m.Queue.Valid.{IsValid, schedule_job-IsValid, process_one_job-IsValid}
use a3m.Queue.Orderly.{units, units-append, IsOrderly}
use a3m.Queue.Slots.{GoesWell, schedule_new-IsOrderly}
use a3m.Queue.System.{
  System, launched, Step, submit, dispatch, complete, shut_down, Reach, here, next, start, IsSafe,
  apart, next_job_slot, complete_job-IsOrderly, complete_job-IsValid,
}

schedule_new-kept :
    (on_way : List String) (job : Job) (q : PackageQueue)
    → IsOrderly on_way q
    → GoesWell on_way (schedule_job job q)
      ⊎ ((e : Exception) × (schedule_job job q ≡ (raised e, q)))
    → IsOrderly on_way (schedule_job job q).1
schedule_new-kept on_way job q o (inl well) = well.0
schedule_new-kept on_way job q o (inr (e, p)) = rw p o

-- The job that the processing loop takes goes from the job queue to those that run.
take_job-IsOrderly :
    (running l : List Job) (q : PackageQueue)
    → q.job_queue ≡ l
    → IsOrderly (units running) q
    → IsOrderly (units (running ++ launched (take_job l q).0)) (take_job l q).1
unfolding take_job
take_job-IsOrderly running [] q e o = rw append-nil o
take_job-IsOrderly running (job ∷ rest) q e o =
    let moved : units running ++ units q.job_queue ≡ units (running ++ job ∷ []) ++ units rest =
      ap (λ l. units running ++ units l) e
      ∙ sym (append_assoc (units running) (job.unit.uuid ∷ []) (units rest))
      ∙ ap (λ l. l ++ units rest) (sym (units-append running (job ∷ []))) in
    record {
      pending_distinct = subst Distinct moved o.pending_distinct;
      pending_active = subst (All (λ u. has u q.active_packages ≡ true)) moved o.pending_active;
      waiting_distinct = o.waiting_distinct;
      waiting_inactive = o.waiting_inactive;
    }

Step-IsSafe : {s t : System} → Step s t → IsSafe s → IsSafe t
unfolding process_one_job stop
Step-IsSafe {s} (submit job inactive absent e) h = rw e (record {
  valid = schedule_job-IsValid job s.queue h.valid;
  orderly =
      schedule_new-kept (units s.running) job s.queue h.orderly
        (schedule_new-IsOrderly (units s.running) job s.queue h.orderly inactive absent);
})
Step-IsSafe {s} (dispatch e) h = rw e (record {
  valid = process_one_job-IsValid s.queue h.valid;
  orderly = take_job-IsOrderly s.running s.queue.job_queue s.queue refl h.orderly;
})
Step-IsSafe {s} (complete front job back future split c e) h =
    let a = apart front job back s.queue (rw split at h.orderly) in
    rw e (record {
      valid = complete_job-IsValid job future s.queue a.active h.valid;
      orderly = complete_job-IsOrderly (units (front ++ back)) job future s.queue a h.valid c;
    })
Step-IsSafe (shut_down e) h = rw e (record { valid = ground arith; orderly = ground arith })

start-IsSafe : (n m : ℕ) → 0 < n → 0 < m → IsSafe (start n m)
start-IsSafe n m hn hm = record { valid = ground arith; orderly = ground arith }

pub Reach-IsSafe : {n m : ℕ} {s : System} → 0 < n → 0 < m → Reach (start n m) s → IsSafe s
Reach-IsSafe {n} {m} hn hm here = start-IsSafe n m hn hm
Reach-IsSafe hn hm (next r st) = Step-IsSafe st (Reach-IsSafe hn hm r)

-- In every history of calls that do not overlap, from the empty queue, with limits above 0 and each
-- package submitted only while it is neither active nor waiting, the queue stays within its limits: at most `max_concurrent_packages` packages are active and no more jobs have a slot, at most
-- `max_queued_packages` jobs wait, and the three gauges of queue lengths show the true sizes.
pub history-IsValid : {n m : ℕ} {s : System} → 0 < n → 0 < m → Reach (start n m) s → IsValid s.queue
history-IsValid hn hm r = (Reach-IsSafe hn hm r).valid

-- In every history of calls that do not overlap, when a job that runs completes with a next job of its
-- package, before the shutdown, the callback returns, it neither waits nor raises, and that next job is
-- then the last in the job queue, behind the jobs that were there; the jobs that wait are the same.
pub history_next_job :
    {n m : ℕ} {s : System} (front : List Job) (job : Job) (back : List Job) (next_job : Job)
    → 0 < n
    → 0 < m
    → Reach (start n m) s
    → s.running ≡ front ++ job ∷ back
    → next_job.unit.uuid ≡ job.unit.uuid
    → s.queue.shutdown_event ≡ false
    → let (outcome, after) = job_completed_callback (ok (some next_job)) s.queue in
      (outcome ≡ done tt)
      × (after.job_queue ≡ s.queue.job_queue ++ next_job ∷ [])
      × (after.queue ≡ s.queue.queue)
history_next_job {s = s} front job back next_job hn hm r split same open_ =
    let h = Reach-IsSafe hn hm r in
    let (well, slot, waiting) =
      next_job_slot (units (front ++ back)) job next_job s.queue
        (apart front job back s.queue (rw split at h.orderly)) h.valid open_ same in
    (well.1, slot, waiting)

-- In every history of calls that do not overlap, each active package has at most one job that runs or has a slot, a package with
-- such a job is active, and the jobs that wait are of packages that are not active, one job each.
pub history-IsOrderly :
    {n m : ℕ} {s : System}
    → 0 < n
    → 0 < m
    → Reach (start n m) s
    → IsOrderly (units s.running) s.queue
history-IsOrderly hn hm r = (Reach-IsSafe hn hm r).orderly
