-- ===== src/Queue/Conservation.antt =====
-- No job is lost on the way through the two queues of a3m/server/queues.py, and those that wait are
-- released in the order of their arrival.
use a3m.Common.{
  ℕ, ◌≡◌, ◌≢◌, refl, sym, ap, ◌∙◌, true, some, List, [], ◌∷◌, ◌++◌, arith, length, eq_refl,
  queue_full, ◌⊎◌, inl, inr,
}
use mathlib.Core.Path.{subst}
use mathlib.Core.List.{Perm, perm_middle, append_assoc, append-nil}
use a3m.Common.Dict.{has, mem-keys-insert}
use a3m.Queue.{
  Package, Job, PackageQueue, Outcome, done, raised, blocked, store_job, put_package_nowait,
  get_package_job_nowait, take_package_job, activate_package, release, queue_next_job,
  start_if_capacity, schedule_job,
}

-- The jobs that wait for a package to complete or have a slot.
abbrev pub held : PackageQueue → List Job
held q = q.job_queue ++ q.queue

activate_package-queues :
    (job : Job) (q : PackageQueue)
    → ((activate_package job.unit q).job_queue ≡ q.job_queue)
      × ((activate_package job.unit q).queue ≡ q.queue)
unfolding activate_package
activate_package-queues job q = ground arith

release_queues :
    (job : Job) (q : PackageQueue)
    → (release (some job) q).0 ≡ done tt
    → ((release (some job) q).1.job_queue ≡ q.job_queue ++ job ∷ [])
      × ((release (some job) q).1.queue ≡ q.queue)
unfolding release
release_queues job q e = ground (arith, activate_package-queues job q)

-- The job that waited longest is the one that gets the slot; the others stay in their order.
released :
    (l : List Job) (q : PackageQueue)
    → q.queue ≡ l
    → (release (take_package_job l q).0 (take_package_job l q).1).0 ≡ done tt
    → held (release (take_package_job l q).0 (take_package_job l q).1).1 ≡ held q
unfolding take_package_job
released [] q p e = unfold release in refl
released (job ∷ rest) q p e =
    let (slots, others) = release_queues job (take_package_job (job ∷ rest) q).1 e in
    ap (λ l. l ++ (release (some job) (take_package_job (job ∷ rest) q).1).1.queue) slots
    ∙ ap (λ l. (q.job_queue ++ job ∷ []) ++ l) others
    ∙ append_assoc q.job_queue (job ∷ []) rest
    ∙ ap (λ l. q.job_queue ++ l) (sym p)

start_if_capacity_raised :
    (n : ℕ) (q : PackageQueue) → (start_if_capacity n (raised queue_full) q).0 ≢ done tt
unfolding start_if_capacity
start_if_capacity_raised n q = ground arith

-- `queue_next_job` keeps the jobs with a slot followed by those that wait.
held-queue_next_job :
    (q : PackageQueue) → (queue_next_job q).0 ≡ done tt → held (queue_next_job q).1 ≡ held q
unfolding queue_next_job get_package_job_nowait
held-queue_next_job q e = released q.queue q refl e

-- Of the jobs that wait, the first is the last with a slot and its package is active, and the others
-- wait on; if none waits the queue is as it was.
abbrev pub IsReleased : List Job → PackageQueue → PackageQueue → Type 0
IsReleased [] before after = after ≡ before
IsReleased (job ∷ rest) before after =
    (after.job_queue ≡ before.job_queue ++ job ∷ [])
    × (after.queue ≡ rest)
    × (has job.unit.uuid after.active_packages ≡ true)

activate_package-active :
    (unit : Package) (q : PackageQueue)
    → has unit.uuid (activate_package unit q).active_packages ≡ true
unfolding activate_package
activate_package-active unit q =
    ground (arith, mem-keys-insert unit.uuid unit.uuid unit q.active_packages, eq_refl unit.uuid)

release_active :
    (job : Job) (q : PackageQueue)
    → has job.unit.uuid (release (some job) q).1.active_packages ≡ true
unfolding release
release_active job q = ground (arith, activate_package-active job.unit q)

release-IsReleased :
    (l : List Job) (q : PackageQueue)
    → (release (take_package_job l q).0 (take_package_job l q).1).0 ≡ done tt
    → IsReleased l q (release (take_package_job l q).0 (take_package_job l q).1).1
unfolding take_package_job
release-IsReleased [] q e = unfold release in refl
release-IsReleased (job ∷ rest) q e =
    let taken = (take_package_job (job ∷ rest) q).1 in
    let (slots, others) = release_queues job taken e in (slots, others, release_active job taken)

-- If `queue_next_job` returns and jobs wait, then the one that waited longest is the last of the job
-- queue, behind the jobs that were there, its package is active, and the others wait in their order. If
-- none waits, the queue is as it was.
pub queue_next_job-IsReleased :
    (q : PackageQueue) → (queue_next_job q).0 ≡ done tt → IsReleased q.queue q (queue_next_job q).1
unfolding queue_next_job get_package_job_nowait
queue_next_job-IsReleased q e = release-IsReleased q.queue q e

start_if_capacity-held :
    (n : ℕ) (o : Outcome Unit) (q : PackageQueue)
    → (start_if_capacity n o q).0 ≡ done tt
    → held (start_if_capacity n o q).1 ≡ held q
unfolding start_if_capacity
start_if_capacity-held n (done _) q e = ground (arith, held-queue_next_job q)
start_if_capacity-held n (raised x) q e = refl
start_if_capacity-held n blocked q e = refl

schedule_job-held :
    (job : Job) (q : PackageQueue)
    → (schedule_job job q).0 ≡ done tt
    → (held (schedule_job job q).1 ≡ (q.job_queue ++ job ∷ []) ++ q.queue)
      ⊎ (held (schedule_job job q).1 ≡ q.job_queue ++ (q.queue ++ job ∷ []))
unfolding schedule_job put_package_nowait
schedule_job-held job q e = ground (
  arith,
  start_if_capacity-held (length q.active_packages) (done tt) (store_job job q),
  start_if_capacity-held (length q.active_packages) (raised queue_full) q,
  start_if_capacity_raised (length q.active_packages) q,
)

-- If `schedule_job` returns, the two queues hold the scheduled job and the jobs that they held before,
-- each as often.
pub schedule_job-perm :
    (job : Job) (q : PackageQueue)
    → (schedule_job job q).0 ≡ done tt
    → Perm (held (schedule_job job q).1) (job ∷ held q)
schedule_job-perm job q e = elim (schedule_job-held job q e) [
  | inl active ↦ rw active (rw append_assoc (perm_middle q.job_queue q.queue))
  | inr new ↦ rw new (
      rw (← append_assoc) (
        subst (λ l. Perm ((q.job_queue ++ q.queue) ++ job ∷ []) (job ∷ l))
          (append-nil (q.job_queue ++ q.queue)) (perm_middle (q.job_queue ++ q.queue) [])))
]
