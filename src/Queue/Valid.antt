-- ===== src/Queue/Valid.antt =====
-- The limits of a3m/server/queues.py and what its gauges show: one lemma for each method.
use a3m.Common.{
  ℕ, List, ap, ◌+◌, ◌≤◌, ◌<◌, ◌≡◌, refl, true, none, some, [], ◌∷◌, arith, length, length-append,
  Distinct, ok, raise,
}
use a3m.Common.Dict.{keys, has, Distinct-insert, Distinct-remove, length-insert_new, length-remove}
use a3m.Queue.{
  Package, Job, Gauge, PackageQueue, Outcome, done, raised, blocked, put_job, put_package_nowait,
  get_package_job_nowait, take_package_job, activate_package, deactivate_package, release,
  queue_next_job, start_if_capacity, schedule_job, take_job, process_one_job, Future,
  job_completed_callback, package_completed_callback,
}

-- A gauge shows `n`.
abbrev pub Shows : Gauge → ℕ → Type 0
Shows g n = g.incs ≡ g.decs + n

-- The limits hold and the gauges show the sizes.
pub record IsValid (q : PackageQueue) : Type 0 where
  pub positive : 0 < q.max_concurrent_packages
  pub active_limit : length q.active_packages ≤ q.max_concurrent_packages
  pub distinct : Distinct (keys q.active_packages)
  pub job_limit : length q.job_queue ≤ q.max_concurrent_packages
  pub queue_limit : (0 < q.max_queued_packages) × (length q.queue ≤ q.max_queued_packages)
  pub jobs_shown : Shows q.job_queue_length_gauge (length q.job_queue)
  pub queue_shown : Shows q.package_queue_length_gauge (length q.queue)
  pub active_shown : Shows q.active_package_gauge (length q.active_packages)

pub activate_package-IsValid :
    (p : Package) (q : PackageQueue)
    → IsValid q
    → length q.active_packages < q.max_concurrent_packages
    → IsValid (activate_package p q)
unfolding activate_package
activate_package-IsValid p q v room = ground (
  arith,
  length-insert_new p.uuid p q.active_packages,
  Distinct-insert p.uuid p q.active_packages,
)

pub deactivate_package-IsValid :
    (p : Package) (q : PackageQueue) → IsValid q → IsValid (deactivate_package p q)
unfolding deactivate_package
deactivate_package-IsValid p q v =
    ground (arith, length-remove p.uuid q.active_packages, Distinct-remove p.uuid q.active_packages)

-- Deactivating an active package leaves room for another.
pub deactivate_package_room :
    (p : Package) (q : PackageQueue)
    → IsValid q
    → has p.uuid q.active_packages ≡ true
    → length (deactivate_package p q).active_packages
      < (deactivate_package p q).max_concurrent_packages
unfolding deactivate_package
deactivate_package_room p q v h = ground (arith, length-remove p.uuid q.active_packages)

put_job-IsValid :
    (job : Job) (q : PackageQueue)
    → IsValid q
    → length q.job_queue < q.max_concurrent_packages
    → IsValid (put_job job q)
put_job-IsValid job q v room = ground (arith, length-append q.job_queue (job ∷ []))

release-IsValid :
    (job : Job) (q : PackageQueue)
    → IsValid q
    → length q.active_packages < q.max_concurrent_packages
    → IsValid (release (some job) q).1
unfolding release
release-IsValid job q v room =
    ground (
      arith,
      activate_package-IsValid job.unit q,
      put_job-IsValid job (activate_package job.unit q),
    )

-- What `_get_package_job_nowait` leaves, at the list that it reads.
take_package_job-IsValid :
    (l : List Job) (q : PackageQueue) → q.queue ≡ l → IsValid q → IsValid (take_package_job l q).1
unfolding take_package_job
take_package_job-IsValid [] q e v = v
take_package_job-IsValid (job ∷ rest) q e v = ground (arith, ap length e)

release_taken :
    (l : List Job) (q : PackageQueue)
    → IsValid (take_package_job l q).1
    → length q.active_packages < q.max_concurrent_packages
    → IsValid (release (take_package_job l q).0 (take_package_job l q).1).1
unfolding take_package_job release
release_taken [] q v room = v
release_taken (job ∷ rest) q v room = release-IsValid job (take_package_job (job ∷ rest) q).1 v room

-- With room for a package, `queue_next_job` keeps the limits, also where it raises.
pub queue_next_job-IsValid :
    (q : PackageQueue)
    → IsValid q
    → length q.active_packages < q.max_concurrent_packages
    → IsValid (queue_next_job q).1
unfolding queue_next_job get_package_job_nowait
queue_next_job-IsValid q v room =
    release_taken q.queue q (take_package_job-IsValid q.queue q refl v) room

put_package_nowait-IsValid :
    (job : Job) (q : PackageQueue) → IsValid q → IsValid (put_package_nowait job q).1
unfolding put_package_nowait
put_package_nowait-IsValid job q v = ground (arith, length-append q.queue (job ∷ []))

active-put_package_nowait :
    (job : Job) (q : PackageQueue)
    → ((put_package_nowait job q).1.active_packages ≡ q.active_packages)
      × ((put_package_nowait job q).1.max_concurrent_packages ≡ q.max_concurrent_packages)
unfolding put_package_nowait
active-put_package_nowait job q = ground arith

start_if_capacity-IsValid :
    (n : ℕ) (o : Outcome Unit) (q : PackageQueue)
    → length q.active_packages ≤ n
    → IsValid q
    → IsValid (start_if_capacity n o q).1
unfolding start_if_capacity
start_if_capacity-IsValid n (done _) q h v = ground (arith, queue_next_job-IsValid q)
start_if_capacity-IsValid n (raised e) q h v = v
start_if_capacity-IsValid n blocked q h v = v

-- `schedule_job`, run alone, keeps every limit and every gauge, whether it returns, raises or waits:
-- at most `max_concurrent_packages` packages are active after it.
pub schedule_job-IsValid :
    (job : Job) (q : PackageQueue) → IsValid q → IsValid (schedule_job job q).1
unfolding schedule_job
schedule_job-IsValid job q v = ground (
  arith,
  put_job-IsValid job q,
  start_if_capacity-IsValid (length q.active_packages) (put_package_nowait job q).0
      (put_package_nowait job q).1,
  put_package_nowait-IsValid job q v,
  active-put_package_nowait job q,
)

take_job-IsValid :
    (l : List Job) (q : PackageQueue) → q.job_queue ≡ l → IsValid q → IsValid (take_job l q).1
unfolding take_job
take_job-IsValid [] q e v = v
take_job-IsValid (job ∷ rest) q e v = ground (arith, ap length e)

pub process_one_job-IsValid : (q : PackageQueue) → IsValid q → IsValid (process_one_job q).1
unfolding process_one_job
process_one_job-IsValid q v = take_job-IsValid q.job_queue q refl v

settled-IsValid :
    (q : PackageQueue) (g : Gauge) → IsValid q → IsValid (record q { active_jobs_gauge = g })
settled-IsValid q g v = ground arith

pub job_completed_callback-IsValid :
    (future : Future) (q : PackageQueue) → IsValid q → IsValid (job_completed_callback future q).1
unfolding job_completed_callback
job_completed_callback-IsValid (ok none) q v = settled-IsValid q _ v
job_completed_callback-IsValid (ok (some next)) q v =
    schedule_job-IsValid next _ (settled-IsValid q _ v)
job_completed_callback-IsValid (raise e) q v = settled-IsValid q _ v

pub package_completed_callback-IsValid :
    (p : Package) (future : Future) (q : PackageQueue)
    → has p.uuid q.active_packages ≡ true
    → IsValid q
    → IsValid (package_completed_callback p future q).1
unfolding package_completed_callback
package_completed_callback-IsValid p (ok none) q h v =
    queue_next_job-IsValid (deactivate_package p q) (deactivate_package-IsValid p q v)
      (deactivate_package_room p q v h)
package_completed_callback-IsValid p (ok (some next)) q h v = v
package_completed_callback-IsValid p (raise e) q h v = v
