-- ===== src/Queue/Orderly.antt =====
-- The slots of a3m/server/queues.py: while each package has at most one job on its way, no method
-- finds the job queue full.
use a3m.Common.{
  suc, ◌+◌, ◌≤◌, ◌<◌, String, ◌≡◌, refl, sym, ap, ◌∙◌, true, false, some, List, [], ◌∷◌, ◌++◌,
  arith, length, length-append, mem, Distinct, All, All-append, All-of_mem, Distinct-snoc,
  not-mem_of_All, pigeonhole, eq_iff, eq_refl,
}
use mathlib.Core.List.{append_assoc}
use a3m.Common.Dict.{Dict, keys, has, insert, remove, mem-keys-insert, mem-keys-remove, length-keys}
use a3m.Queue.{
  Package, Job, PackageQueue, done, put_job, activate_package, deactivate_package, release,
}

-- The packages of jobs.
abbrev pub units : List Job → List String
units [] = []
units (job ∷ jobs) = job.unit.uuid ∷ units jobs

pub units-append : (xs ys : List Job) → units (xs ++ ys) ≡ units xs ++ units ys
units-append [] ys = refl
units-append (x ∷ xs) ys = ap (λ l. x.unit.uuid ∷ l) (units-append xs ys)

pub length-units : (xs : List Job) → length (units xs) ≡ length xs
length-units [] = refl
length-units (x ∷ xs) = ap suc (length-units xs)

abbrev pub AllActive : Dict Package → List String → Type 0
AllActive d us = All (λ u. has u d ≡ true) us

abbrev pub NoneActive : Dict Package → List String → Type 0
NoneActive d us = All (λ u. has u d ≡ false) us

-- `on_way` are the packages of the jobs that run. Each active package has at most one job that runs
-- or is in the job queue, and the jobs that wait are of packages that are not active, one each.
pub record IsOrderly (on_way : List String) (q : PackageQueue) : Type 0 where
  pub pending_distinct : Distinct (on_way ++ units q.job_queue)
  pub pending_active : AllActive q.active_packages (on_way ++ units q.job_queue)
  pub waiting_distinct : Distinct (units q.queue)
  pub waiting_inactive : NoneActive q.active_packages (units q.queue)

-- There are no more jobs on their way than active packages.
pub pending-le :
    (on_way : List String) (q : PackageQueue)
    → IsOrderly on_way q
    → length on_way + length q.job_queue ≤ length q.active_packages
pending-le on_way q o = omega (
  arith,
  pigeonhole (on_way ++ units q.job_queue) (keys q.active_packages) o.pending_distinct
      o.pending_active,
  length-append on_way (units q.job_queue),
  length-units q.job_queue,
  length-keys q.active_packages,
)

AllActive-insert :
    (k : String) (p : Package) (d : Dict Package) (us : List String)
    → AllActive d us
    → AllActive (insert k p d) us
AllActive-insert k p d us =
    All-of_mem (λ u. has u d ≡ true) (λ u. has u (insert k p d) ≡ true) us
      (λ u _ h. ground (arith, mem-keys-insert k u p d))

NoneActive-insert :
    (k : String) (p : Package) (d : Dict Package) (us : List String)
    → mem k us ≡ false
    → NoneActive d us
    → NoneActive (insert k p d) us
NoneActive-insert k p d [] absent h = tt
NoneActive-insert k p d (u ∷ us) absent h =
    ground (arith, mem-keys-insert k u p d, eq_iff k u, eq_iff u k, NoneActive-insert k p d us)

AllActive-remove :
    (k : String) (d : Dict Package) (us : List String)
    → mem k us ≡ false
    → AllActive d us
    → AllActive (remove k d) us
AllActive-remove k d [] absent h = tt
AllActive-remove k d (u ∷ us) absent h =
    ground (arith, mem-keys-remove k u d, eq_iff k u, eq_iff u k, AllActive-remove k d us)

NoneActive-remove :
    (k : String) (d : Dict Package) (us : List String)
    → NoneActive d us
    → NoneActive (remove k d) us
NoneActive-remove k d us =
    All-of_mem (λ u. has u d ≡ false) (λ u. has u (remove k d) ≡ false) us
      (λ u _ h. ground (arith, mem-keys-remove k u d))

module _ (on_way : List String) where
  units-snoc :
      (jobs : List Job) (job : Job)
      → on_way ++ units (jobs ++ job ∷ []) ≡ (on_way ++ units jobs) ++ job.unit.uuid ∷ []
  units-snoc jobs job =
      ap (λ l. on_way ++ l) (units-append jobs (job ∷ []))
      ∙ sym (append_assoc on_way (units jobs) (job.unit.uuid ∷ []))

  pub put_job-IsOrderly :
      (job : Job) (q : PackageQueue)
      → IsOrderly on_way q
      → has job.unit.uuid q.active_packages ≡ true
      → mem job.unit.uuid (on_way ++ units q.job_queue) ≡ false
      → IsOrderly on_way (put_job job q)
  put_job-IsOrderly job q o h absent = record {
    pending_distinct =
        rw (units-snoc q.job_queue job)
          (Distinct-snoc (on_way ++ units q.job_queue) job.unit.uuid o.pending_distinct absent);
    pending_active = rw (units-snoc q.job_queue job) (
        All-append (λ u. has u q.active_packages ≡ true) (on_way ++ units q.job_queue)
          (job.unit.uuid ∷ []) o.pending_active (h, tt));
    waiting_distinct = o.waiting_distinct;
    waiting_inactive = o.waiting_inactive;
  }

  pub activate_package-IsOrderly :
      (p : Package) (q : PackageQueue)
      → IsOrderly on_way q
      → mem p.uuid (units q.queue) ≡ false
      → IsOrderly on_way (activate_package p q)
  unfolding activate_package
  activate_package-IsOrderly p q o absent = ground (
    arith,
    AllActive-insert p.uuid p q.active_packages (on_way ++ units q.job_queue),
    NoneActive-insert p.uuid p q.active_packages (units q.queue),
  )

  pub deactivate_package-IsOrderly :
      (p : Package) (q : PackageQueue)
      → IsOrderly on_way q
      → mem p.uuid (on_way ++ units q.job_queue) ≡ false
      → IsOrderly on_way (deactivate_package p q)
  unfolding deactivate_package
  deactivate_package-IsOrderly p q o absent = ground (
    arith,
    AllActive-remove p.uuid q.active_packages (on_way ++ units q.job_queue),
    NoneActive-remove p.uuid q.active_packages (units q.queue),
  )

-- What activation leaves alone, and that it activates.
activate_package_facts :
    (p : Package) (q : PackageQueue)
    → (has p.uuid (activate_package p q).active_packages ≡ true)
      × ((activate_package p q).job_queue ≡ q.job_queue)
      × ((activate_package p q).max_concurrent_packages ≡ q.max_concurrent_packages)
unfolding activate_package
activate_package_facts p q =
    ground (arith, mem-keys-insert p.uuid p.uuid p q.active_packages, eq_refl p.uuid)

-- A job of a new package is released: its package becomes active and it gets a slot.
module _ (on_way : List String) (job : Job) (q : PackageQueue) (o : IsOrderly on_way q)
    (inactive : has job.unit.uuid q.active_packages ≡ false)
    (absent : mem job.unit.uuid (units q.queue) ≡ false)
    (room : length q.active_packages < q.max_concurrent_packages) where
  not_pending : mem job.unit.uuid (on_way ++ units q.job_queue) ≡ false
  not_pending =
      not-mem_of_All (λ u. has u q.active_packages) true job.unit.uuid (on_way ++ units q.job_queue)
        o.pending_active inactive

  pub release-done : (release (some job) q).0 ≡ done tt
  unfolding release
  release-done = ground (arith, activate_package_facts job.unit q, pending-le on_way q o)

  pub release-IsOrderly : IsOrderly on_way (release (some job) q).1
  unfolding release
  release-IsOrderly = ground (
    arith,
    activate_package_facts job.unit q,
    pending-le on_way q o,
    put_job-IsOrderly on_way job (activate_package job.unit q),
    activate_package-IsOrderly on_way job.unit q o absent,
    not_pending,
  )
