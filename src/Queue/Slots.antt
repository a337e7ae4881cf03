-- ===== src/Queue/Slots.antt =====
-- `schedule_job`, `queue_next_job` and the callbacks of a3m/server/queues.py on an orderly queue: no
-- call waits for a slot or finds the job queue full.
use a3m.Common.{
  ℕ, ◌+◌, ◌≤◌, ◌<◌, String, ◌≡◌, refl, ◌⊎◌, inl, inr, true, false, none, List, [], ◌∷◌, ◌++◌, arith,
  length, mem, Distinct, All, All-append, Distinct-snoc, ok, Exception, runtime_error, queue_full,
  Bool-cases,
}
use native.Mathlib.Nat.{le_refl}
use a3m.Common.Dict.{has}
use a3m.Queue.{
  Package, Job, Gauge, PackageQueue, Outcome, done, raised, blocked, is_full, store_job,
  put_package_nowait, get_package_job_nowait, take_package_job, deactivate_package, release,
  queue_next_job, start_if_capacity, schedule_job, package_completed_callback,
}
use a3m.Queue.Valid.{IsValid, deactivate_package_room}
use a3m.Queue.Orderly.{
  units, units-append, IsOrderly, put_job-IsOrderly, deactivate_package-IsOrderly, release-done,
  release-IsOrderly,
}

schedule_new-cases :
    (job : Job) (q : PackageQueue)
    → has job.unit.uuid q.active_packages ≡ false
    → ((e : Exception) × (schedule_job job q ≡ (raised e, q)))
      ⊎ (schedule_job job q
          ≡ start_if_capacity (length q.active_packages) (done tt) (store_job job q))
unfolding schedule_job put_package_nowait
schedule_new-cases job q inactive = elim (Bool-cases q.shutdown_event) [
  | inl stopped ↦ inl (runtime_error, ground arith)
  | inr open_ ↦ elim (Bool-cases (is_full q.max_queued_packages (length q.queue))) [
    | inl full ↦ inl (queue_full, unfold start_if_capacity in ground arith)
    | inr free ↦ inr (ground arith)
  ]
]

module _ (on_way : List String) where
  -- The call came through.
  abbrev pub GoesWell : Outcome Unit × PackageQueue → Type 0
  GoesWell r = IsOrderly on_way r.1 × (r.0 ≡ done tt)

  release_taken :
      (l : List Job) (q : PackageQueue)
      → q.queue ≡ l
      → IsOrderly on_way q
      → length q.active_packages < q.max_concurrent_packages
      → GoesWell (release (take_package_job l q).0 (take_package_job l q).1)
  unfolding take_package_job release
  release_taken [] q e o room = (o, refl)
  release_taken (job ∷ rest) q e o room =
      let distinct : Distinct (units (job ∷ rest)) = rw e at o.waiting_distinct in
      let inactive : All (λ u. has u q.active_packages ≡ false) (units (job ∷ rest)) =
        rw e at o.waiting_inactive in
      let taken = (take_package_job (job ∷ rest) q).1 in
      let o' : IsOrderly on_way taken = record {
        pending_distinct = o.pending_distinct;
        pending_active = o.pending_active;
        waiting_distinct = distinct.1;
        waiting_inactive = inactive.1;
      } in
      (
        release-IsOrderly on_way job taken o' inactive.0 distinct.0 room,
        release-done on_way job taken o' inactive.0 distinct.0 room,
      )

  pub queue_next_job-IsOrderly :
      (q : PackageQueue)
      → IsOrderly on_way q
      → length q.active_packages < q.max_concurrent_packages
      → GoesWell (queue_next_job q)
  unfolding queue_next_job get_package_job_nowait
  queue_next_job-IsOrderly q o room = release_taken q.queue q refl o room

  pub schedule_active-IsOrderly :
      (job : Job) (q : PackageQueue)
      → IsOrderly on_way q
      → IsValid q
      → q.shutdown_event ≡ false
      → has job.unit.uuid q.active_packages ≡ true
      → mem job.unit.uuid (on_way ++ units q.job_queue) ≡ false
      → length on_way + length q.job_queue < length q.active_packages
      → GoesWell (schedule_job job q)
  unfolding schedule_job
  schedule_active-IsOrderly job q o v open_ active absent fewer =
      ground (arith, put_job-IsOrderly on_way job q o active absent)

  -- A job of an active package is put into the job queue.
  pub schedule_active_slot :
      (job : Job) (q : PackageQueue)
      → q.shutdown_event ≡ false
      → has job.unit.uuid q.active_packages ≡ true
      → (schedule_job job q).0 ≡ done tt
      → ((schedule_job job q).1.job_queue ≡ q.job_queue ++ job ∷ [])
        × ((schedule_job job q).1.queue ≡ q.queue)
  unfolding schedule_job
  schedule_active_slot job q open_ active e = (ground arith, ground arith)

  store_job-IsOrderly :
      (job : Job) (q : PackageQueue)
      → IsOrderly on_way q
      → has job.unit.uuid q.active_packages ≡ false
      → mem job.unit.uuid (units q.queue) ≡ false
      → IsOrderly on_way (store_job job q)
  store_job-IsOrderly job q o inactive absent = record {
    pending_distinct = o.pending_distinct;
    pending_active = o.pending_active;
    waiting_distinct =
        rw (units-append q.queue (job ∷ []))
          (Distinct-snoc (units q.queue) job.unit.uuid o.waiting_distinct absent);
    waiting_inactive = rw (units-append q.queue (job ∷ [])) (
        All-append (λ u. has u q.active_packages ≡ false) (units q.queue) (job.unit.uuid ∷ [])
          o.waiting_inactive (inactive, tt));
  }

  start_if_capacity-IsOrderly :
      (n : ℕ) (o : Outcome Unit) (q : PackageQueue)
      → o ≡ done tt
      → length q.active_packages ≤ n
      → IsOrderly on_way q
      → GoesWell (start_if_capacity n o q)
  unfolding start_if_capacity
  start_if_capacity-IsOrderly n (done _) q e le o = ground (arith, queue_next_job-IsOrderly q o)
  start_if_capacity-IsOrderly n (raised x) q e le o = cc
  start_if_capacity-IsOrderly n blocked q e le o = cc

  -- A job of a new package comes through, or it is refused and the queue is as it was.
  pub schedule_new-IsOrderly :
      (job : Job) (q : PackageQueue)
      → IsOrderly on_way q
      → has job.unit.uuid q.active_packages ≡ false
      → mem job.unit.uuid (units q.queue) ≡ false
      → GoesWell (schedule_job job q) ⊎ ((e : Exception) × (schedule_job job q ≡ (raised e, q)))
  schedule_new-IsOrderly job q o inactive absent = elim (schedule_new-cases job q inactive) [
    | inl refused ↦ inr refused
    | inr e ↦ inl (
        rw e (
          start_if_capacity-IsOrderly (length q.active_packages) (done tt) (store_job job q) refl
            (le_refl _) (store_job-IsOrderly job q o inactive absent)))
  ]

  pub settled-IsOrderly :
      (q : PackageQueue) (g : Gauge)
      → IsOrderly on_way q
      → IsOrderly on_way (record q { active_jobs_gauge = g })
  settled-IsOrderly q g o = ground arith

  -- The package of the completed job leaves its place to the one that waits longest.
  pub package_completed-IsOrderly :
      (p : Package) (q : PackageQueue)
      → IsOrderly on_way q
      → IsValid q
      → has p.uuid q.active_packages ≡ true
      → mem p.uuid (on_way ++ units q.job_queue) ≡ false
      → GoesWell (package_completed_callback p (ok none) q)
  unfolding package_completed_callback
  package_completed-IsOrderly p q o v active absent =
      queue_next_job-IsOrderly (deactivate_package p q)
        (deactivate_package-IsOrderly on_way p q o absent) (deactivate_package_room p q v active)
