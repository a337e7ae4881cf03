-- ===== src/Queue/Tests.antt =====
-- Small runs of the queue of a3m/server/queues.py, and the theorems about it at concrete inputs.
use a3m.Common.{
  ◌++◌, ◌≡◌, ◌≢◌, refl, true, false, some, [], ◌∷◌, arith, length, ok, queue_full, String, eq_iff,
}
use mathlib.Core.List.{Perm}
use a3m.Common.Dict.{insert}
use a3m.Queue.{
  Package, Job, PackageQueue, done, raised, init, is_package_active, text, schedule_job,
  put_package_nowait, start_if_capacity, get_package_job_nowait, release, queue_next_job,
  process_one_job, complete_job, job_completed_callback, activate_package,
}
use a3m.Queue.Valid.{IsValid}
use a3m.Queue.Orderly.{IsOrderly}
use a3m.Queue.System.{System, submit, dispatch, Reach, here, next, start}
use a3m.Queue.Histories.{history-IsValid, history_next_job, history-IsOrderly}
use a3m.Queue.Conservation.{held, IsReleased, queue_next_job-IsReleased, schedule_job-perm}
use a3m.Queue.Race.{run_two, race, together, idle, race_exceeds_limit}

abbrev package_a : Package
package_a = record { uuid = "a" }

abbrev package_b : Package
package_b = record { uuid = "b" }

abbrev job_a : Job
job_a = record { uuid = "1"; unit = package_a; link_id = "x"; is_terminal = false }

abbrev job_a' : Job
job_a' = record { uuid = "2"; unit = package_a; link_id = "y"; is_terminal = true }

abbrev job_b : Job
job_b = record { uuid = "3"; unit = package_b; link_id = "x"; is_terminal = false }

-- One package may be active.
abbrev empty : PackageQueue
empty = init 1 2

abbrev with_a : PackageQueue
with_a = (schedule_job job_a empty).1

abbrev with_both : PackageQueue
with_both = (schedule_job job_b with_a).1

program : Unit {0}
unfolding schedule_job put_package_nowait start_if_capacity queue_next_job get_package_job_nowait
    release activate_package insert process_one_job complete_job job_completed_callback
    is_package_active
program = tt

-- The second package waits.
with_both_held : (with_both.job_queue ≡ job_a ∷ []) × (with_both.queue ≡ job_b ∷ [])
unfolding program
with_both_held = (refl, refl)

-- The waiting job is taken and then has no slot: it is in neither list after the error.
queue_next_job_raises_full :
    ((queue_next_job with_both).0 ≡ raised queue_full)
    × (held (queue_next_job with_both).1 ≡ job_a ∷ [])
unfolding program
queue_next_job_raises_full = (refl, refl)

-- The package is active, and the method does not find it.
is_package_active_test :
    is_package_active (λ s. some s) (text "a") (activate_package package_a empty) ≡ ok false
unfolding program
is_package_active_test = refl

abbrev running_a : System
running_a = record { queue = (process_one_job with_both).1; running = job_a ∷ [] }

history_a : Reach (start 1 2) running_a
unfolding program
history_a =
    next (next (next here (submit job_a refl refl refl)) (submit job_b refl refl refl))
      (dispatch refl)

history-IsValid_example : IsValid running_a.queue
history-IsValid_example = history-IsValid (omega arith) (omega arith) history_a

history-IsOrderly_example : IsOrderly ("a" ∷ []) running_a.queue
history-IsOrderly_example = history-IsOrderly (omega arith) (omega arith) history_a

open_a : running_a.queue.shutdown_event ≡ false
unfolding program
open_a = refl

history_next_job_example :
    let (outcome, after) = job_completed_callback (ok (some job_a')) running_a.queue in
    (outcome ≡ done tt)
    × (after.job_queue ≡ running_a.queue.job_queue ++ job_a' ∷ [])
    × (after.queue ≡ running_a.queue.queue)
history_next_job_example =
    history_next_job [] job_a [] job_a' (omega arith) (omega arith) history_a refl refl open_a

with_a_done : (schedule_job job_a empty).0 ≡ done tt
unfolding program
with_a_done = refl

schedule_job-perm_example : Perm (held with_a) (job_a ∷ [])
schedule_job-perm_example = schedule_job-perm job_a empty with_a_done

-- The first package has completed its job with no next one and left its slot.
abbrev waiting_b : PackageQueue
waiting_b = record empty { queue = job_b ∷ [] }

waiting_b_done : (queue_next_job waiting_b).0 ≡ done tt
unfolding program
waiting_b_done = refl

queue_next_job-IsReleased_example : IsReleased (job_b ∷ []) waiting_b (queue_next_job waiting_b).1
queue_next_job-IsReleased_example = queue_next_job-IsReleased waiting_b waiting_b_done

a_not_b : ◌≢◌ {A = String} "a" "b"
a_not_b = ground (arith, eq_iff "a" "b")

race_exceeds_limit_example :
    length (run_two race (together job_a job_b (idle empty))).queue.active_packages ≡ 2
race_exceeds_limit_example =
    race_exceeds_limit job_a job_b empty refl (omega arith) refl refl a_not_b
