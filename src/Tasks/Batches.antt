-- ===== src/Tasks/Batches.antt =====
-- How a3m/server/tasks/backends/pool_backend.py divides the tasks of a job into batches.
use a3m.Common.{
  ℕ, suc, String, ◌≡◌, ◌≢◌, refl, sym, ap, ◌∙◌, Bool, true, false, inl, inr, none, List, [], ◌∷◌,
  ◌++◌, ◌<◌, ◌≤◌, ◌%◌, if◌then◌else◌, arith, length, length-append, All, All-append, nat_eq,
  eq_refl, Bool-cases,
}
use mathlib.Core.Path.{subst}
use native.Mathlib.Decide.{dec_le}
use native.Mathlib.Nat.{mod-eq_of_lt, mod_self}
use a3m.Common.Dict.{Dict, has, lookup, remove, lookup-insert_self, lookup-none, mem-keys-remove}
use a3m.Workflow.{get_or}
use a3m.Tasks.{
  Task, Batch, PoolTaskBackend, current_batch, set_current_batch, save_batch, submit_task,
  submit_tasks, submit_batch, submit_each, save_rest, submit_batches,
}

abbrev pub concat : List Batch → List Task
concat [] = []
concat (batch ∷ batches) = batch ++ concat batches

append_assoc : (xs ys zs : List Task) → (xs ++ ys) ++ zs ≡ xs ++ (ys ++ zs)
append_assoc [] ys zs = refl
append_assoc (x ∷ xs) ys zs = ap (λ l. x ∷ l) (append_assoc xs ys zs)

pub append_nil : {A : Type 0} (xs : List A) → xs ++ [] ≡ xs
append_nil [] = refl
append_nil (x ∷ xs) = ap (λ l. x ∷ l) (append_nil xs)

concat-snoc : (bs : List Batch) (b : Batch) → concat (bs ++ b ∷ []) ≡ concat bs ++ b
concat-snoc [] b = append_nil b
concat-snoc (c ∷ bs) b = ap (λ l. c ++ l) (concat-snoc bs b) ∙ sym (append_assoc c (concat bs) b)

pub lookup-remove : {V : Type 0} (k : String) (d : Dict V) → lookup k (remove k d) ≡ none
lookup-remove k d =
    lookup-none k (remove k d)
      (mem-keys-remove k k d ∙ ap (λ b. if b then false else has k d) (eq_refl k))

-- The batches of a job that wait to be submitted, all full, and the one that is filled.
record IsFilling (size : ℕ) (job_uuid : String) (tasks : List Task) (b : PoolTaskBackend)
    : Type 0 where
  saved : List Batch
  current : Batch
  to_submit : get_or (lookup job_uuid b.batches_to_submit) [] ≡ saved
  filled : current_batch job_uuid b ≡ current
  joined : concat saved ++ current ≡ tasks
  full : All (λ (batch : Batch). length batch ≡ size) saved
  room : length current < size
  nothing_pending : lookup job_uuid b.pending_jobs ≡ none

full_mod : (size n : ℕ) → n < size → nat_eq (suc n % size) 0 ≡ true → suc n ≡ size
full_mod size n h e = elim (dec_le size (suc n)) [
  | yes le ↦ omega arith
  | no gt ↦ absurd (
      not_zero (ap (λ k. nat_eq k 0) (sym (mod-eq_of_lt {n = suc n} {m = size} (omega arith))) ∙ e))
]
  where
    not_zero : nat_eq (suc n) 0 ≢ true
    not_zero f = ground arith

room_mod : (size n : ℕ) → n < size → nat_eq (suc n % size) 0 ≡ false → suc n < size
room_mod size n h e = elim (dec_le size (suc n)) [
  | yes le ↦
      absurd
        (zero_test (ap (λ k. nat_eq k 0) (sym (mod_self size) ∙ ap (λ k. k % size) (same le)) ∙ e))
  | no gt ↦ omega arith
]
  where
    zero_test : nat_eq 0 0 ≢ false
    zero_test f = ground arith

    same : size ≤ suc n → size ≡ suc n
    same le = omega arith

module _ (size : ℕ) (job_uuid : String) where
  -- The batch with one more task.
  length-snoc : (batch : Batch) (task : Task) → length (batch ++ task ∷ []) ≡ suc (length batch)
  length-snoc batch task = omega (arith, length-append batch (task ∷ []))

  IsFilling-add :
      (tasks : List Task) (task : Task) (b : PoolTaskBackend) (h : IsFilling size job_uuid tasks b)
      → suc (length h.current) < size
      → IsFilling size job_uuid
          (tasks ++ task ∷ [])
          (set_current_batch job_uuid (h.current ++ task ∷ []) b)
  IsFilling-add tasks task b h lt = record {
    saved = h.saved;
    current = h.current ++ task ∷ [];
    to_submit = h.to_submit;
    filled =
        ap (λ o. get_or o [])
          (lookup-insert_self job_uuid (h.current ++ task ∷ []) b.current_task_batches);
    joined =
        sym (append_assoc (concat h.saved) h.current (task ∷ []))
        ∙ ap (λ l. l ++ task ∷ []) h.joined;
    full = h.full;
    room = subst (λ k. k < size) (sym (length-snoc h.current task)) lt;
    nothing_pending = h.nothing_pending;
  }

  saved_batches :
      (batch : Batch) (b : PoolTaskBackend)
      → get_or (lookup job_uuid (save_batch job_uuid batch b).batches_to_submit) []
        ≡ get_or (lookup job_uuid b.batches_to_submit) [] ++ batch ∷ []
  unfolding save_batch
  saved_batches batch b =
      ap (λ o. get_or o [])
        (lookup-insert_self job_uuid (get_or (lookup job_uuid b.batches_to_submit) [] ++ batch ∷ [])
          b.batches_to_submit)

  IsFilling-save :
      (tasks : List Task) (task : Task) (b : PoolTaskBackend) (h : IsFilling size job_uuid tasks b)
      → suc (length h.current) ≡ size
      → IsFilling size job_uuid (tasks ++ task ∷ []) (
          save_batch job_uuid
            (h.current ++ task ∷ [])
            (set_current_batch job_uuid (h.current ++ task ∷ []) b))
  IsFilling-save tasks task b h e =
      let batch = h.current ++ task ∷ [] in
      let added = set_current_batch job_uuid batch b in
      record {
        saved = h.saved ++ batch ∷ [];
        current = [];
        to_submit = saved_batches batch added ∙ ap (λ l. l ++ batch ∷ []) h.to_submit;
        filled =
            unfold save_batch in
            ap (λ o. get_or o []) (lookup-remove job_uuid added.current_task_batches);
        joined =
            append_nil (concat (h.saved ++ batch ∷ []))
            ∙ concat-snoc h.saved batch
            ∙ sym (append_assoc (concat h.saved) h.current (task ∷ []))
            ∙ ap (λ l. l ++ task ∷ []) h.joined;
        full =
            All-append (λ (c : Batch). length c ≡ size) h.saved (batch ∷ []) h.full
              (length-snoc h.current task ∙ e, tt);
        room = omega arith;
        nothing_pending = unfold save_batch in h.nothing_pending;
      }

  submit_task-IsFilling :
      (tasks : List Task) (task : Task) (b : PoolTaskBackend)
      → IsFilling size job_uuid tasks b
      → IsFilling size job_uuid (tasks ++ task ∷ []) (submit_task size job_uuid task b)
  unfolding submit_task
  submit_task-IsFilling tasks task b h =
      elim (Bool-cases (nat_eq (length (current_batch job_uuid b ++ task ∷ []) % size) 0)) [
        | inl e ↦ rw e (
            rw (sym h.filled) at (
              IsFilling-save tasks task b h
                (full_mod size (length h.current) h.room (ended true e))))
        | inr e ↦ rw e (
            rw (sym h.filled) at (
              IsFilling-add tasks task b h
                (room_mod size (length h.current) h.room (ended false e))))
      ]
    where
      ended :
          (t : Bool)
          → nat_eq (length (current_batch job_uuid b ++ task ∷ []) % size) 0 ≡ t
          → nat_eq (suc (length h.current) % size) 0 ≡ t
      ended t e =
          ap (λ k. nat_eq (k % size) 0)
            (sym (ap (λ l. length (l ++ task ∷ [])) h.filled ∙ length-snoc h.current task))
          ∙ e

  submit_tasks-IsFilling :
      (before tasks : List Task) (b : PoolTaskBackend)
      → IsFilling size job_uuid before b
      → IsFilling size job_uuid (before ++ tasks) (submit_tasks size job_uuid tasks b)
  unfolding submit_tasks
  submit_tasks-IsFilling before [] b h =
      subst (λ l. IsFilling size job_uuid l b) (sym (append_nil before)) h
  submit_tasks-IsFilling before (task ∷ tasks) b h =
      subst
        (λ l.
          IsFilling size job_uuid l
            (submit_tasks size job_uuid tasks (submit_task size job_uuid task b)))
        (append_assoc before (task ∷ []) tasks)
        (submit_tasks-IsFilling (before ++ task ∷ []) tasks (submit_task size job_uuid task b)
          (submit_task-IsFilling before task b h))

  -- Batches with tasks are all submitted, in their order.
  submit_each-pending :
      (batches submitted : List Batch) (b : PoolTaskBackend)
      → All (λ (batch : Batch). 0 < length batch) batches
      → get_or (lookup job_uuid b.pending_jobs) [] ≡ submitted
      → get_or (lookup job_uuid (submit_each job_uuid batches b).pending_jobs) []
        ≡ submitted ++ batches
  unfolding submit_each submit_batch
  submit_each-pending [] submitted b h e = e ∙ sym (append_nil submitted)
  submit_each-pending ([] ∷ batches) submitted b h e = absurd (omega (arith, h.0))
  submit_each-pending ((task ∷ tasks) ∷ batches) submitted b h e =
      submit_each-pending batches (submitted ++ (task ∷ tasks) ∷ [])
        (submit_batch job_uuid (task ∷ tasks) b) h.1
        (ap (λ o. get_or o [])
            (lookup-insert_self job_uuid
              (get_or (lookup job_uuid b.pending_jobs) [] ++ (task ∷ tasks) ∷ []) b.pending_jobs)
          ∙ ap (λ l. l ++ (task ∷ tasks) ∷ []) e)
      ∙ batches_assoc submitted
    where
      batches_assoc :
          (l : List Batch) → (l ++ (task ∷ tasks) ∷ []) ++ batches ≡ l ++ (task ∷ tasks) ∷ batches
      batches_assoc [] = refl
      batches_assoc (x ∷ xs) = ap (λ l. x ∷ l) (batches_assoc xs)

  -- All batches are full but the last, which has a task.
  pub record IsPartition (tasks : List Task) (batches : List Batch) : Type 0 where
    pub full : List Batch
    pub last : List Batch
    pub split : batches ≡ full ++ last
    pub joined : concat batches ≡ tasks
    pub all_full : All (λ (batch : Batch). length batch ≡ size) full
    pub at_most_one : length last ≤ 1
    pub last_filled : All (λ (batch : Batch). (0 < length batch) × (length batch < size)) last

  full_nonempty :
      (batches : List Batch)
      → 0 < size
      → All (λ (batch : Batch). length batch ≡ size) batches
      → All (λ (batch : Batch). 0 < length batch) batches
  full_nonempty [] p h = tt
  full_nonempty (batch ∷ batches) p h = (omega (arith, h.0), full_nonempty batches p h.1)

  submit_each-IsPartition :
      (tasks : List Task) (b : PoolTaskBackend) (current : Batch)
      (h : IsFilling size job_uuid tasks b)
      → 0 < size
      → h.current ≡ current
      → IsPartition tasks (
          get_or
            (lookup job_uuid
              (submit_each job_uuid
                (get_or (lookup job_uuid (save_rest job_uuid current b).batches_to_submit) [])
                (save_rest job_uuid current b)).pending_jobs)
            [])
  submit_each-IsPartition tasks b [] h p e =
      let batches =
        submit_each-pending (get_or (lookup job_uuid b.batches_to_submit) []) []
          (set_current_batch job_uuid [] b)
          (subst (All (λ (batch : Batch). 0 < length batch)) (sym h.to_submit)
            (full_nonempty h.saved p h.full))
          (ap (λ o. get_or o []) h.nothing_pending) in
      subst (IsPartition tasks) (sym (batches ∙ h.to_submit)) (record {
        full = h.saved;
        last = [];
        split = sym (append_nil h.saved);
        joined =
            sym (append_nil (concat h.saved)) ∙ ap (λ l. concat h.saved ++ l) (sym e) ∙ h.joined;
        all_full = h.full;
        at_most_one = omega arith;
        last_filled = tt;
      })
  submit_each-IsPartition tasks b (task ∷ rest) h p e =
      let batch = task ∷ rest in
      let saved = save_batch job_uuid batch b in
      let all = saved_batches batch b ∙ ap (λ l. l ++ batch ∷ []) h.to_submit in
      let batches =
        submit_each-pending (get_or (lookup job_uuid saved.batches_to_submit) []) [] saved
          (subst (All (λ (c : Batch). 0 < length c)) (sym all) (
            All-append (λ (c : Batch). 0 < length c) h.saved (batch ∷ [])
              (full_nonempty h.saved p h.full) (omega arith, tt)))
          (unfold save_batch in ap (λ o. get_or o []) h.nothing_pending) in
      subst (IsPartition tasks) (sym (batches ∙ all)) (record {
        full = h.saved;
        last = batch ∷ [];
        split = refl;
        joined = concat-snoc h.saved batch ∙ ap (λ l. concat h.saved ++ l) (sym e) ∙ h.joined;
        all_full = h.full;
        at_most_one = omega arith;
        last_filled = ((omega arith, subst (λ (c : Batch). length c < size) e h.room), tt);
      })

  -- A job's tasks go to the client in batches that have the tasks in their order, each once: every
  -- batch has `TASK_BATCH_SIZE` tasks but the last, which may have fewer and is not empty. The backend
  -- has no tasks of the job before.
  pub submit_batches-IsPartition :
      (tasks : List Task) (b : PoolTaskBackend)
      → 0 < size
      → lookup job_uuid b.current_task_batches ≡ none
      → lookup job_uuid b.batches_to_submit ≡ none
      → lookup job_uuid b.pending_jobs ≡ none
      → IsPartition tasks (
          get_or
            (lookup job_uuid
              (submit_batches job_uuid (submit_tasks size job_uuid tasks b)).pending_jobs)
            [])
  unfolding submit_batches
  submit_batches-IsPartition tasks b p no_current none_saved none_pending =
      let filling : IsFilling size job_uuid tasks (submit_tasks size job_uuid tasks b) =
        submit_tasks-IsFilling [] tasks b (record {
          saved = [];
          current = [];
          to_submit = ap (λ o. get_or o []) none_saved;
          filled = ap (λ o. get_or o []) no_current;
          joined = refl;
          full = tt;
          room = p;
          nothing_pending = none_pending;
        }) in
      submit_each-IsPartition tasks (submit_tasks size job_uuid tasks b)
        (current_batch job_uuid (submit_tasks size job_uuid tasks b)) filling p (sym filling.filled)
