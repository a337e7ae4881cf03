-- ===== src/Jobs/Routing.antt =====
-- Which job follows which in a3m/server/jobs: exit codes, decisions, and the end of a chain.
use a3m.Common.{
  ◌≡◌, ◌≢◌, refl, sym, ap, ◌∙◌, inl, inr, Option, none, some, List, arith, Exception, key_error,
  value_error, Result-cases, attribute_error, stop_iteration, Result, ok, raise,
}
use a3m.Common.Int.{ℤ}
use a3m.Workflow.{Link, Workflow, get_link, get_next_link, get_status_id}
use a3m.Workflow.Decoding.{get_link_raises, get_next_link_raises}
use a3m.Jobs.{
  JobClass, get_job_class_for_link, Job, new_job, NextLink, by_id, by_link, JobChain, truthy,
  except_key_error, follow, begin_job, start_job, start_found, resolve, continue_with, advance_from,
  next, or_none, next_or_none, Run, collect, submitted, run_client_script,
}

abbrev pub job_of : Result JobClass → Link → Result (Option Job)
job_of (raise e) link = raise e
job_of (ok job_class) link = ok (some (new_job job_class link))

-- The job that a link leads to: of the class that its manager names.
abbrev pub leads_to : Result Link → Result (Option Job)
leads_to (raise e) = ok none
leads_to (ok link) = job_of (get_job_class_for_link link) link

-- The exceptions of `get_job_class_for_link`.
job_class_raises :
    (link : Link) (e : Exception) → get_job_class_for_link link ≡ raise e → e ≡ value_error
unfolding get_job_class_for_link
job_class_raises link e h = ground arith

begin_leads :
    (found : Result JobClass) (link : Link) (chain : JobChain)
    → ((e : Exception) → found ≡ raise e → e ≡ value_error)
    → or_none (begin_job found link chain).0 ≡ job_of found link
unfolding begin_job
begin_leads (raise e) link chain h = rw (h e refl)
begin_leads (ok job_class) link chain h = refl

pub start_leads :
    (link : Link) (chain : JobChain) → or_none (start_job link chain).0 ≡ leads_to (ok link)
unfolding start_job
start_leads link chain = begin_leads (get_job_class_for_link link) link _ (job_class_raises link)

pub follow_leads :
    (found : Result Link) (chain : JobChain)
    → ((e : Exception) → found ≡ raise e → e ≡ key_error)
    → or_none (continue_with (except_key_error found) chain).0 ≡ leads_to found
unfolding continue_with resolve
follow_leads (ok link) chain h = start_leads link chain
follow_leads (raise e) chain h = rw (h e refl)

-- The chain of a job that runs, by its exit code.
pub next-follow :
    (chain : JobChain) (link : Link) (job : Job)
    → chain.current_link ≡ some link
    → chain.current_job ≡ some job
    → chain.next_link ≡ none
    → next chain
      ≡ continue_with (except_key_error (get_next_link chain.workflow link job.exit_code)) chain
unfolding next
next-follow chain link job l j n =
    ap (λ o. advance_from (truthy o) chain) n
    ∙ ap (λ o. continue_with (follow chain.workflow o chain.current_job) chain) l
    ∙ ap (λ o. continue_with (follow chain.workflow (some link) o) chain) j

-- A client script job that runs in its chain is followed by the job of the link that its own link
-- names for the job's exit code; where the workflow has no such link, the chain ends without an error.
-- The row of the job gets the status that the link names for the same code.
pub run_client_script_route :
    (results : List (Option ℤ)) (job : Job) (run : Run)
    → run.chain.current_link ≡ some job.link
    → run.chain.next_link ≡ none
    → ((run_client_script results job run).0
        ≡ leads_to (get_next_link run.chain.workflow job.link (collect (submitted job) results)))
      × ((run_client_script results job run).1.currentstep
          ≡ some (get_status_id job.link (collect (submitted job) results)))
unfolding run_client_script next_or_none
run_client_script_route results job run link no_next =
    let exit_code = collect (submitted job) results in
    let finished = record job { exit_code = exit_code } in
    let chain = record run.chain { current_job = some finished } in
    (
      ap (λ (r : Result Job × JobChain). or_none r.0)
            (next-follow chain job.link finished link refl no_next)
          ∙ follow_leads (get_next_link run.chain.workflow job.link exit_code) chain
              (get_next_link_raises run.chain.workflow job.link exit_code),
      refl,
    )

start_job-ne-stop :
    (link : Link) (chain : JobChain) → (start_job link chain).0 ≢ raise stop_iteration
unfolding start_job begin_job
start_job-ne-stop link chain e = elim (Result-cases (get_job_class_for_link link)) [
  | inl (job_class, f) ↦ ground arith
  | inr (x, f) ↦ ground (arith, job_class_raises link x f)
]

start_found-ne-stop :
    (found : Result Link) (chain : JobChain)
    → ((e : Exception) → found ≡ raise e → e ≡ key_error)
    → (start_found found chain).0 ≢ raise stop_iteration
unfolding start_found
start_found-ne-stop (raise x) chain h e = ground (arith, h x refl)
start_found-ne-stop (ok link) chain h e = start_job-ne-stop link chain e

resolve-ne-stop :
    (next_link : NextLink) (chain : JobChain) → (resolve next_link chain).0 ≢ raise stop_iteration
unfolding resolve
resolve-ne-stop (by_link link) chain e = start_job-ne-stop link chain e
resolve-ne-stop (by_id id_) chain e =
    start_found-ne-stop (get_link chain.workflow (some id_)) chain
      (get_link_raises chain.workflow (some id_)) e

follow-ne-stop :
    (workflow : Workflow) (l : Option Link) (j : Option Job)
    → follow workflow l j ≢ raise stop_iteration
follow-ne-stop workflow none j e = cc
follow-ne-stop workflow (some link) none e = cc
follow-ne-stop workflow (some link) (some job) e =
    elim (Result-cases (get_next_link workflow link job.exit_code)) [
      | inl (found, f) ↦ ground (arith, f)
      | inr (x, f) ↦ ground (arith, get_next_link_raises workflow link job.exit_code x f)
    ]

continue_with-stop :
    (found : Result (Option NextLink)) (chain : JobChain)
    → found ≢ raise stop_iteration
    → (continue_with found chain).0 ≡ raise stop_iteration
    → (continue_with found chain).1 ≡ record chain { current_link = none; current_job = none }
unfolding continue_with
continue_with-stop (raise e) chain h p = absurd (h (ground arith))
continue_with-stop (ok none) chain h p = refl
continue_with-stop (ok (some next_link)) chain h p = absurd (resolve-ne-stop next_link chain p)

-- A chain that has raised `StopIteration` is no iterator any more: a further `next` does not raise it
-- again, it raises `AttributeError`.
pub ended_chain :
    (chain : JobChain)
    → chain.next_link ≡ none
    → (next chain).0 ≡ raise stop_iteration
    → (next (next chain).1).0 ≡ raise attribute_error
ended_chain chain n e =
    let found = follow chain.workflow chain.current_link chain.current_job in
    let here : next chain ≡ continue_with found chain =
      unfold next in ap (λ o. advance_from (truthy o) chain) n in
    let after : (next chain).1 ≡ record chain { current_link = none; current_job = none } =
      ap (λ (r : Result Job × JobChain). r.1) here
      ∙ continue_with-stop found chain
          (follow-ne-stop chain.workflow chain.current_link chain.current_job)
          (ap (λ (r : Result Job × JobChain). r.0) (sym here) ∙ e) in
    ap (λ c. (next c).0) after
    ∙ unfold next in
      ap
        (λ o.
          (advance_from (truthy o) (record chain { current_link = none; current_job = none })).0)
        n
