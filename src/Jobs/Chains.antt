-- ===== src/Jobs/Chains.antt =====
-- Histories of a chain in a3m/server/jobs: each job that it makes is of a link of its workflow.
use a3m.Common.{
  String, ◌≡◌, ◌≢◌, refl, sym, ap, ◌∙◌, Option, none, some, List, arith, Result, ok, raise,
  Exception, ok-injective, raise-ne-ok, bind_ok, key_error, stop_iteration,
}
use mathlib.Core.Path.{subst, subst₂, ap₂}
use a3m.Common.Dict.{lookup}
use a3m.Common.Int.{ℤ, show_code}
use a3m.Workflow.{Value, Link, Workflow, get_link, next_link_id, get_next_link, exit_codes}
use a3m.Workflow.Decoding.{get_item-ok}
use a3m.Jobs.{
  JobClass, get_job_class_for_link, Job, directory_client_script, files_client_script,
  next_link_decision, new_job, NextLink, by_id, by_link, JobChain, truthy, except_key_error, follow,
  begin_job, start_job, start_found, resolve, continue_with, advance_from, next, or_none,
  next_or_none, Run, transfer, collect, submitted, decide, run_client_script, after_decision,
  run_decision, run_job, init,
}

-- A link that the workflow has under some identifier.
abbrev pub IsIn : Workflow → Link → Type 0
IsIn workflow link = (id_ : String) × (lookup id_ workflow.links ≡ some link)

-- The job that runs is the chain's, and its link is the chain's and the workflow's.
pub record IsRunning (workflow : Workflow) (job : Job) (chain : JobChain) : Type 0 where
  pub same_workflow : chain.workflow ≡ workflow
  pub current_job : chain.current_job ≡ some job
  pub current_link : chain.current_link ≡ some job.link
  pub next_link : truthy chain.next_link ≡ none
  pub is_in : IsIn workflow job.link

get_link-IsIn :
    (workflow : Workflow) (id_ : Option String) (link : Link)
    → get_link workflow id_ ≡ ok link
    → IsIn workflow link
unfolding get_link
get_link-IsIn workflow none link e = ground arith
get_link-IsIn workflow (some id_) link e = (id_, get_item-ok e)

new_job-link : (job_class : JobClass) (link : Link) → (new_job job_class link).link ≡ link
new_job-link directory_client_script link = refl
new_job-link files_client_script link = refl
new_job-link next_link_decision link = refl

begin_job-IsRunning :
    (found : Result JobClass) (link : Link) (chain after : JobChain) (job : Job)
    → begin_job found link chain ≡ (ok job, after)
    → chain.current_link ≡ some link
    → IsIn chain.workflow link
    → truthy chain.next_link ≡ none
    → IsRunning chain.workflow job after
unfolding begin_job
begin_job-IsRunning (raise x) link chain after job e l is_in n =
    absurd (raise-ne-ok (ap (λ (r : Result Job × JobChain). r.0) e))
begin_job-IsRunning (ok job_class) link chain after job e l is_in n =
    let made : Job = new_job job_class link in
    subst₂ (λ j c. IsRunning chain.workflow j c)
      (ok-injective (ap (λ (r : Result Job × JobChain). r.0) e))
      (ap (λ (r : Result Job × JobChain). r.1) e)
      (record {
        same_workflow = refl;
        current_job = refl;
        current_link = l ∙ ap some (sym (new_job-link job_class link));
        next_link = n;
        is_in = (is_in.0, is_in.1 ∙ ap some (sym (new_job-link job_class link)));
      })

by_link-injective : (a b : Link) → some (by_link a) ≡ some (by_link b) → a ≡ b
by_link-injective a b e = ap get e
  where
    get : Option NextLink → Link
    get (some (by_link l)) = l
    get _ = a

by_id-ne-by_link : (id_ : String) (link : Link) → truthy (some (by_id id_)) ≢ some (by_link link)
by_id-ne-by_link id_ link e = ground arith

none-ne-some : {o : NextLink} → none ≢ some o
none-ne-some e = cc

or_none-ok : (r : Result Job) (job : Job) → or_none r ≡ ok (some job) → r ≡ ok job
or_none-ok (ok j) job e = cc
or_none-ok (raise stop_iteration) job e = ground arith
or_none-ok (raise x) job e = absurd (raise_some x e)
  where
    raise_some : (y : Exception) → raise y ≡ ok (some job) → ⊥
    raise_some y f = cc

other_exception : (x : Exception) {o : Option NextLink} → raise x ≡ ok o → ⊥
other_exception x e = cc

module _ (workflow : Workflow) where
  -- What `__next__` may start from: the links that it may meet are the workflow's.
  record IsReady (chain : JobChain) : Type 0 where
    same_workflow : chain.workflow ≡ workflow
    linked : (link : Link) → truthy chain.next_link ≡ some (by_link link) → IsIn workflow link

  start_job-IsRunning :
      (link : Link) (chain after : JobChain) (job : Job)
      → start_job link chain ≡ (ok job, after)
      → chain.workflow ≡ workflow
      → IsIn workflow link
      → truthy chain.next_link ≡ none
      → IsRunning workflow job after
  unfolding start_job
  start_job-IsRunning link chain after job e w is_in n =
      subst (λ x. IsRunning x job after) w
        (begin_job-IsRunning (get_job_class_for_link link) link
          (record chain { current_link = some link }) after job e refl (rw w is_in) n)

  start_found-IsRunning :
      (found : Result Link) (chain after : JobChain) (job : Job)
      → start_found found chain ≡ (ok job, after)
      → chain.workflow ≡ workflow
      → ((link : Link) → found ≡ ok link → IsIn workflow link)
      → truthy chain.next_link ≡ none
      → IsRunning workflow job after
  unfolding start_found
  start_found-IsRunning (raise x) chain after job e w h n =
      absurd (raise-ne-ok (ap (λ (r : Result Job × JobChain). r.0) e))
  start_found-IsRunning (ok link) chain after job e w h n =
      start_job-IsRunning link chain after job e w (h link refl) n

  resolve-IsRunning :
      (next_link : NextLink) (chain after : JobChain) (job : Job)
      → resolve next_link chain ≡ (ok job, after)
      → chain.workflow ≡ workflow
      → ((link : Link) → next_link ≡ by_link link → IsIn workflow link)
      → truthy chain.next_link ≡ none
      → IsRunning workflow job after
  unfolding resolve
  resolve-IsRunning (by_link link) chain after job e w h n =
      start_job-IsRunning link chain after job e w (h link refl) n
  resolve-IsRunning (by_id id_) chain after job e w h n =
      start_found-IsRunning (get_link chain.workflow (some id_)) chain after job e w
        (λ link f. get_link-IsIn workflow (some id_) link (rw w at f)) n

  except_key_error-IsIn :
      (found : Result Link) (link : Link)
      → ((l : Link) → found ≡ ok l → IsIn workflow l)
      → except_key_error found ≡ ok (some (by_link link))
      → IsIn workflow link
  except_key_error-IsIn (ok l) link h e =
      subst (IsIn workflow) (by_link-injective l link (ok-injective e)) (h l refl)
  except_key_error-IsIn (raise key_error) link h e = ground arith
  except_key_error-IsIn (raise x) link h e = absurd (other_exception x e)

  get_next_link-IsIn :
      (link : Link) (code : Option ℤ) (l : Link)
      → get_next_link workflow link code ≡ ok l
      → IsIn workflow l
  unfolding get_next_link
  get_next_link-IsIn link code l e =
      let (link_id, f, g) =
        bind_ok (next_link_id (lookup (show_code code) (exit_codes link.src)) link) _ e in
      get_link-IsIn workflow link_id l g

  follow-IsIn :
      (l : Option Link) (j : Option Job) (link : Link)
      → follow workflow l j ≡ ok (some (by_link link))
      → IsIn workflow link
  follow-IsIn none j link e = ground arith
  follow-IsIn (some l) none link e = ground arith
  follow-IsIn (some l) (some job) link e =
      except_key_error-IsIn (get_next_link workflow l job.exit_code) link
        (get_next_link-IsIn l job.exit_code) e

  continue_with-IsRunning :
      (found : Result (Option NextLink)) (chain after : JobChain) (job : Job)
      → continue_with found chain ≡ (ok job, after)
      → chain.workflow ≡ workflow
      → ((link : Link) → found ≡ ok (some (by_link link)) → IsIn workflow link)
      → truthy chain.next_link ≡ none
      → IsRunning workflow job after
  unfolding continue_with
  continue_with-IsRunning (raise x) chain after job e w h n =
      absurd (raise-ne-ok (ap (λ (r : Result Job × JobChain). r.0) e))
  continue_with-IsRunning (ok none) chain after job e w h n =
      absurd (raise-ne-ok (ap (λ (r : Result Job × JobChain). r.0) e))
  continue_with-IsRunning (ok (some next_link)) chain after job e w h n =
      resolve-IsRunning next_link chain after job e w (λ link f. h link (ap (λ x. ok (some x)) f)) n

  advance_from-IsRunning :
      (start : Option NextLink) (chain after : JobChain) (job : Job)
      → advance_from start chain ≡ (ok job, after)
      → chain.workflow ≡ workflow
      → truthy chain.next_link ≡ start
      → ((link : Link) → start ≡ some (by_link link) → IsIn workflow link)
      → IsRunning workflow job after
  unfolding advance_from
  advance_from-IsRunning (some next_link) chain after job e w n h =
      resolve-IsRunning next_link (record chain { next_link = none }) after job e w
        (λ link f. h link (ap some f)) refl
  advance_from-IsRunning none chain after job e w n h =
      continue_with-IsRunning (follow chain.workflow chain.current_link chain.current_job) chain
        after job e w (λ link f. follow-IsIn chain.current_link chain.current_job link (rw w at f))
        n

  -- A job that `__next__` returns is the chain's, of a link of the workflow.
  pub next-IsRunning :
      (chain after : JobChain) (job : Job)
      → next chain ≡ (ok job, after)
      → chain.workflow ≡ workflow
      → ((link : Link) → truthy chain.next_link ≡ some (by_link link) → IsIn workflow link)
      → IsRunning workflow job after
  unfolding next
  next-IsRunning chain after job e w h =
      advance_from-IsRunning (truthy chain.next_link) chain after job e w refl h

  next_or_none-IsRunning :
      (chain after : JobChain) (job : Job)
      → next_or_none chain ≡ (ok (some job), after)
      → chain.workflow ≡ workflow
      → ((link : Link) → truthy chain.next_link ≡ some (by_link link) → IsIn workflow link)
      → IsRunning workflow job after
  unfolding next_or_none
  next_or_none-IsRunning chain after job e w h =
      next-IsRunning chain after job
        (ap₂ (λ (a : Result Job) (b : JobChain). (a, b))
          (or_none-ok (next chain).0 job (ap (λ (r : Result (Option Job) × JobChain). r.0) e))
          (ap (λ (r : Result (Option Job) × JobChain). r.1) e))
        w h

  module _ (configured : String → Option Value) where
    run_client_script-IsRunning :
        (results : List (Option ℤ)) (job job' : Job) (run run' : Run)
        → run_client_script results job run ≡ (ok (some job'), run')
        → IsRunning workflow job run.chain
        → IsRunning workflow job' run'.chain
    unfolding run_client_script
    run_client_script-IsRunning results job job' run run' e r =
        let exit_code = collect (submitted job) results in
        let chain = record run.chain {
          current_job = some (record job { exit_code = exit_code });
        } in
        next_or_none-IsRunning chain run'.chain job'
          (ap (λ (x : Result (Option Job) × Run). (x.0, x.1.chain)) e) r.same_workflow
          (λ link f. absurd (none-ne-some (sym r.next_link ∙ f)))

    after_decision-IsRunning :
        (decided : Result (Option String)) (job' : Job) (run run' : Run)
        → after_decision decided run ≡ (ok (some job'), run')
        → run.chain.workflow ≡ workflow
        → IsRunning workflow job' run'.chain
    unfolding after_decision
    after_decision-IsRunning (raise x) job' run run' e w =
        absurd (raise-ne-ok (ap (λ (r : Result (Option Job) × Run). r.0) e))
    after_decision-IsRunning (ok none) job' run run' e w =
        next_or_none-IsRunning (record run.chain { next_link = none }) run'.chain job'
          (ap (λ (x : Result (Option Job) × Run). (x.0, x.1.chain)) e) w
          (λ link f. absurd (none-ne-some f))
    after_decision-IsRunning (ok (some id_)) job' run run' e w =
        next_or_none-IsRunning (record run.chain { next_link = some (by_id id_) }) run'.chain job'
          (ap (λ (x : Result (Option Job) × Run). (x.0, x.1.chain)) e) w
          (λ link f. absurd (by_id-ne-by_link id_ link f))

    run_job-IsRunning :
        (job_class : JobClass) (results : List (Option ℤ)) (job job' : Job) (run run' : Run)
        → job.job_class ≡ job_class
        → run_job configured results job run ≡ (ok (some job'), run')
        → IsRunning workflow job run.chain
        → IsRunning workflow job' run'.chain
    unfolding run_job run_decision
    run_job-IsRunning directory_client_script results job job' run run' c e r =
        run_client_script-IsRunning results job job' run run' (rw (c, run_job) at e) r
    run_job-IsRunning files_client_script results job job' run run' c e r =
        run_client_script-IsRunning results job job' run run' (rw (c, run_job) at e) r
    run_job-IsRunning next_link_decision results job job' run run' c e r =
        after_decision-IsRunning (decide configured job.link) job' run run' (rw (c, run_job) at e)
          r.same_workflow

    -- The jobs of a chain from its first link on, whatever the tasks of each returned.
    pub data Reached (starting_link : Link) : Job → Run → Type 0 where
      first :
          (job : Job) (chain : JobChain)
          → next (init workflow starting_link) ≡ (ok job, chain)
          → Reached starting_link job
              (record { chain = chain; stage = transfer; currentstep = none })
      then_ :
          {job job' : Job} {run run' : Run}
          → Reached starting_link job run
          → (results : List (Option ℤ))
          → run_job configured results job run ≡ (ok (some job'), run')
          → Reached starting_link job' run'

    -- However its tasks end and whatever is configured, each job that a chain reaches from a link of
    -- its workflow is of a link of that workflow, and when it runs it is the chain's current job, its
    -- link the chain's current link, and no next link is set.
    pub Reached-IsRunning :
        {starting_link : Link} {job : Job} {run : Run}
        → IsIn workflow starting_link
        → Reached starting_link job run
        → IsRunning workflow job run.chain
    Reached-IsRunning {starting_link} is_in (first job chain e) =
        next-IsRunning (init workflow starting_link) chain job e refl
          (λ link f. subst (IsIn workflow) (by_link-injective starting_link link f) is_in)
    Reached-IsRunning is_in (then_ {job} {job'} {run} {run'} r results e) =
        run_job-IsRunning job.job_class results job job' run run' refl e (Reached-IsRunning is_in r)
