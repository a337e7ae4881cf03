-- ===== src/Jobs/Decisions.antt =====
-- The decision jobs of a3m/server/jobs/decisions.py.
use a3m.Common.{
  String, ◌≡◌, refl, ap, ◌∙◌, inl, inr, Bool, true, false, Option, none, some, List, [], ◌∷◌, ◌++◌,
  All, ◌==◌, if◌then◌else◌, Bool-cases, Result, ok, raise, Exception, key_error,
}
use a3m.Workflow.{Value, Choice, Link, get_link, get_next_link, status_completed_successfully}
use a3m.Workflow.Decoding.{get_link_raises, get_next_link_raises}
use a3m.Common.Int.{pos}
use a3m.Jobs.{
  next_link_decision, new_job, Job, by_id, JobChain, resolve, start_found, advance_from, next,
  or_none, next_or_none, equals, first_choice, decide, Run, after_decision, run_decision,
}
use a3m.Jobs.Routing.{leads_to, start_leads, follow_leads, next-follow}

-- The first choice with the configured value, and none before it with that value.
pub record IsFirst (value : Value) (choices : List Choice) (link_id : String) : Type 0 where
  pub before : List Choice
  pub choice : Choice
  pub after : List Choice
  pub split : choices ≡ before ++ choice ∷ after
  pub none_before : All (λ (c : Choice). equals c.value value ≡ false) before
  pub fits : equals choice.value value ≡ true
  pub named : choice.link_id ≡ link_id

abbrev pub Decided : Value → List Choice → Option String → Type 0
Decided value choices none = All (λ (c : Choice). equals c.value value ≡ false) choices
Decided value choices (some link_id) = IsFirst value choices link_id

Decided-cons :
    (value : Value) (c : Choice) (choices : List Choice) (found : Option String)
    → equals c.value value ≡ false
    → Decided value choices found
    → Decided value (c ∷ choices) found
Decided-cons value c choices none e d = (e, d)
Decided-cons value c choices (some id_) e d = record {
  before = c ∷ d.before;
  choice = d.choice;
  after = d.after;
  split = ap (λ l. c ∷ l) d.split;
  none_before = (e, d.none_before);
  fits = d.fits;
  named = d.named;
}

-- The loop over the choices finds the link of the first choice with the configured value, and finds
-- none only where no choice has it.
pub first_choice_decides :
    (value : Value) (choices : List Choice) → Decided value choices (first_choice value choices)
unfolding first_choice
first_choice_decides value [] = tt
first_choice_decides value (c ∷ choices) = elim (Bool-cases (equals c.value value)) [
  | inl e ↦ rw e (record {
    before = [];
    choice = c;
    after = choices;
    split = refl;
    none_before = tt;
    fits = e;
    named = refl;
  })
  | inr e ↦ rw e (Decided-cons value c choices _ e (first_choice_decides value choices))
]

-- The job of a link that is looked up by its identifier: here a missing link is an error.
abbrev pub leads_by : Result Link → Result (Option Job)
leads_by (raise e) = raise e
leads_by (ok link) = leads_to (ok link)

found_leads :
    (found : Result Link) (chain : JobChain)
    → ((e : Exception) → found ≡ raise e → e ≡ key_error)
    → or_none (start_found found chain).0 ≡ leads_by found
unfolding start_found
found_leads (raise e) chain h = rw (h e refl)
found_leads (ok link) chain h = start_leads link chain

resolve_leads :
    (id_ : String) (chain : JobChain)
    → or_none (resolve (by_id id_) chain).0 ≡ leads_by (get_link chain.workflow (some id_))
unfolding resolve
resolve_leads id_ chain =
    found_leads (get_link chain.workflow (some id_)) chain
      (get_link_raises chain.workflow (some id_))

next-by_id :
    (chain : JobChain) (id_ : String)
    → (id_ == "") ≡ false
    → next (record chain { next_link = some (by_id id_) })
      ≡ resolve (by_id id_) (record chain { next_link = none })
unfolding next advance_from
next-by_id chain id_ h =
    ap
      (λ (b : Bool).
        advance_from (if b then none else some (by_id id_))
          (record chain { next_link = some (by_id id_) }))
      h

-- A decision job is followed by the job of the link that it decided for. If the workflow lacks that
-- link the run raises, and its row is complete all the same.
pub run_decision_route :
    (configured : String → Option Value) (job : Job) (run : Run) (id_ : String)
    → decide configured job.link ≡ ok (some id_)
    → (id_ == "") ≡ false
    → ((run_decision configured job run).0 ≡ leads_by (get_link run.chain.workflow (some id_)))
      × ((run_decision configured job run).1.currentstep ≡ some status_completed_successfully)
unfolding run_decision next_or_none
run_decision_route configured job run id_ decided not_empty =
    rw (decided, after_decision)
      (
        ap (λ (r : Result Job × JobChain). or_none r.0) (next-by_id run.chain id_ not_empty)
            ∙ resolve_leads id_ (record run.chain { next_link = none }),
        refl,
      )

-- It follows the exit code that the job has.
undecided_follows :
    (configured : String → Option Value) (job : Job) (run : Run)
    → decide configured job.link ≡ ok none
    → run.chain.current_link ≡ some job.link
    → run.chain.current_job ≡ some job
    → (run_decision configured job run).0
      ≡ leads_to (get_next_link run.chain.workflow job.link job.exit_code)
unfolding run_decision next_or_none
undecided_follows configured job run undecided link current =
    rw (undecided, after_decision)
      (ap (λ (r : Result Job × JobChain). or_none r.0)
          (next-follow (record run.chain { next_link = none }) job.link job link current refl)
        ∙ follow_leads (get_next_link run.chain.workflow job.link job.exit_code)
            (record run.chain { next_link = none })
            (get_next_link_raises run.chain.workflow job.link job.exit_code))

-- A decision job that its chain made and that decides for no link is followed by the job of the link for the
-- exit code 0, by the rules that hold for every job; if there is no such link, by none.
pub run_decision_undecided :
    (configured : String → Option Value) (link : Link) (run : Run)
    → decide configured link ≡ ok none
    → run.chain.current_link ≡ some link
    → run.chain.current_job ≡ some (new_job next_link_decision link)
    → (run_decision configured (new_job next_link_decision link) run).0
      ≡ leads_to (get_next_link run.chain.workflow link (some (pos 0)))
run_decision_undecided configured link run undecided current job =
    undecided_follows configured (new_job next_link_decision link) run undecided current job
