-- ===== src/Jobs/Tests.antt =====
-- A chain of two links and a decision, and the theorems on jobs and chains at it.
use a3m.Common.{
  ℕ, String, ◌≡◌, refl, true, false, none, some, Option, List, [], ◌∷◌, ok, raise, attribute_error,
  stop_iteration, All, ◌≤◌, ◌⊎◌,
}
use mathlib.Core.List.{Perm, Permᴰ}
use a3m.Common.Dict.{lookup}
use a3m.Common.Int.{ℤ, pos, negsuc, show_code}
use a3m.Workflow.{
  Attrs, Config, Link, Workflow, get_link, get_next_link, get_status_id, Choice, Value, flag,
  number,
}
use a3m.Jobs.{
  Job, new_job, JobChain, init, next, next_or_none, Run, transfer, ingest, collect, submitted,
  completed_tasks, run_client_script, run_decision, run_job, decide, equals, first_choice,
  get_job_class_for_link, link_end_of_transfer, directory_client_script, next_link_decision,
}
use a3m.Jobs.ExitCodes.{collect_maximum, collect-perm, collect_negative, counted, Occurs}
use a3m.Jobs.Routing.{run_client_script_route, ended_chain, leads_to}
use a3m.Jobs.Decisions.{
  first_choice_decides, Decided, run_decision_route, leads_by, run_decision_undecided,
}
use a3m.Jobs.Chains.{IsRunning, Reached, first, then_, Reached-IsRunning}

abbrev directories : Config
directories = record {
  manager = "linkTaskManagerDirectories";
  execute = some "a3m_download_transfer";
  arguments = some "%URL%";
  stdout_file = none;
  stderr_file = none;
  filter_subdir = none;
  config_attr = none;
  default = none;
  choices = [];
  replacements = none;
}

abbrev choices : List Choice
choices =
    record { value = flag false; link_id = "skip" }
    ∷ record { value = flag true; link_id = "last" }
    ∷ []

abbrev deciding : Config
deciding = record directories {
  manager = "linkTaskManagerChoice";
  config_attr = some "extract_packages";
  choices = choices;
  replacements = none;
}

abbrev attrs : Attrs ℕ
attrs = record {
  config = directories;
  start = none;
  end = none;
  exit_codes = some (("0", record { link_id = some "choose"; job_status = 1 }) ∷ []);
  fallback_job_status = 3;
  fallback_link_id = some "nowhere";
  description = some [];
  group = some [];
}

abbrev first_link : Link
first_link = record { id = link_end_of_transfer; src = attrs }

abbrev choice_link : Link
choice_link = record {
  id = "choose";
  src = record attrs {
    config = deciding;
    exit_codes = some (("0", record { link_id = some "last"; job_status = 1 }) ∷ []);
  };
}

abbrev last_link : Link
last_link = record { id = "last"; src = record attrs { exit_codes = none } }

abbrev workflow : Workflow
workflow = record {
  links = ("first", first_link) ∷ ("choose", choice_link) ∷ ("last", last_link) ∷ [];
}

program : Unit {0}
unfolding lookup get_next_link get_link get_status_id show_code collect completed_tasks next
    next_or_none run_client_script run_decision run_job decide equals first_choice
    get_job_class_for_link
program = tt

abbrev configured : String → Option Value
configured name = some (number 1)

abbrev unconfigured : String → Option Value
unconfigured name = some (number 2)

-- The run of the first job, and its tasks' exit codes.
abbrev run : Run
run = record { chain = (next (init workflow first_link)).1; stage = transfer; currentstep = none }

abbrev first_job : Job
first_job = new_job directory_client_script first_link

abbrev choice_job : Job
choice_job = new_job next_link_decision choice_link

abbrev last_job : Job
last_job = new_job directory_client_script last_link

abbrev codes : List (Option ℤ)
codes = some (pos 0) ∷ none ∷ []

abbrev run_choice : Run
run_choice = (run_job configured codes first_job run).1

abbrev run_last : Run
run_last = (run_job configured [] choice_job run_choice).1

-- From the transfer's last link the package is in ingest.
to_choice : (run_job configured codes first_job run).0 ≡ ok (some choice_job)
unfolding program
to_choice = refl

stage_test : run_choice.stage ≡ ingest
unfolding program
stage_test = refl

to_last : (run_job configured [] choice_job run_choice).0 ≡ ok (some last_job)
unfolding program
to_last = refl

collect_maximum_example :
    (n : ℕ) × (collect none codes ≡ some (pos n))
    × All (λ x. counted x ≤ n) codes
    × ((n ≡ 0) ⊎ Occurs n codes)
collect_maximum_example = collect_maximum (some (pos 0)) (none ∷ [])

killed : Perm (some (negsuc 8) ∷ some (pos 2) ∷ []) (some (pos 2) ∷ some (negsuc 8) ∷ [])
killed = ∣ Permᴰ.swap refl refl ∣₁

collect-perm_example :
    collect none (some (negsuc 8) ∷ some (pos 2) ∷ [])
    ≡ collect none (some (pos 2) ∷ some (negsuc 8) ∷ [])
collect-perm_example =
    collect-perm none (some (negsuc 8) ∷ some (pos 2) ∷ []) (some (pos 2) ∷ some (negsuc 8) ∷ [])
      killed

-- Killed by a signal: `Popen.returncode` is -9.
collect_negative_example : collect none (some (negsuc 8) ∷ []) ≡ some (pos 0)
collect_negative_example = collect_negative (some (negsuc 8)) [] (tt, tt)

run_current : run.chain.current_link ≡ some first_link
unfolding program
run_current = refl

run_next_link : run.chain.next_link ≡ none
unfolding program
run_next_link = refl

run_client_script_route_example :
    ((run_client_script codes first_job run).0
      ≡ leads_to
          (get_next_link run.chain.workflow first_link (collect (submitted first_job) codes)))
    × ((run_client_script codes first_job run).1.currentstep
        ≡ some (get_status_id first_link (collect (submitted first_job) codes)))
run_client_script_route_example =
    run_client_script_route codes first_job run run_current run_next_link

-- The last link falls back to one that is not there.
abbrev run_end : JobChain
run_end = record {
  workflow = workflow;
  current_link = some last_link;
  next_link = none;
  current_job = some last_job;
}

end_stops : (next run_end).0 ≡ raise stop_iteration
unfolding program
end_stops = refl

ended_chain_example : (next (next run_end).1).0 ≡ raise attribute_error
ended_chain_example = ended_chain run_end refl end_stops

first_choice_decides_example : Decided (number 1) choices (first_choice (number 1) choices)
first_choice_decides_example = first_choice_decides (number 1) choices

decided : decide configured choice_link ≡ ok (some "last")
unfolding program
decided = refl

undecided : decide unconfigured choice_link ≡ ok none
unfolding program
undecided = refl

run_decision_route_example :
    ((run_decision configured choice_job run_choice).0
      ≡ leads_by (get_link run_choice.chain.workflow (some "last")))
    × ((run_decision configured choice_job run_choice).1.currentstep ≡ some 1)
run_decision_route_example = run_decision_route configured choice_job run_choice "last" decided refl

run_choice_current :
    (run_choice.chain.current_link ≡ some choice_link)
    × (run_choice.chain.current_job ≡ some choice_job)
unfolding program
run_choice_current = (refl, refl)

run_decision_undecided_example :
    (run_decision unconfigured (new_job next_link_decision choice_link) run_choice).0
    ≡ leads_to (get_next_link run_choice.chain.workflow choice_link (some (pos 0)))
run_decision_undecided_example =
    run_decision_undecided unconfigured choice_link run_choice undecided run_choice_current.0
      run_choice_current.1

first_in : lookup "first" workflow.links ≡ some first_link
unfolding program
first_in = refl

first_made : next (init workflow first_link) ≡ (ok first_job, run.chain)
unfolding program
first_made = refl

choice_made : run_job configured codes first_job run ≡ (ok (some choice_job), run_choice)
unfolding program
choice_made = refl

reached : Reached workflow configured first_link choice_job run_choice
reached = then_ (first first_job run.chain first_made) codes choice_made

Reached-IsRunning_example : IsRunning workflow choice_job run_choice.chain
Reached-IsRunning_example = Reached-IsRunning workflow configured ("first", first_in) reached
