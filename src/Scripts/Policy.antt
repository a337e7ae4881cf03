-- ===== src/Scripts/Policy.antt =====
-- a3m/client/clientScripts/policy_check.py: whether a file conforms to the policies of its format. The rules of the
-- registry, the rows that the variables come from and `json.loads` are parameters; its values are texts.
-- Not modelled: what is copied to the logs and to the submission documentation, and what was printed and
-- written before an exception.
mod Tests
use a3m.Common.{
  ℕ, String, Bool, true, false, not, ◌&&◌, ◌||◌, ◌==◌, Option, none, some, List, [], ◌∷◌,
  if◌then◌else◌, mem, Exception, value_error, type_error, other_error, Result, ok, raise, ◌>>=◌,
}
use Prim.Native.String.{◌++◌ as ◌⧺◌}
use a3m.Common.Dict.{Dict, lookup}
use a3m.Common.Text.{ends, drop}
use a3m.Common.Int.{ℤ, pos, is_nonzero, show_code}
use a3m.Client.{Job, print_output, print_error, set_status, job_context}
use a3m.Packages.{OsPath}
use a3m.Helpers.Subprocess.{
  ScriptType, as_is, bash_script, command_line, python_script, text, ExecutionResult, Machine,
  execute_or_run,
}
use a3m.Helpers.Database.{FileRow, EventRow, DerivationRow, Database, Storage, insert_into_events}

-- A rule with its command; `tool` is the description and the version of the tool, or `None`.
pub record Rule : Type 0 where
  pub description : String
  pub script_type : ScriptType
  pub command : String
  pub tool : Option (String × String)

-- The file that is checked.
pub record PolicyChecker : Type 0 where
  pub file_path : String
  pub file_uuid : String
  pub sip_uuid : String
  pub shared_path : Option String
  pub file_type : String

-- The job, the files on disk and the tables.
pub record World : Type 0 where
  pub job : Job
  pub files : Dict String
  pub db : Database

pub record Surroundings : Type 0 where
  pub os : OsPath
  pub machine : Machine
  pub storage : Storage
  pub now : String
  pub rules : Option String → Result (List Rule)
  pub replaced : String → Result String
  pub loads : String → Option (Dict String)

abbrev pub printed : List String → World → World
printed objects world = record world { job = print_output objects world.job }

abbrev pub complained : List String → World → World
complained objects world = record world { job = print_error objects world.job }

-- `File.objects.get(uuid=...)`
unfoldable pub file_model : String → List FileRow → Option FileRow
file_model uuid [] = none
file_model uuid (row ∷ rows) = if row.uuid == uuid then some row else file_model uuid rows

unfoldable pub event_type_of : (event : String) → List EventRow → Option String
event_type_of event [] = none
event_type_of event (row ∷ rows) =
    if row.event_id == event then some row.event_type else event_type_of event rows

abbrev pub same_type : Option String → Option String → Bool
same_type none none = true
same_type (some a) (some b) = a == b
same_type _ _ = false

-- The derivations of the file whose event has the type, or that have no event.
unfoldable pub derivations_of :
    (uuid : String) → Option String → List EventRow → List DerivationRow → List DerivationRow
unfolding event_type_of
derivations_of uuid event_type events [] = []
derivations_of uuid event_type events (row ∷ rows) =
    let rest = derivations_of uuid event_type events rows in
    if (row.derived_file == uuid) && same_type (event_type_of row.event events) event_type
    then row ∷ rest
    else rest

-- `Derivation.objects.get(...)` that may not exist.
abbrev pub is_one : List DerivationRow → Result Bool
is_one [] = ok false
is_one (row ∷ []) = ok true
is_one (row ∷ _ ∷ _) = raise other_error

-- The rows of the SIP at an original location.
unfoldable pub located_at : (location sip_uuid : String) → List FileRow → List FileRow
located_at location sip_uuid [] = []
located_at location sip_uuid (row ∷ rows) =
    let rest = located_at location sip_uuid rows in
    if (row.originallocation == location) && same_type row.sip_id (some sip_uuid)
    then row ∷ rest
    else rest

abbrev pub uuid_of_one : List FileRow → Option String
uuid_of_one (row ∷ []) = some row.uuid
uuid_of_one _ = none

module _ (around : Surroundings) (checker : PolicyChecker) where
  -- `_get_is_manually_normalized_access_derivative`
  abbrev pub is_manual : Bool
  is_manual =
      (checker.file_uuid == "None") && ends "/DIP/objects" (around.os.dirname checker.file_path)

  -- `_file_is_derivative`
  unfoldable pub file_is_derivative : (for_access : Bool) → Database → Result Bool
  unfolding derivations_of
  file_is_derivative for_access db =
      if is_manual
      then ok true
      else is_one (
          derivations_of checker.file_uuid (if for_access then none else some "normalization")
            db.events db.derivations)

  -- `_file_is_for_access`
  abbrev pub is_access : Option FileRow → Bool
  is_access none = false
  is_access (some row) = row.filegrpuse == "access"

  unfoldable pub file_is_for_access : Database → Bool
  unfolding file_model
  file_is_for_access db = is_manual || is_access (file_model checker.file_uuid db.files)

  abbrev pub note_if : Bool → String → World → World
  note_if true s world = printed (s ∷ []) world
  note_if false s world = world

  abbrev pub about_file : String → String
  about_file s = "File " ⧺ checker.file_uuid ⧺ " is not " ⧺ s

  -- The branch "access" of `_we_check_this_type_of_file`.
  abbrev pub checks_access : Bool → Bool → World → Bool × World
  checks_access derivative for_access world = if derivative && for_access then (true, world) else (
    false,
    note_if (not for_access) (about_file "for access.") (
        note_if (not derivative) (about_file "a derivative.")
          (printed (about_file "an access derivative; not performing a policy check." ∷ []) world)),
  )

  -- `_we_check_this_type_of_file`
  unfoldable pub we_check_this_type_of_file : World → Result (Bool × World)
  unfolding file_is_derivative file_is_for_access
  we_check_this_type_of_file world =
      if checker.file_type == "preservation"
      then (file_is_derivative false world.db >>= (λ derivative. ok (
          if not derivative || file_is_for_access world.db
          then (
            false,
            printed (about_file "a preservation derivative; not performing a policy check." ∷ [])
                world,
          )
          else (true, world))))
      else if checker.file_type == "access"
      then (file_is_derivative true world.db
          >>= (λ derivative. ok (checks_access derivative (file_is_for_access world.db) world)))
      else ok (true, world)

  -- `_get_rules`, with the UUID of the original of a derivative that was normalized by hand.
  unfoldable pub rules_file : Database → Option String
  unfolding located_at
  rules_file db =
      if is_manual
      then uuid_of_one (
          located_at
            ("%transferDirectory%objects/manualNormalization/access/"
              ⧺ drop 37 (around.os.basename checker.file_path))
            checker.sip_uuid db.files)
      else some checker.file_uuid

  -- `_get_policies_dir`
  abbrev pub policies_dir : Result String
  policies_dir = elim checker.shared_path [
    | none ↦ raise type_error
    | some shared_path ↦ ok (around.os.join shared_path ("policies" ∷ []))
  ]

  -- `_get_command_to_execute`
  abbrev pub script_command : (dir : String) → Rule → Result (String × List String)
  script_command dir rule = ok (rule.command, checker.file_path ∷ dir ∷ [])

  abbrev pub text_command : Rule → Result (String × List String)
  text_command rule = around.replaced rule.command >>= (λ command. ok (command, []))

  abbrev pub get_command_to_execute :
      (dir : String) → ScriptType → Rule → Result (String × List String)
  get_command_to_execute dir bash_script rule = text_command rule
  get_command_to_execute dir command_line rule = text_command rule
  get_command_to_execute dir as_is rule = script_command dir rule
  get_command_to_execute dir python_script rule = script_command dir rule

  abbrev pub text_or_empty : Option String → String
  text_or_empty none = ""
  text_or_empty (some s) = s

  -- The event of a check; a derivative that was normalized by hand gets none.
  unfoldable pub insert_event : (detail : String) → Dict String → World → Result World
  unfolding lookup insert_into_events
  insert_event detail output world =
      if is_manual
      then ok world
      else (insert_into_events around.storage checker.file_uuid "" "validation" around.now detail
            (text_or_empty (lookup "eventOutcomeInformation" output))
            (text_or_empty (lookup "eventOutcomeDetailNote" output)) world.db
          >>= (λ db. ok (record world { db = db })))

  abbrev pub passes : Option String → Bool
  passes none = false
  passes (some outcome) = outcome == "pass"

  abbrev pub noted : Bool → Rule → Dict String → World → World
  noted true rule output world = world
  noted false rule output world =
      complained
        (("Command "
            ⧺ rule.description
            ⧺ " returned a non-pass outcome for the policy check;\n\noutcome: "
            ⧺ text_or_empty (lookup "eventOutcomeInformation" output)
            ⧺ "\n\ndetails: "
            ⧺ text_or_empty (lookup "eventOutcomeDetailNote" output)
            ⧺ ".")
          ∷ [])
        world

  -- A command without a tool fails.
  pub with_tool : Option (String × String) → Rule → Dict String → World → Result (Bool × World)
  unfolding insert_event lookup
  with_tool none rule output world = ok (false, world)
  with_tool (some tool) rule output world =
      insert_event ("program=\"" ⧺ tool.0 ⧺ "\"; version=\"" ⧺ tool.1 ⧺ "\"") output (
        printed
          (("Creating policy checking event for " ⧺ checker.file_path ⧺ " (" ⧺ checker.file_uuid
              ⧺ ")")
            ∷ [])
          (noted (passes (lookup "eventOutcomeInformation" output)) rule output world))
      >>= (λ inserted. ok (passes (lookup "eventOutcomeInformation" output), inserted))

  -- `_execute_rule_command` from its output on: whether the rule passed.
  pub outcome : Rule → ExecutionResult → Option (Dict String) → World → Result (Bool × World)
  unfolding with_tool
  outcome rule result none world = raise value_error
  outcome rule (exitstatus, (stdout, stderr)) (some output) world =
      if is_nonzero exitstatus
      then ok (
        false,
        complained
            (("Command "
                ⧺ rule.description
                ⧺ " failed with exit status "
                ⧺ show_code (some exitstatus)
                ⧺ "; stderr:")
              ∷ stderr
              ∷ [])
            world,
      )
      else with_tool rule.tool rule output (
          printed (("Command " ⧺ rule.description ⧺ " completed with output " ⧺ stdout) ∷ []) world)

  unfoldable pub execute_rule_command : (dir : String) → Rule → World → Result (Bool × World)
  unfolding execute_or_run outcome
  execute_rule_command dir rule world = do
    found ← get_command_to_execute dir rule.script_type rule
    let announced = printed ("Running" ∷ rule.description ∷ []) world in
        let (called, files) =
          execute_or_run around.machine rule.script_type (text found.0) "" found.1 [] true
            announced.files in
        do
          result ← called
          outcome rule result (around.loads result.1.0) (record announced { files = files })

  -- Every rule is executed; the check passes if all do.
  unfoldable pub execute_all : (dir : String) → List Rule → World → Result (Bool × World)
  unfolding execute_rule_command
  execute_all dir [] world = ok (true, world)
  execute_all dir (rule ∷ rules) world = do
    executed ← execute_rule_command dir rule world
    others ← execute_all dir rules executed.1
    ok (executed.0 && others.0, others.1)

  abbrev pub code_of : Bool × World → ℤ × World
  code_of (passed, world) = (if passed then pos 0 else pos 1, world)

  pub check_rules : (dir : String) → List Rule → World → Result (ℤ × World)
  unfolding execute_all
  check_rules dir [] world = ok (
    pos 0,
    printed ("Not performing a policy check because there are no relevant FPR rules." ∷ []) world,
  )
  check_rules dir (rule ∷ rules) world =
      execute_all dir (rule ∷ rules) world >>= (λ executed. ok (code_of executed))

  pub check_if : (dir : String) → Bool × World → Result (ℤ × World)
  unfolding check_rules rules_file
  check_if dir (false, world) = ok (pos 0, world)
  check_if dir (true, world) = do
    rules ← around.rules (rules_file world.db)
    check_rules dir rules world

  abbrev pub is_known : Option FileRow → Bool
  is_known none = false
  is_known (some row) = true

  -- `main`: the constructor and `check`.
  unfoldable pub check : World → Result (ℤ × World)
  unfolding we_check_this_type_of_file check_if file_model
  check world = do
    dir ← policies_dir
    (if is_manual || is_known (file_model checker.file_uuid world.db.files)
        then we_check_this_type_of_file world >>= (λ checked. check_if dir checked)
        else ok (
          pos 0,
          printed
              (("Not performing a policy check because there is no file with UUID "
                  ⧺ checker.file_uuid ⧺ ".")
                ∷ [])
              world,
        ))

  -- `call`, of one job: a `ValueError` is a failure, and the context handles the others.
  pub ended : (Exception → String × String) → World → Result (ℤ × World) → World
  ended texts world (ok (code, after)) = record after { job = set_status code "success" after.job }
  ended texts world (raise value_error) = record world {
    job = set_status (pos 1) "success" world.job;
  }
  ended texts world (raise e) = record world { job = job_context (some (texts e)) world.job }
