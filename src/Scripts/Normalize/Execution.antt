-- ===== src/Scripts/Normalize/Execution.antt =====
-- The class `Executor` of a3m/client/clientScripts/normalize.py. A command comes with the commands that
-- verify it and describe its event. All executors share one dictionary of variables, to which each adds its
-- output location when it is made.
use a3m.Common.{
  String, Bool, true, false, ◌==◌, Option, none, some, List, [], ◌∷◌, if◌then◌else◌, Result, ok,
  raise, ◌>>=◌,
}
use Prim.Native.String.{◌++◌ as ◌⧺◌}
use a3m.Common.Dict.{Dict, insert}
use a3m.Common.Int.{ℤ, pos, is_nonzero, show_code}
use a3m.Client.{Job, print_output, print_error, write_output, write_error}
use a3m.Helpers.Variables.{replace_variables, to_gnu_options}
use a3m.Helpers.Subprocess.{
  ScriptType, as_is, bash_script, command_line, python_script, text, ExecutionResult, Machine,
  execute_or_run,
}
use a3m.Helpers.Database.{Database}

-- `label` is `str(command)`; `output_format` may be no attribute, or `None`, or a format with its description.
pub record Details : Type 0 where
  pub id : String
  pub label : String
  pub command : String
  pub script_type : ScriptType
  pub output_location : String
  pub description : String
  pub output_format : Option (Option (String × String))

pub data Command : Type 0 where
  no_command : Command
  fp_command : Details → (verification event_detail : Command) → Command

-- An executor, with its output location, or `None`.
pub data Executor : Type 0 where
  no_executor : Executor
  executor :
      Details → (output_location : String) → (verification event_detail : Executor) → Executor

-- The job, the files, the tables, and the rows of `FileFormatVersion` and `FileID`.
pub record World : Type 0 where
  pub job : Job
  pub files : Dict String
  pub db : Database
  pub versions : List (String × String)
  pub format_names : List (String × String)

-- What is left in an executor, and in that of its event detail.
pub record Ran : Type 0 where
  pub exit_code : ℤ
  pub std_out : String
  pub event_std_out : Option String

pub record Shell : Type 0 where
  pub machine : Machine
  pub lower : String → String

-- `Executor.__init__`
unfoldable pub init : Command → Dict String → Executor × Dict String
unfolding replace_variables insert
init no_command variables = (no_executor, variables)
init (fp_command details verification event_detail) variables =
    let location =
      if details.output_location == ""
      then ""
      else replace_variables variables details.output_location in
    let located =
      if details.output_location == ""
      then variables
      else insert "%outputLocation%" location variables in
    let verified = init verification located in
    let detailed = init event_detail verified.1 in
    (executor details location verified.0 detailed.0, detailed.1)

-- The command of a script or a command line has its variables replaced; the others take options.
abbrev pub interpolated : ScriptType → Bool
interpolated command_line = true
interpolated bash_script = true
interpolated as_is = false
interpolated python_script = false

unfoldable pub command_of : Dict String → Details → String
unfolding replace_variables
command_of variables details =
    if interpolated details.script_type
    then replace_variables variables details.command
    else details.command

unfoldable pub arguments_of : (lower : String → String) → Dict String → Details → List String
unfolding to_gnu_options
arguments_of lower variables details =
    if interpolated details.script_type then [] else to_gnu_options lower variables

abbrev pub label_of : (command output_location : String) → Details → String
label_of command output_location details =
    "[COMMAND] " ⧺ details.label ⧺ "\n\tExecuting: " ⧺ command ⧺ "\n\tOutput location: "
    ⧺ output_location ⧺ "\n"

-- `str(self.verification_command)`, before its variables are replaced.
unfoldable pub executor_label : Executor → String
executor_label no_executor = "None"
executor_label (executor details location verification event_detail) =
    label_of details.command location details

abbrev pub print : List String → World → World
print objects world = record world { job = print_output objects world.job }

-- What the process leaves: its output in the job's, and the files.
unfoldable pub after_call :
    World → Result ExecutionResult × Dict String → Result (ExecutionResult × World)
after_call world (raise e, files) = raise e
after_call world (ok result, files) =
    let written = write_error result.1.1 (write_output result.1.0 world.job) in
    ok (
      result,
      print ("Command exit code:" ∷ show_code (some result.0) ∷ [])
          (print ("-----" ∷ []) (record world { job = written; files = files })),
    )

-- The first part of `execute`: the command itself.
unfoldable pub execute_command :
    Shell → Dict String → Details → World → Result (ExecutionResult × World)
unfolding execute_or_run command_of arguments_of after_call
execute_command shell variables details world =
    let command = command_of variables details in
    let printed =
      print ("Command stdout:" ∷ [])
        (print ("-----" ∷ []) (print ("Command to execute:" ∷ command ∷ []) world)) in
    after_call printed (
      execute_or_run shell.machine details.script_type (text command) ""
        (arguments_of shell.lower variables details) [] true printed.files)

-- The output of the event detail's executor, if there is one: empty where it has not run.
abbrev pub std_out_of : Executor → Option String
std_out_of no_executor = none
std_out_of (executor details location verification event_detail) = some ""

abbrev pub print_failure : Details → (std_out std_err : String) → ℤ → World → World
print_failure details std_out std_err exit_code world =
    if is_nonzero exit_code
    then record world {
      job = print_error ("Standard error:" ∷ std_err ∷ []) (
          print_error ("Standard out:" ∷ std_out ∷ [])
            (print_error ("Failed:" ∷ details.label ∷ []) world.job));
    }
    else world

-- The verification, after a command with exit code 0: its exit code counts.
abbrev pub after_verification :
    Bool → Executor → ℤ → World → Result (Ran × World) → Result (ℤ × World)
after_verification b no_executor exit_code world verified = ok (exit_code, world)
after_verification true (executor details location v e) exit_code world verified =
    ok (exit_code, world)
after_verification false (executor details location v e) exit_code world verified = do
  ran ← verified
  ok (
    ran.0.exit_code,
    print ("Verification Command exit code:" ∷ show_code (some ran.0.exit_code) ∷ [])
        (print ("-----" ∷ []) ran.1),
  )

-- The event detail, after the exit code 0: its own exit code does not count.
abbrev pub after_event_detail :
    Bool → Executor → World → Result (Ran × World) → Result (Option String × World)
after_event_detail b no_executor world detailed = ok (none, world)
after_event_detail true (executor details location v e) world detailed = ok (some "", world)
after_event_detail false (executor details location v e) world detailed = do
  ran ← detailed
  ok (some ran.0.std_out, ran.1)

abbrev pub announce_verification : Executor → World → World
announce_verification verification world = print ("Command stdout:" ∷ []) (
    print ("-----" ∷ [])
      (print ("Running verification command" ∷ executor_label verification ∷ []) world))

-- `execute`, without its callback.
unfoldable pub run : Shell → Dict String → Executor → World → Result (Ran × World)
unfolding execute_command executor_label
run shell variables no_executor world =
    ok (record { exit_code = pos 0; std_out = ""; event_std_out = none }, world)
run shell variables (executor details location verification event_detail) world = do
  executed ← execute_command shell variables details world
  let (exit_code, (std_out, std_err)) = executed.0 in
      do
        verified ←
            after_verification (is_nonzero exit_code) verification exit_code executed.1
              (run shell variables verification (announce_verification verification executed.1))
        detailed ← after_event_detail (is_nonzero verified.0) event_detail verified.1 (
            run shell variables event_detail (
              print ("Running event detail command" ∷ executor_label event_detail ∷ []) verified.1))
        ok (
          record { exit_code = verified.0; std_out = std_out; event_std_out = detailed.0 },
          print_failure details std_out std_err verified.0 detailed.1,
        )
