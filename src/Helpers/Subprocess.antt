-- ===== src/Helpers/Subprocess.antt =====
-- a3m/executeOrRunSubProcess.py: the commands that the scripts run. `shlex.split` and the processes are
-- parameters. A process sees the files, the environment and its input, and changes the files; a
-- temporary file has the name that `tempfile` gives it. The output is text: its decoding, and what
-- is printed, are not modelled. An error other than `OSError` comes from `shlex.split` only, since
-- the input is a text here.
use Prim.Native.String.{◌++◌ as ◌⧺◌}
use a3m.Common.{
  String, Bool, true, false, ◌==◌, Option, none, some, List, [], ◌∷◌, ◌++◌, if◌then◌else◌, Result,
  ok, raise, value_error,
}
use a3m.Common.Dict.{Dict, insert, update, lookup, remove}
use a3m.Common.Int.{ℤ, negsuc, is_nonzero}
use a3m.Client.{join}

-- `CommandScriptType`
pub data ScriptType : Type 0 where
  as_is bash_script command_line python_script : ScriptType

-- `SubprocessCommand`: a text, or the words of a command.
pub data SubprocessCommand : Type 0 where
  text : String → SubprocessCommand
  words : List String → SubprocessCommand

-- The exit code, what was written to stdout, and to stderr.
abbrev pub ExecutionResult : Type 0
ExecutionResult = ℤ × (String × String)

-- What `Popen` and `communicate` come to: a process that ended, or an `OSError` with its text.
pub data Process : Type 0 where
  ended : ℤ → (stdout stderr : String) → Dict String → Process
  os_error : String → Process

pub record Machine : Type 0 where
  pub environ : Dict String
  pub split : String → Option (List String)
  pub characters : String → List String
  pub temporary : Dict String → String
  pub popen : List String → (env : Dict String) → (stdin : String) → (files : Dict String) → Process

-- `my_env["LANG"]` and `my_env["LANGUAGE"]`, where they are missing or empty.
unfoldable pub set_default : String → String → Dict String → Dict String
unfolding lookup insert
set_default key value env = elim (lookup key env) [
  | none ↦ insert key value env
  | some v ↦ (if v == "" then insert key value env else env)
]

abbrev pub get_or : String → Option String → String
get_or value none = value
get_or value (some v) = v

unfoldable pub environment : Dict String → Dict String → Dict String
unfolding set_default update
environment environ env_updates =
    let my_env = set_default "LANG" "en_US.UTF-8" (insert "PYTHONIOENCODING" "utf-8" environ) in
    update (set_default "LANGUAGE" (get_or "" (lookup "LANG" my_env)) my_env) env_updates

module _ (machine : Machine) where
  -- The words of the command; the arguments are for a command of words only.
  unfoldable pub words_of : SubprocessCommand → List String → Option (List String)
  words_of (text s) arguments = machine.split s
  words_of (words ws) arguments = some (ws ++ arguments)

  -- `" ".join(command)`, of a text too: with a space between any two characters.
  unfoldable pub joined : SubprocessCommand → String
  joined (text s) = join " " (machine.characters s)
  joined (words ws) = join " " ws

  pub completed : Bool → Dict String → Process → ExecutionResult × Dict String
  completed true files (ended retcode stdout stderr files') = ((retcode, (stdout, stderr)), files')
  completed false files (ended retcode stdout stderr files') =
      ((retcode, ("", if is_nonzero retcode then stderr else "")), files')
  completed capture_output files (os_error message) =
      ((negsuc 0, ("Config Error!", message)), files)

  pub launched :
      SubprocessCommand
      → Option (List String)
      → (stdin : String) → Dict String
      → Bool
      → Dict String
      → ExecutionResult × Dict String
  unfolding completed
  launched command none stdin env_updates capture_output files =
      ((negsuc 0, ("Execution failed:", joined command)), files)
  launched command (some found) stdin env_updates capture_output files =
      completed capture_output files
        (machine.popen found (environment machine.environ env_updates) stdin files)

  -- `launchSubProcess`, with the files before and after.
  unfoldable pub launch_sub_process :
      SubprocessCommand
      → (stdin : String) → List String
      → Dict String
      → Bool
      → Dict String
      → ExecutionResult × Dict String
  unfolding launched
  launch_sub_process command stdin arguments env_updates capture_output files =
      launched command (words_of command arguments) stdin env_updates capture_output files

  unfoldable pub source_of : SubprocessCommand → String
  source_of (text s) = s
  source_of (words ws) = join "" ws

  -- `createAndRunScript`: the script is written to a temporary file, run and removed.
  unfoldable pub create_and_run_script :
      SubprocessCommand
      → List String
      → Dict String
      → Bool
      → Dict String
      → ExecutionResult × Dict String
  unfolding launch_sub_process insert remove
  create_and_run_script command arguments env_updates capture_output files =
      let name = machine.temporary files in
      let ran =
        launch_sub_process (words (name ∷ arguments)) "" [] env_updates capture_output
          (insert name (source_of command) files) in
      (ran.0, remove name ran.1)

  -- The script with its first line; a command of words raises.
  unfoldable pub with_shebang : String → SubprocessCommand → Option SubprocessCommand
  with_shebang shebang (text s) = some (text (shebang ⧺ s))
  with_shebang shebang (words ws) = none

  pub run_script :
      Option SubprocessCommand
      → List String
      → Dict String
      → Bool
      → Dict String
      → Result ExecutionResult × Dict String
  unfolding create_and_run_script
  run_script none arguments env_updates capture_output files = (raise value_error, files)
  run_script (some command) arguments env_updates capture_output files =
      let ran = create_and_run_script command arguments env_updates capture_output files in
      (ok ran.0, ran.1)

  -- `executeOrRun`
  unfoldable pub execute_or_run :
      ScriptType
      → SubprocessCommand
      → (stdin : String) → List String
      → Dict String
      → Bool
      → Dict String
      → Result ExecutionResult × Dict String
  unfolding run_script with_shebang
  execute_or_run command_line command stdin arguments env_updates capture_output files =
      let ran = launch_sub_process command stdin arguments env_updates capture_output files in
      (ok ran.0, ran.1)
  execute_or_run bash_script command stdin arguments env_updates capture_output files =
      run_script (with_shebang "#!/bin/bash\n" command) arguments env_updates capture_output files
  execute_or_run python_script command stdin arguments env_updates capture_output files =
      run_script (with_shebang "#!/usr/bin/env python\n" command) arguments env_updates
        capture_output files
  execute_or_run as_is command stdin arguments env_updates capture_output files =
      run_script (some command) arguments env_updates capture_output files
