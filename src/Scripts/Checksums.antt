-- ===== src/Scripts/Checksums.antt =====
-- a3m/client/clientScripts/verify_checksum.py: the checksums that come with a transfer. What is on
-- disk, and the outcome of a hashsum command (`subprocess.check_output`), are fields of `Transfer`.
-- What the job prints is text on its standard output or error.
-- The children: Outcome (theorems), Tests.
pub mod Outcome
mod Tests
use a3m.Common.{
  ℕ, zero, suc, String, Bool, true, false, not, ◌&&◌, ◌||◌, ◌==◌, nat_eq, Option, none, some, List,
  [], ◌∷◌, ◌++◌, if◌then◌else◌, length, ◌+◌, Exception, other_error, Result, ok, raise,
}
use Prim.Native.String.{◌++◌ as ◌⧺◌}
use a3m.Common.Int.{ℤ, pos, ◌+ℤ◌, is_nonzero, show, show_code}
use a3m.Common.Text.{replace, contains, starts, ends}
use a3m.Client.{Job, join, write_output, write_error}
use a3m.Packages.{OsPath}

-- `HASHFILES_COMMANDS`
abbrev pub hashfiles_commands : List (String × String)
hashfiles_commands =
    ("checksum.md5", "md5sum")
    ∷ ("checksum.sha1", "sha1sum")
    ∷ ("checksum.sha256", "sha256sum")
    ∷ ("checksum.sha512", "sha512sum")
    ∷ []

-- `hashsum -c --strict`: it exits with 0, or `CalledProcessError` has the exit code and the output.
pub data Check : Type 0 where
  passed : Check
  failed : (returncode : ℤ) (output : List String) → Check

-- The transfer as the script meets it: its directory, its checksum files by path, with their lines, the files of each
-- directory below its objects, its rows of `models.File`, and the commands' outcomes.
pub record Transfer : Type 0 where
  pub transfer_dir : String
  pub exists : String → Bool
  pub lines : String → List String
  pub walked : List (List String)
  pub file_uuids : List String
  pub check : String → Check
  pub version : String → Option String
  -- `shlex.split`
  pub shlex_split : String → List String

-- `_count_lines`: the last number of the enumeration and one, 0 where there is no line.
abbrev pub last_index : ℕ → List String → ℕ
last_index count [] = count
last_index count (line ∷ []) = count
last_index count (line ∷ rest) = last_index (suc count) rest

unfoldable pub count_lines : List String → ℕ
count_lines lines = last_index zero lines + 1

unfoldable pub count_files : List (List String) → ℕ
count_files [] = 0
count_files (files ∷ rest) = length files + count_files rest

-- `job.pyprint(s, file=sys.stderr)`, and without the file.
abbrev pub print_stderr : String → Job → Job
print_stderr s job = write_error (s ⧺ "\n") job

abbrev pub print_stdout : String → Job → Job
print_stdout s job = write_output (s ⧺ "\n") job

-- An event for each file of the transfer, with the command's detail.
unfoldable pub write_premis_event_per_file : String → List String → List (String × String)
write_premis_event_per_file event_detail [] = []
write_premis_event_per_file event_detail (file_uuid ∷ rest) =
    (file_uuid, event_detail) ∷ write_premis_event_per_file event_detail rest

-- What the loop keeps: the job, the sum of the codes, and the events.
pub record Run : Type 0 where
  pub job : Job
  pub ret : ℤ
  pub events : List (String × String)

module _ (os : OsPath) (transfer : Transfer) where
  -- `get_ext`
  abbrev pub get_ext : String → String
  get_ext path =
      let (root, ext) = os.splitext path in if ext == "" then path else replace ext "." ""

  unfoldable pub count_and_compare_lines : String → Job → Bool × Job
  count_and_compare_lines hashfile job =
      let lines = count_lines (transfer.lines hashfile) in
      let objects = count_files transfer.walked in
      if nat_eq lines objects then (true, job) else (
        false,
        print_stderr
            (get_ext hashfile
              ⧺ ": Comparison failed with "
              ⧺ show lines
              ⧺ " checksum lines and "
              ⧺ show objects
              ⧺ " transfer files")
            job,
      )

  -- The loop over the lines of a failed command's output.
  abbrev pub print_line : String → String → Job → Job
  print_line ext line job =
      if line == "" || ends ": OK" line
      then job
      else let reported =
          if ends ": FAILED" line
            || contains "no properly formatted" line
            || contains "improperly formatted" line
          then print_stderr (ext ⧺ ": " ⧺ line) job
          else job in
        if ends ": FAILED open or read" line
        then print_stderr (ext ⧺ ": " ⧺ line) reported
        else reported

  unfoldable pub print_lines : String → List String → Job → Job
  print_lines ext [] job = job
  print_lines ext (line ∷ rest) job = print_lines ext rest (print_line ext line job)

  -- The exit code of a command and what is printed of it; `str(err)` ends with the code.
  pub checked : String → Check → Job → ℤ × Job
  checked hashfile passed job = (pos 0, job)
  checked hashfile (failed returncode output) job =
      let warned =
        if starts "1" (show_code (some returncode))
        then print_stderr
            (get_ext hashfile
              ⧺ ": comparison exited with status: "
              ⧺ show_code (some returncode)
              ⧺ ". Please check the formatting of the checksums or integrity of the files.")
            job
        else job in
      (returncode, print_lines (get_ext hashfile) output warned)

  pub compared : String → Bool × Job → ℤ × Job
  unfolding checked
  compared hashfile (false, job) = (pos 1, job)
  compared hashfile (true, job) = checked hashfile (transfer.check hashfile) job

  unfoldable pub compare_hashes : String → Job → ℤ × Job
  unfolding compared
  compare_hashes hashfile job = compared hashfile (count_and_compare_lines hashfile job)

  -- `version`: the first line of the output, or the command's name where that fails.
  abbrev pub version : String → String
  version command = elim (transfer.version command) [ none ↦ command | some line ↦ line ]

  -- The command that was called last, with the path of the checksum file: asking for the version calls
  -- the command again, but its text is joined before.
  abbrev pub get_command_detail : String → String → String
  get_command_detail hashfile command =
      "program=\""
      ⧺ join " " (transfer.shlex_split (command ⧺ " -c --strict " ⧺ hashfile))
      ⧺ "\"; version=\""
      ⧺ version command
      ⧺ "\""

  -- `hashfilepath`
  abbrev pub hashfile_path : String → String
  hashfile_path hashfile = os.join transfer.transfer_dir ("metadata" ∷ hashfile ∷ [])

  -- A checksum file that was compared: the events on success, else its code is added.
  pub after_compare : String → String → ℤ → Run → Run
  after_compare hashfile command result run =
      if is_nonzero result then record run { ret = run.ret +ℤ result } else record run {
        job = print_stdout (get_ext hashfile ⧺ ": Comparison was OK") run.job;
        events =
            run.events
            ++ write_premis_event_per_file (get_command_detail (hashfile_path hashfile) command)
                transfer.file_uuids;
      }

  -- The body of the loop over the kinds of checksum files.
  pub verify_present : Bool → String → String → Run → Run
  unfolding after_compare
  verify_present false hashfile command run = run
  verify_present true hashfile command run =
      let printed =
        print_stderr
          ("Comparing transfer checksums with the supplied "
            ⧺ get_ext (hashfile_path hashfile)
            ⧺ " file")
          run.job in
      let (result, job) = compare_hashes (hashfile_path hashfile) printed in
      after_compare hashfile command result (record run { job = job })

  unfoldable pub verify_all : List (String × String) → Run → Run
  unfolding verify_present
  verify_all [] run = run
  verify_all ((hashfile, command) ∷ rest) run =
      verify_all rest
        (verify_present (transfer.exists (hashfile_path hashfile)) hashfile command run)

  abbrev pub start_run : Job → Run
  start_run job = record { job = job; ret = pos 0; events = [] }

  -- `get_file_queryset` raises `PREMISFailure` where the transfer has no rows.
  pub verify_files : List String → Job → Result Run
  verify_files [] job = raise other_error
  verify_files (file_uuid ∷ rest) job = ok (verify_all hashfiles_commands (start_run job))

  -- `run_hashsum_commands` for a job that has its arguments.
  unfoldable pub run_hashsum_commands : Job → Result Run
  unfolding verify_files
  run_hashsum_commands job = verify_files transfer.file_uuids job
