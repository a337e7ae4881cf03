-- ===== src/Scripts/Checksums/Outcome.antt =====
-- The exit code and the events of a3m/client/clientScripts/verify_checksum.py.
use Prim.Native.String.{◌++◌ as ◌⧺◌}
use a3m.Common.{
  ℕ, zero, suc, String, ◌≡◌, ◌≢◌, refl, sym, ap, ◌∙◌, Bool, true, false, not, ◌&&◌, ◌||◌, List, [],
  ◌∷◌, ◌++◌, arith, nat_eq, length, ◌+◌, ok, raise-ne-ok, ok-injective,
}
use mathlib.Core.Path.{subst}
use mathlib.Core.List.{append_assoc, append-nil}
use a3m.Common.Int.{ℤ, pos, negsuc, ◌+ℤ◌, is_nonzero, is_positive}
use a3m.Client.{Job}
use a3m.Packages.{OsPath}
use a3m.Scripts.Checksums.{
  hashfiles_commands, Check, passed, failed, Transfer, count_lines, count_files,
  count_and_compare_lines, checked, compared, compare_hashes, write_premis_event_per_file,
  hashfile_path, last_index, get_command_detail, Run, after_compare, verify_present, verify_all,
  run_hashsum_commands, verify_files, start_run, print_stderr, get_ext,
}

-- The number of lines of a checksum file, where an empty file counts as one line.
abbrev pub lines_counted : List String → ℕ
lines_counted [] = 1
lines_counted (line ∷ rest) = length (line ∷ rest)

last_index-length :
    (count : ℕ) (line : String) (rest : List String)
    → last_index count (line ∷ rest) ≡ count + length rest
last_index-length count line [] = ground arith
last_index-length count line (next ∷ rest) = ground (arith, last_index-length (suc count) next rest)

count_lines-counted : (lines : List String) → count_lines lines ≡ lines_counted lines
unfolding count_lines
count_lines-counted [] = refl
count_lines-counted (line ∷ rest) = ground (arith, last_index-length 0 line rest)

module _ (os : OsPath) (transfer : Transfer) where
  abbrev is_passed : Check → Bool
  is_passed passed = true
  is_passed (failed returncode output) = false

  -- A checksum file agrees: it has a line for each file, and the command finds no difference.
  abbrev pub agrees : String → Bool
  agrees hashfile =
      nat_eq (lines_counted (transfer.lines hashfile)) (count_files transfer.walked)
      && is_passed (transfer.check hashfile)

  -- Every checksum file that is there agrees.
  abbrev pub all_agree : List (String × String) → Bool
  all_agree [] = true
  all_agree ((hashfile, command) ∷ rest) =
      (not (transfer.exists (hashfile_path os transfer hashfile))
        || agrees (hashfile_path os transfer hashfile))
      && all_agree rest

  abbrev pub event_if : Bool → String → String → List (String × String) → List (String × String)
  event_if false hashfile command events = events
  event_if true hashfile command events =
      write_premis_event_per_file
        (get_command_detail os transfer (hashfile_path os transfer hashfile) command)
        transfer.file_uuids
      ++ events

  -- The events of the checksum files that are there and agree.
  abbrev pub agreed_events : List (String × String) → List (String × String)
  agreed_events [] = []
  agreed_events ((hashfile, command) ∷ rest) =
      event_if
        (transfer.exists (hashfile_path os transfer hashfile)
          && agrees (hashfile_path os transfer hashfile))
        hashfile command (agreed_events rest)

  -- A command that fails has a positive exit code: it is not killed by a signal.
  abbrev pub FailsPositive : Type 0
  FailsPositive =
      (hashfile : String) (returncode : ℤ) (output : List String)
      → transfer.check hashfile ≡ failed returncode output
      → is_positive returncode ≡ true

  -- The code of a comparison: a number that is 0 just if the file agrees.
  abbrev Codes : Bool → ℤ → Type 0
  Codes agreed code = (n : ℕ) × (code ≡ pos n) × (nat_eq n 0 ≡ agreed)

  checked-Codes :
      (hashfile : String) (check : Check) (job : Job)
      → ((returncode : ℤ) (output : List String)
          → check ≡ failed returncode output
          → is_positive returncode ≡ true)
      → Codes (is_passed check) (checked os transfer hashfile check job).0
  unfolding checked
  checked-Codes hashfile passed job h = (0, refl, refl)
  checked-Codes hashfile (failed (pos n) output) job h =
      (n, refl, positive n (h (pos n) output refl))
    where
      positive : (k : ℕ) → is_positive (pos k) ≡ true → nat_eq k 0 ≡ false
      positive zero e = ground arith
      positive (suc k) e = ground arith
  checked-Codes hashfile (failed (negsuc n) output) job h =
      absurd (differ (h (negsuc n) output refl))
    where
      differ : false ≢ true
      differ e = cc

  compared-Codes :
      (hashfile : String) (same : Bool) (job : Job)
      → FailsPositive
      → Codes
          (same && is_passed (transfer.check hashfile))
          (compared os transfer hashfile (same, job)).0
  unfolding compared
  compared-Codes hashfile false job h = (1, refl, refl)
  compared-Codes hashfile true job h =
      checked-Codes hashfile (transfer.check hashfile) job
        (λ returncode output e. h hashfile returncode output e)

  same_lines :
      (hashfile : String) (job : Job)
      → (count_and_compare_lines os transfer hashfile job).0
        ≡ nat_eq (lines_counted (transfer.lines hashfile)) (count_files transfer.walked)
  unfolding count_and_compare_lines
  same_lines hashfile job = ground (arith, count_lines-counted (transfer.lines hashfile))

  compare_hashes-Codes :
      (hashfile : String) (job : Job)
      → FailsPositive
      → Codes (agrees hashfile) (compare_hashes os transfer hashfile job).0
  unfolding compare_hashes
  compare_hashes-Codes hashfile job h =
      subst
        (λ b.
          Codes (b && is_passed (transfer.check hashfile))
            (compare_hashes os transfer hashfile job).0)
        (same_lines hashfile job)
        (compared-Codes hashfile (count_and_compare_lines os transfer hashfile job).0
          (count_and_compare_lines os transfer hashfile job).1 h)

  magnitude : ℤ → ℕ
  magnitude (pos n) = n
  magnitude (negsuc n) = n

  negative : (c k : ℕ) → negsuc c ≢ pos k
  negative c k e = cc

  -- What a run comes to: its code and its events, from those before.
  abbrev Reaches : ℕ → List (String × String) → Bool → List (String × String) → Run → Type 0
  Reaches n events agreed own run =
      (m : ℕ) × (run.ret ≡ pos m)
      × (nat_eq m 0 ≡ (nat_eq n 0 && agreed))
      × (run.events ≡ events ++ own)

  after_compare-Reaches :
      (hashfile command : String) (agreed : Bool) (result : ℤ) (n : ℕ) (run : Run)
      → Codes agreed result
      → run.ret ≡ pos n
      → Reaches n run.events agreed
          (event_if agreed hashfile command [])
          (after_compare os transfer hashfile command result run)
  unfolding after_compare magnitude
  after_compare-Reaches hashfile command true (pos zero) n run (k, e, z) r =
      (n, r, ground arith, ap (λ l. run.events ++ l) (sym (append-nil _)))
  after_compare-Reaches hashfile command true (pos (suc c)) n run (k, e, z) r =
      absurd (ground (arith, ap magnitude e, z))
  after_compare-Reaches hashfile command true (negsuc c) n run (k, e, z) r = absurd (negative c k e)
  after_compare-Reaches hashfile command false (pos zero) n run (k, e, z) r =
      absurd (ground (arith, ap magnitude e, z))
  after_compare-Reaches hashfile command false (pos (suc c)) n run (k, e, z) r =
      (n + suc c, ap (λ x. x +ℤ pos (suc c)) r, ground arith, sym (append-nil run.events))
  after_compare-Reaches hashfile command false (negsuc c) n run (k, e, z) r =
      absurd (negative c k e)

  verify_present-Reaches :
      (hashfile command : String) (present : Bool) (n : ℕ) (run : Run)
      → FailsPositive
      → run.ret ≡ pos n
      → Reaches n run.events
          (not present || agrees (hashfile_path os transfer hashfile))
          (event_if (present && agrees (hashfile_path os transfer hashfile)) hashfile command [])
          (verify_present os transfer present hashfile command run)
  unfolding verify_present
  verify_present-Reaches hashfile command false n run h r =
      (n, r, ground arith, sym (append-nil run.events))
  verify_present-Reaches hashfile command true n run h r =
      let printed =
        print_stderr
          ("Comparing transfer checksums with the supplied "
            ⧺ get_ext os transfer (hashfile_path os transfer hashfile)
            ⧺ " file")
          run.job in
      let compared_ = compare_hashes os transfer (hashfile_path os transfer hashfile) printed in
      after_compare-Reaches hashfile command (agrees (hashfile_path os transfer hashfile))
        compared_.0 n (record run { job = compared_.1 })
        (compare_hashes-Codes (hashfile_path os transfer hashfile) printed h) r

  abbrev own : String → String → List (String × String)
  own hashfile command =
      write_premis_event_per_file
        (get_command_detail os transfer (hashfile_path os transfer hashfile) command)
        transfer.file_uuids

  event_if-append :
      (b : Bool) (hashfile command : String) (events rest : List (String × String))
      → (events ++ event_if b hashfile command []) ++ rest
        ≡ events ++ event_if b hashfile command rest
  event_if-append true hashfile command events rest =
      ap (λ l. (events ++ l) ++ rest) (append-nil (own hashfile command))
      ∙ append_assoc events (own hashfile command) rest
  event_if-append false hashfile command events rest = ap (λ l. l ++ rest) (append-nil events)

  verify_all-Reaches :
      (kinds : List (String × String)) (n : ℕ) (run : Run)
      → FailsPositive
      → run.ret ≡ pos n
      → Reaches n run.events
          (all_agree kinds)
          (agreed_events kinds)
          (verify_all os transfer kinds run)
  unfolding verify_all
  verify_all-Reaches [] n run h r = (n, r, ground arith, sym (append-nil run.events))
  verify_all-Reaches ((hashfile, command) ∷ rest) n run h r =
      let here =
        verify_present os transfer (transfer.exists (hashfile_path os transfer hashfile)) hashfile
          command run in
      let (m, e, z, events) =
        verify_present-Reaches hashfile command
          (transfer.exists (hashfile_path os transfer hashfile)) n run h r in
      let (m', e', z', events') = verify_all-Reaches rest m here h e in
      (
        m',
        e',
        z'
            ∙ ap (λ b. b && all_agree rest) z
            ∙ both (nat_eq n 0)
                (not (transfer.exists (hashfile_path os transfer hashfile))
                  || agrees (hashfile_path os transfer hashfile))
                (all_agree rest),
        events'
            ∙ ap (λ l. l ++ agreed_events rest) events
            ∙ event_if-append
                (transfer.exists (hashfile_path os transfer hashfile)
                  && agrees (hashfile_path os transfer hashfile))
                hashfile command run.events (agreed_events rest),
      )
    where
      both : (a b c : Bool) → ((a && b) && c) ≡ (a && (b && c))
      both true b c = refl
      both false b c = refl

  verified :
      (file_uuids : List String) (job : Job) (run : Run)
      → verify_files os transfer file_uuids job ≡ ok run
      → verify_all os transfer hashfiles_commands (start_run os transfer job) ≡ run
  unfolding verify_files
  verified [] job run e = absurd (raise-ne-ok e)
  verified (file_uuid ∷ rest) job run e = ok-injective e

  nonzero :
      (m : ℕ) (ret : ℤ) (agreed : Bool)
      → ret ≡ pos m
      → nat_eq m 0 ≡ (nat_eq 0 0 && agreed)
      → is_nonzero ret ≡ not agreed
  nonzero zero ret agreed e z = ap is_nonzero e ∙ ap not z
  nonzero (suc m) ret agreed e z =
      let shown : false ≡ agreed = ground (arith, z) in ap is_nonzero e ∙ ap not shown

  -- The checksums of a transfer are verified with the exit code 0 just if every checksum file that is
  -- there, in the metadata of the transfer, has as many lines as the transfer has objects, an empty one
  -- counting as one line, and its command finds no difference. The
  -- transfer's files get an event for each checksum file that is there and agrees, and no other. No
  -- command is killed by a signal.
  pub run_hashsum_commands-agree :
      (job : Job) (run : Run)
      → FailsPositive
      → run_hashsum_commands os transfer job ≡ ok run
      → (is_nonzero run.ret ≡ not (all_agree hashfiles_commands))
        × (run.events ≡ agreed_events hashfiles_commands)
  unfolding run_hashsum_commands
  run_hashsum_commands-agree job run h e =
      let same = verified transfer.file_uuids job run e in
      let (m, r, z, events) =
        verify_all-Reaches hashfiles_commands 0 (start_run os transfer job) h refl in
      (
        nonzero m run.ret (all_agree hashfiles_commands) (ap (λ (x : Run). x.ret) (sym same) ∙ r) z,
        ap (λ (x : Run). x.events) (sym same) ∙ events,
      )
