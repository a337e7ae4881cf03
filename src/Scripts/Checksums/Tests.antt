-- ===== src/Scripts/Checksums/Tests.antt =====
-- A transfer with two checksum files, and the theorem on its verification.
use a3m.Common.{
  String, ◌≡◌, refl, sym, ap, ◌∙◌, true, false, Bool, ◌==◌, ◌||◌, not, some, [], ◌∷◌, ok,
  if◌then◌else◌,
}
use Prim.Native.String.{◌++◌ as ◌⧺◌}
use a3m.Common.Int.{ℤ, is_positive, pos, is_nonzero, show, show_code}
use a3m.Common.Text.{starts, ends, contains, replace, replace_from}
use a3m.Client.{Job, new_job, write_output, write_error, join}
use a3m.Packages.{OsPath}
use a3m.Scripts.Checksums.{
  hashfiles_commands, Check, passed, failed, Transfer, count_lines, count_files,
  count_and_compare_lines, print_lines, compare_hashes, write_premis_event_per_file, Run,
  verify_all, run_hashsum_commands,
}
use a3m.Scripts.Checksums.Outcome.{
  all_agree, agreed_events, FailsPositive, run_hashsum_commands-agree,
}

abbrev os : OsPath
os = record {
  join = λ a rest. elim rest [
    | [] ↦ a
    | b ∷ names ↦ elim names [ [] ↦ a | c ∷ _ ↦ a ⧺ "/" ⧺ b ⧺ "/" ⧺ c ]
  ];
  dirname = λ s. s;
  basename = λ s. s;
  abspath = λ s. s;
  splitext = λ s. (s, ".md5");
  drop_first = λ s. s;
}

-- The sums of md5 agree, those of sha1 do not.
abbrev check : String → Check
check hashfile =
    if hashfile == "/t/metadata/checksum.sha1"
    then failed (pos 1) ("a: FAILED" ∷ "b: OK" ∷ "" ∷ [])
    else passed

abbrev transfer : Transfer
transfer = record {
  transfer_dir = "/t";
  exists = λ name. (name == "/t/metadata/checksum.md5") || (name == "/t/metadata/checksum.sha1");
  lines = λ name. "1 a" ∷ "2 b" ∷ [];
  walked = ("a" ∷ []) ∷ ("b" ∷ []) ∷ [];
  file_uuids = "f" ∷ "g" ∷ [];
  check = check;
  version = λ command. some "9.1";
  shlex_split = λ s. s ∷ [];
}

abbrev job : Job
job = new_job "verify_checksum" "1" [] false

program : Unit {0}
unfolding write_output write_error join show show_code starts ends contains replace replace_from
    count_lines count_files count_and_compare_lines print_lines compare_hashes
    write_premis_event_per_file verify_all run_hashsum_commands
program = tt

-- An empty checksum file counts one line.
count_lines_empty : count_lines [] ≡ 1
unfolding program
count_lines_empty = refl

abbrev md5_detail : String
md5_detail = "program=\"md5sum -c --strict /t/metadata/checksum.md5\"; version=\"9.1\""

abbrev run : Run
run = record {
  job = record job {
    error =
        "Comparing transfer checksums with the supplied md5 file\nComparing transfer checksums with the supplied md5 file\nmd5: comparison exited with status: 1. Please check the formatting of the checksums or integrity of the files.\nmd5: a: FAILED\n";
    output = "md5: Comparison was OK\n";
  };
  ret = pos 1;
  events = ("f", md5_detail) ∷ ("g", md5_detail) ∷ [];
}

verified : run_hashsum_commands os transfer job ≡ ok run
unfolding program
verified = refl

abbrev code_of : Check → ℤ
code_of passed = pos 1
code_of (failed returncode output) = returncode

check-positive :
    (b : Bool)
    → is_positive (code_of (if b then failed (pos 1) ("a: FAILED" ∷ "b: OK" ∷ "" ∷ []) else passed))
      ≡ true
check-positive true = refl
check-positive false = refl

fails_positive : FailsPositive os transfer
fails_positive hashfile returncode output e =
    ap (λ c. is_positive (code_of c)) (sym e)
    ∙ check-positive (hashfile == "/t/metadata/checksum.sha1")

run_hashsum_commands-agree_example :
    (is_nonzero run.ret ≡ not (all_agree os transfer hashfiles_commands))
    × (run.events ≡ agreed_events os transfer hashfiles_commands)
run_hashsum_commands-agree_example =
    run_hashsum_commands-agree os transfer job run fails_positive verified
