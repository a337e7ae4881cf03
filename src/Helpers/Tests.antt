-- ===== src/Helpers/Tests.antt =====
-- The helpers at concrete inputs.
use a3m.Common.{
  String, ◌≡◌, refl, true, none, some, [], ◌∷◌, raise, ok, value_error, other_error, Result,
}
use a3m.Common.Dict.{insert, remove, lookup, update}
use a3m.Common.Int.{pos, negsuc}
use a3m.Common.Text.{replace}
use a3m.Client.{join}
use a3m.Helpers.{chunks, next_chunk}
use a3m.Helpers.Options.{hyphenate, inner, rstrip_slashes}
use a3m.Helpers.Variables.{replace_variables, to_gnu_options}
use a3m.Helpers.Subprocess.{
  Machine, ended, os_error, text, words, bash_script, launch_sub_process, create_and_run_script,
  execute_or_run, environment, set_default, source_of, with_shebang, words_of,
}
use a3m.Helpers.Database.{
  Database, Storage, add_file_to_transfer, add_file_to_sip, insert_into_files, create_file,
  unit_ids, file_was_removed, insert_into_events, event_uuid, new_uuid, create_event,
  add_accession_event, update_files, file_exists,
}

program : Unit {0}
unfolding insert remove lookup update replace join chunks next_chunk hyphenate inner rstrip_slashes
    replace_variables to_gnu_options launch_sub_process create_and_run_script execute_or_run
    environment set_default source_of with_shebang words_of add_file_to_transfer add_file_to_sip
    insert_into_files create_file unit_ids file_was_removed insert_into_events event_uuid new_uuid
    create_event add_accession_event update_files file_exists
program = tt

chunks_example :
    chunks {A = String} 7 3 ("A" ∷ "B" ∷ "C" ∷ "D" ∷ [])
    ≡ (some "A" ∷ some "B" ∷ some "C" ∷ []) ∷ (some "D" ∷ none ∷ none ∷ []) ∷ []
unfolding program
chunks_example = refl

options_example : to_gnu_options (λ s. s) (("%fileUUID%", "x") ∷ []) ≡ "--file-UUID=x" ∷ []
unfolding program
options_example = refl

rstrip_example : rstrip_slashes "/a/b//" ≡ "/a/b"
unfolding program
rstrip_example = refl

replace_example : replace_variables (("%a%", "1") ∷ ("%b%", "%a%") ∷ []) "%a%-%b%" ≡ "1-%a%"
unfolding program
replace_example = refl

-- Every command ends with 3; one that is called "missing" is not found.
abbrev machine : Machine
machine = record {
  environ = ("LANG", "") ∷ [];
  split = λ s. some (s ∷ []);
  characters = λ s. s ∷ [];
  temporary = λ files. "/tmp/script";
  popen = λ command env stdin files. ended (pos 3) "out" "err" files;
}

language :
    environment machine.environ []
    ≡ ("LANG", "en_US.UTF-8") ∷ ("PYTHONIOENCODING", "utf-8") ∷ ("LANGUAGE", "en_US.UTF-8") ∷ []
unfolding program
language = refl

-- The temporary script is gone after a run.
removed :
    execute_or_run machine bash_script (text "ls") "" [] [] true (("a", "1") ∷ [])
    ≡ (ok (pos 3, ("out", "err")), ("a", "1") ∷ [])
unfolding program
removed = refl

words_raise :
    (execute_or_run machine bash_script (words ("ls" ∷ [])) "" [] [] true []).0 ≡ raise value_error
unfolding program
words_raise = refl

not_found :
    (launch_sub_process
      (record machine { popen = λ command env stdin files. os_error "No such file" })
      (text "missing")
      ""
      []
      []
      true
      []).0
    ≡ (negsuc 0, ("Config Error!", "No such file"))
unfolding program
not_found = refl

abbrev storage : Storage
storage = record {
  uuid4 = λ n. "new";
  size_of = λ path. ok 0;
  checksum_of = λ path kind. ok "0";
  default_checksum_algorithm = "sha256";
  accession_id = λ uuid. ok "";
}

abbrev empty : Database
empty = record { files = []; events = []; derivations = []; made = 0 }

abbrev outcome : Result Database → Result (Unit {0})
outcome (ok db) = ok tt
outcome (raise e) = raise e

-- A file with neither a transfer nor a SIP raises, and a UUID that is in use.
no_unit : outcome (insert_into_files "f" "path" "d" "" "" "original" "" empty) ≡ raise other_error
unfolding program
no_unit = refl

added :
    outcome (add_file_to_transfer storage "path" "f" "t" "d" "ingestion" "" "original" "" empty)
    ≡ ok tt
unfolding program
added = refl
