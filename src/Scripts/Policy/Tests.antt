-- ===== src/Scripts/Policy/Tests.antt =====
-- A file whose policy check does not pass, and one that is not checked.
use a3m.Common.{
  String, ◌≡◌, refl, ◌==◌, Option, none, some, [], ◌∷◌, ok, raise, Result, false, if◌then◌else◌,
}
use a3m.Common.Dict.{lookup, insert, update}
use a3m.Common.Int.{ℤ, pos, show, show_code}
use a3m.Common.Text.{starts, ends}
use a3m.Client.{new_job, print_output, print_error, write_output, write_error, join}
use a3m.Packages.{OsPath}
use a3m.Helpers.Subprocess.{
  ended, command_line, execute_or_run, launch_sub_process, environment, set_default, words_of,
}
use a3m.Helpers.Database.{insert_into_events, event_uuid, new_uuid, create_event}
use a3m.Scripts.Policy.{
  PolicyChecker, World, Surroundings, file_model, event_type_of, derivations_of, located_at,
  file_is_derivative, file_is_for_access, we_check_this_type_of_file, rules_file, insert_event,
  execute_rule_command, execute_all, check,
}

program : Unit {0}
unfolding lookup insert update show show_code starts ends print_output print_error write_output
    write_error join execute_or_run launch_sub_process environment set_default words_of
    insert_into_events event_uuid new_uuid create_event file_model event_type_of derivations_of
    located_at file_is_derivative file_is_for_access we_check_this_type_of_file rules_file
    insert_event execute_rule_command execute_all check
program = tt

abbrev os : OsPath
os = record {
  join = λ a rest. a;
  dirname = λ s. s;
  basename = λ s. s;
  abspath = λ s. s;
  splitext = λ s. (s, "");
  drop_first = λ s. s;
}

-- The command "no json" prints what is no JSON.
abbrev around : String → Surroundings
around command = record {
  os = os;
  machine = record {
    environ = [];
    split = λ s. some (s ∷ []);
    characters = λ s. s ∷ [];
    temporary = λ files. "/tmp/script";
    popen = λ words env stdin files. ended (pos 0) command "" files;
  };
  storage = record {
    uuid4 = show;
    size_of = λ path. ok 0;
    checksum_of = λ path kind. ok "0";
    default_checksum_algorithm = "sha256";
    accession_id = λ uuid. ok "";
  };
  now = "today";
  rules = λ uuid. ok (
      record {
        description = "MediaConch";
        script_type = command_line;
        command = command;
        tool = some ("mc", "1");
      }
      ∷ []);
  replaced = λ s. ok s;
  loads = λ s. if s == "no json" then none else some (("eventOutcomeInformation", s) ∷ []);
}

abbrev checker : (file_type : String) → PolicyChecker
checker file_type = record {
  file_path = "/sip/a";
  file_uuid = "f";
  sip_uuid = "s";
  shared_path = some "/shared";
  file_type = file_type;
}

abbrev world : World
world = record {
  job = new_job "policy_check" "1" [] false;
  files = [];
  db = record {
    files =
        record {
          uuid = "f";
          originallocation = "a";
          currentlocation = some "a";
          enteredsystem = "d";
          filegrpuse = "original";
          transfer_id = none;
          sip_id = some "s";
          digest = none;
          removedtime = none;
        }
        ∷ [];
    events = [];
    derivations = [];
    made = 0;
  };
}

abbrev code : Result (ℤ × World) → Option ℤ
code (ok result) = some result.0
code (raise e) = none

passing : code (check (around "pass") (checker "original") world) ≡ some (pos 0)
unfolding program
passing = refl

failing : code (check (around "fail") (checker "original") world) ≡ some (pos 1)
unfolding program
failing = refl

-- A file that is no derivative is not checked as one.
unchecked : code (check (around "fail") (checker "preservation") world) ≡ some (pos 0)
unfolding program
unchecked = refl

malformed : code (check (around "no json") (checker "original") world) ≡ none
unfolding program
malformed = refl
