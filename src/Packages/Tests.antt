-- ===== src/Packages/Tests.antt =====
-- A package with two files, and the theorems about the files of a job at it.
use a3m.Common.{
  raise, true, value_error, if◌then◌else◌, String, ◌≡◌, refl, Bool, ◌&&◌, ◌||◌, ◌==◌, none, some,
  List, ok, [], ◌∷◌, mem, Distinct, All,
}
use Prim.Native.String.{◌++◌}
use a3m.Common.Dict.{Dict, lookup, insert, update}
use a3m.Common.Text.{replace, replace_from, starts, replace_first, contains}
use a3m.Jobs.{transfer, get_job_class_for_link, next}
use a3m.Packages.{
  Settings, OsPath, Package, File, known_files, found_files, files, paths,
  get_file_replacement_mapping, get_replacement_mapping, reload, set_current_path, start_ingest,
  current_path_for_db,
}
use a3m.Packages.Status.{
  JobRow, Sip, PackageStatus, complete, get_latest_job, jobs_of, status_of_job, get_package_status,
  IsStoring, get_package_status_complete,
}
use a3m.Packages.Launch.{
  load_from_db, create_package, trigger_workflow, IsLaunched, trigger_workflow-IsLaunched,
}
use a3m.Workflow.{Link, Workflow, get_initiator}
use a3m.Queue.{
  init, done, schedule_job, put_package_nowait, start_if_capacity, queue_next_job,
  get_package_job_nowait, release, activate_package,
}
use a3m.Packages.Files.{Names, is_row_of, files_cover, files-Distinct}

abbrev os : OsPath
os = record {
  join = λ a rest. a;
  dirname = λ s. s;
  basename = λ s. s;
  abspath = λ s. s;
  splitext = λ s. (s, "");
  drop_first = λ s. s;
}

abbrev settings : Settings
settings = record {
  shared_directory = "/shared/";
  processing_directory = "/processing/";
  rejected_directory = "/rejected/";
}

abbrev package_a : Package
package_a = record {
  name = "a";
  url = "file:///a";
  config = ("normalize", "True") ∷ [];
  transfer_pk = "t";
  sip_pk = "s";
  stage = transfer;
  aip_filename = none;
  current_path = "/p/";
}

abbrev file : String → File
file name = record {
  pk = name;
  originallocation = "%transferDirectory%" ++ name;
  currentlocation = "%transferDirectory%" ++ name;
  filegrpuse = "original";
}

abbrev rows : List File
rows = file "x" ∷ file "y" ∷ []

-- The file y was removed; the file z is not in the database.
abbrev exists : String → Bool
exists path = path == "/p/x"

abbrev walk : String → List String
walk directory = "/p/x" ∷ "/p/z" ∷ []

program : Unit {0}
unfolding lookup insert update replace replace_from starts known_files found_files files
    get_file_replacement_mapping get_replacement_mapping reload set_current_path start_ingest
    current_path_for_db replace_first contains get_latest_job jobs_of status_of_job
    get_package_status load_from_db trigger_workflow get_initiator schedule_job put_package_nowait
    start_if_capacity queue_next_job get_package_job_nowait release activate_package
    get_job_class_for_link next
program = tt

files_test : paths (files os settings exists walk package_a "" rows) ≡ "/p/x" ∷ "/p/z" ∷ []
unfolding program
files_test = refl

-- In ingest a package has the name of its AIP, after it is reloaded, and no URL.
ingest_test :
    (lookup "%AIPFilename%" (
        get_replacement_mapping os settings
          (reload settings "%sharedPath%s/" none "" (start_ingest package_a)))
      ≡ some (some ""))
    × (lookup "%URL%" (get_replacement_mapping os settings (start_ingest package_a)) ≡ none)
unfolding program
ingest_test = (refl, refl)

files_cover_example :
    (mem "/p/z" (paths (files os settings exists walk package_a "" rows)) ≡ (
      (exists "/p/z" && is_row_of package_a "" "/p/z" rows)
      || mem "/p/z" (walk (package_a.current_path ++ ""))))
    × All Names (files os settings exists walk package_a "" rows)
files_cover_example = files_cover os settings exists walk package_a "" rows "/p/z"

known-Distinct : Distinct (paths (known_files os settings exists package_a "" rows))
unfolding program
known-Distinct = (refl, tt)

files-Distinct_example : Distinct (paths (files os settings exists walk package_a "" rows))
files-Distinct_example =
    files-Distinct os settings exists walk package_a "" rows known-Distinct (refl, (refl, tt))

path_test :
    current_path_for_db settings (record package_a { current_path = "/shared/x/shared/" })
    ≡ "%sharedPath%x/shared/"
unfolding program
path_test = refl

abbrev stored : JobRow
stored = record {
  jobuuid = "j";
  sipuuid = "s";
  jobtype = "a3m - Store AIP";
  currentstep = 1;
  microservicegroup = "Store AIP";
  microservicechainlink = "l";
}

abbrev sip : Sip
sip = record { pk = "s"; transfer_id = some "t" }

abbrev job_rows : List JobRow
job_rows = record stored { sipuuid = "t"; jobtype = "Assign UUIDs" } ∷ stored ∷ []

abbrev none_active : Dict String
none_active = []

abbrev reported : PackageStatus
reported = record { status = complete; job = some "Store AIP"; jobs = job_rows }

status_test : get_package_status (λ s. s) none_active (λ id_. some sip) job_rows "s" ≡ ok reported
unfolding program
status_test = refl

-- The status of the latest job does not matter: 3 stands for "Failed".
failed_test :
    get_package_status
      (λ s. s)
      none_active
      (λ id_. some sip)
      (record stored { currentstep = 3 } ∷ [])
      "s"
    ≡ ok (record {
      status = complete;
      job = some "Store AIP";
      jobs = record stored { currentstep = 3 } ∷ [];
    })
unfolding program
failed_test = refl

get_package_status_complete_example :
    (lookup "s" none_active ≡ none) × IsStoring (λ s. s) "s" sip job_rows
get_package_status_complete_example =
    get_package_status_complete (λ s. s) none_active (λ id_. some sip) job_rows "s" sip reported
      refl status_test refl

abbrev link : Link
link = record {
  id = "first";
  src = record {
    config = record {
      manager = "linkTaskManagerDirectories";
      execute = none;
      arguments = none;
      stdout_file = none;
      stderr_file = none;
      filter_subdir = none;
      config_attr = none;
      default = none;
      choices = [];
      replacements = none;
    };
    start = some true;
    end = none;
    exit_codes = none;
    fallback_job_status = 3;
    fallback_link_id = none;
    description = some [];
    group = some [];
  };
}

abbrev workflow : Workflow
workflow = record { links = ("first", link) ∷ [] }

triggered : (trigger_workflow "1" package_a (init 1 2) workflow).0 ≡ done tt
unfolding program
triggered = refl

-- A package without a name is refused.
create_test : create_package os settings "t" "s" "" "file:///a" [] ≡ raise value_error
unfolding create_package
create_test = refl

-- A value that is no literal is skipped.
context_test :
    load_from_db
      (λ s. if s == "" then raise value_error else ok (("k", s) ∷ []))
      ("a" ∷ "" ∷ "b" ∷ [])
      []
    ≡ ok (("k", "b") ∷ [])
unfolding program
context_test = refl

trigger_workflow-IsLaunched_example :
    IsLaunched "1" package_a
      (init 1 2)
      workflow
      (trigger_workflow "1" package_a (init 1 2) workflow)
trigger_workflow-IsLaunched_example =
    trigger_workflow-IsLaunched "1" package_a (init 1 2) workflow triggered
