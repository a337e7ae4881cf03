-- ===== src/Scripts/Assign/Tests.antt =====
-- Two files of a transfer, and an argument error.
use a3m.Common.{String, ◌≡◌, refl, true, none, some, List, [], ◌∷◌, ok}
use a3m.Common.Int.{ℤ, pos, show}
use a3m.Common.Text.{starts, replace_first}
use a3m.Client.{
  Job, new_job, print_output, print_error, write_output, write_error, join, set_status, job_context,
}
use a3m.Packages.{OsPath}
use a3m.Helpers.{chunks, next_chunk}
use a3m.Helpers.Database.{
  Database, Storage, uuids, new_uuid, update_files, add_file_to_transfer, add_file_to_sip,
  insert_into_files, create_file, unit_ids, insert_into_events, event_uuid, create_event,
  add_accession_event,
}
use a3m.Scripts.Assign.{
  Arguments, matching_file, assign_transfer_file_uuid, assign_sip_file_uuid, assign_chunk,
  assign_chunks, assign_directories, assign_uuids_to_files_in_dir, call,
}

program : Unit {0}
unfolding show starts replace_first print_output print_error write_output write_error join
    set_status job_context chunks next_chunk new_uuid update_files add_file_to_transfer
    add_file_to_sip insert_into_files create_file unit_ids insert_into_events event_uuid
    create_event add_accession_event matching_file assign_transfer_file_uuid assign_sip_file_uuid
    assign_chunk assign_chunks assign_directories assign_uuids_to_files_in_dir call
program = tt

abbrev os : OsPath
os = record {
  join = λ a rest. a;
  dirname = λ s. s;
  basename = λ s. s;
  abspath = λ s. s;
  splitext = λ s. (s, "");
  drop_first = λ s. s;
}

abbrev storage : Storage
storage = record {
  uuid4 = show;
  size_of = λ path. ok 0;
  checksum_of = λ path kind. ok "0";
  default_checksum_algorithm = "sha256";
  accession_id = λ uuid. ok "12";
}

abbrev arguments : Arguments
arguments = record {
  date = "d";
  sip_directory = "/sip/";
  sip_uuid = none;
  transfer_uuid = some "t";
  use_ = "original";
  update_use = true;
  filter_subdir = none;
}

abbrev walk : String → List (String × List String)
walk directory = ("/sip/objects/", "a" ∷ "b" ∷ []) ∷ ("/sip/metadata/", []) ∷ []

abbrev empty : Database
empty = record { files = []; events = []; derivations = []; made = 0 }

abbrev job : Job
job = new_job "assign_file_uuids" "1" [] true

abbrev codes : List Job → List ℤ
codes [] = []
codes (j ∷ jobs) = j.int_code ∷ codes jobs

-- The events of a file take the UUIDs between those of the files.
two_files :
    uuids (call os storage walk (λ e. ("", "")) ((arguments, job) ∷ []) empty).1.files
    ≡ "0" ∷ "3" ∷ []
unfolding program
two_files = refl

-- The job after the one with an argument error is not worked on.
left_out :
    codes
      (call os storage walk
        (λ e. ("", ""))
        ((record arguments { transfer_uuid = none }, job) ∷ (arguments, job) ∷ [])
        empty).0
    ≡ pos 2 ∷ pos 0 ∷ []
unfolding program
left_out = refl
