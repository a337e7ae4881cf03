-- ===== src/Scripts/Assign.antt =====
-- a3m/client/clientScripts/assign_file_uuids.py: the rows of the files of a transfer or a SIP. The arguments come
-- parsed, and the directories as `os.walk` finds them. What a call printed before it raised is not
-- modelled, and neither are the transactions.
mod Tests
use a3m.Common.{
  ℕ, String, Bool, true, false, not, ◌&&◌, ◌||◌, ◌==◌, Option, none, some, List, [], ◌∷◌,
  if◌then◌else◌, length, Exception, Result, ok, raise, ◌>>=◌,
}
use Prim.Native.String.{◌++◌ as ◌⧺◌}
use a3m.Common.Text.{replace_first}
use a3m.Common.Int.{ℤ, pos}
use a3m.Client.{Job, print_output, print_error, set_status, job_context}
use a3m.Packages.{OsPath}
use a3m.Helpers.{chunks}
use a3m.Helpers.Database.{
  FileRow, Database, Storage, new_uuid, update_files, add_file_to_transfer, add_file_to_sip,
}

pub record Arguments : Type 0 where
  pub date : String
  pub sip_directory : String
  pub sip_uuid : Option String
  pub transfer_uuid : Option String
  pub use_ : String
  pub update_use : Bool
  pub filter_subdir : Option String

-- The job and the tables.
abbrev pub State : Type 0
State = Job × Database

abbrev pub is_of : String → Option String → Bool
is_of uuid none = false
is_of uuid (some other) = other == uuid

-- `File.objects.filter(currentlocation=..., sip=...).first()`
unfoldable pub matching_file : (location sip_uuid : String) → List FileRow → Option FileRow
matching_file location sip_uuid [] = none
matching_file location sip_uuid (row ∷ rows) =
    if is_of location row.currentlocation && is_of sip_uuid row.sip_id
    then some row
    else matching_file location sip_uuid rows

module _ (os : OsPath) (storage : Storage) (walk : String → List (String × List String)) where
  unfoldable pub assign_transfer_file_uuid :
      (file_path transfer_uuid : String) → Arguments → State → Result State
  unfolding new_uuid add_file_to_transfer replace_first
  assign_transfer_file_uuid file_path transfer_uuid arguments (job, db) =
      let (file_uuid, made) = new_uuid storage db in
      add_file_to_transfer storage
        (replace_first file_path arguments.sip_directory "%transferDirectory%") file_uuid
        transfer_uuid arguments.date "ingestion" "" arguments.use_ "" made
      >>= (λ added. ok (print_output ("Generated UUID for file" ∷ file_uuid ∷ []) job, added))

  abbrev pub with_use : Bool → FileRow → String → Database → Database
  with_use false row use_ db = db
  with_use true row use_ db = record db {
    files = update_files row.uuid (λ r. record r { filegrpuse = use_ }) db.files;
  }

  -- A file that is known keeps its UUID.
  pub assign_unmatched :
      Option FileRow → (path sip_uuid file_uuid : String) → Arguments → State → Result State
  unfolding add_file_to_sip
  assign_unmatched (some row) path sip_uuid file_uuid arguments (job, db) = ok (
    print_error ("File already has UUID:" ∷ row.uuid ∷ []) job,
    with_use arguments.update_use row arguments.use_ db,
  )
  assign_unmatched none path sip_uuid file_uuid arguments (job, db) =
      add_file_to_sip storage path file_uuid sip_uuid arguments.date "ingestion" arguments.use_ db
      >>= (λ added.
          ok (print_output (("Generated UUID for file " ⧺ file_uuid ⧺ ".") ∷ []) job, added))

  unfoldable pub assign_sip_file_uuid :
      (file_path sip_uuid : String) → Arguments → State → Result State
  unfolding new_uuid assign_unmatched replace_first matching_file
  assign_sip_file_uuid file_path sip_uuid arguments (job, db) =
      let path = replace_first file_path arguments.sip_directory "%SIPDirectory%" in
      let (file_uuid, made) = new_uuid storage db in
      assign_unmatched (matching_file path sip_uuid db.files) path sip_uuid file_uuid arguments
        (job, made)

  -- One file: of the transfer if there is one. `call` never comes here without a UUID.
  pub assign_file :
      (file_path : String) → Option String → Option String → Arguments → State → Result State
  unfolding assign_transfer_file_uuid assign_sip_file_uuid
  assign_file file_path (some transfer_uuid) sip_uuid arguments state =
      assign_transfer_file_uuid file_path transfer_uuid arguments state
  assign_file file_path none (some sip_uuid) arguments state =
      assign_sip_file_uuid file_path sip_uuid arguments state
  assign_file file_path none none arguments state =
      assign_sip_file_uuid file_path "" arguments state

  -- A chunk is filled up with `None`, which is passed over, as an empty name is.
  unfoldable pub assign_chunk :
      (root : String) → List (Option String) → Arguments → State → Result State
  unfolding assign_file
  assign_chunk root [] arguments state = ok state
  assign_chunk root (none ∷ chunk) arguments state = assign_chunk root chunk arguments state
  assign_chunk root (some filename ∷ chunk) arguments state = do
    assigned ←
        (if filename == ""
          then ok state
          else assign_file (os.join root (filename ∷ [])) arguments.transfer_uuid arguments.sip_uuid
              arguments state)
    assign_chunk root chunk arguments assigned

  unfoldable pub assign_chunks :
      (root : String) → List (List (Option String)) → Arguments → State → Result State
  unfolding assign_chunk
  assign_chunks root [] arguments state = ok state
  assign_chunks root (chunk ∷ rest) arguments state = do
    assigned ← assign_chunk root chunk arguments state
    assign_chunks root rest arguments assigned

  -- The chunks of ten files of each directory.
  unfoldable pub assign_directories : List (String × List String) → Arguments → State → Result State
  unfolding assign_chunks chunks
  assign_directories [] arguments state = ok state
  assign_directories ((root, filenames) ∷ rest) arguments state = do
    assigned ← assign_chunks root (chunks (length filenames) 10 filenames) arguments state
    assign_directories rest arguments assigned

  abbrev pub target_dir : Arguments → String
  target_dir arguments = elim arguments.filter_subdir [
    | none ↦ arguments.sip_directory
    | some subdir ↦
        (if subdir == ""
          then arguments.sip_directory
          else os.join arguments.sip_directory (subdir ∷ []))
  ]

  -- `assign_uuids_to_files_in_dir`, with its exit code.
  unfoldable pub assign_uuids_to_files_in_dir : Arguments → State → Result (ℤ × State)
  unfolding assign_directories
  assign_uuids_to_files_in_dir arguments state = do
    assigned ← assign_directories (walk (target_dir arguments)) arguments state
    ok (pos 0, assigned)

  abbrev pub is_one : Option String → Option String → Bool
  is_one (some a) none = true
  is_one none (some b) = true
  is_one a b = false

  -- The end of a job in its context; the texts of an exception are a function of it.
  pub ended : (Exception → String × String) → State → Result (ℤ × State) → State
  unfolding set_status job_context
  ended texts state (ok (code, (job, db))) = (set_status code "success" job, db)
  ended texts (job, db) (raise e) = (job_context (some (texts e)) job, db)

  -- `call`: an argument error of one job ends it for all, and the jobs after it stay as they are.
  unfoldable pub call :
      (Exception → String × String) → List (Arguments × Job) → Database → List Job × Database
  unfolding ended assign_uuids_to_files_in_dir set_status
  call texts [] db = ([], db)
  call texts ((arguments, job) ∷ jobs) db =
      let (done_, after) =
        ended texts (job, db) (assign_uuids_to_files_in_dir arguments (job, db)) in
      let rest = call texts jobs after in
      if is_one arguments.sip_uuid arguments.transfer_uuid then (done_ ∷ rest.0, rest.1) else (
        set_status (pos 2) "success"
              (print_error ("SIP exclusive-or Transfer UUID must be defined" ∷ []) job)
            ∷ jobs_of jobs,
        db,
      )
    where
      jobs_of : List (Arguments × Job) → List Job
      jobs_of [] = []
      jobs_of ((arguments, job) ∷ rest) = job ∷ jobs_of rest
