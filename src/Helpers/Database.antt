-- ===== src/Helpers/Database.antt =====
-- a3m/databaseFunctions.py and a3m/fileOperations.py: the rows of files, events and derivations that the
-- scripts write. `uuid4` gives the n-th new UUID. Dates are texts. A row that is created with a key in use raises
-- `IntegrityError`. Not modelled: the agents of an event, foreign keys, and that a callback is retried.
use Prim.Native.String.{◌++◌ as ◌⧺◌}
use a3m.Common.{
  ℕ, suc, String, Bool, true, false, not, ◌&&◌, ◌==◌, Option, none, some, List, [], ◌∷◌, ◌++◌,
  if◌then◌else◌, mem, Result, ok, raise, other_error, value_error, does_not_exist, ◌>>=◌,
}

-- Rows of `models.File`, `models.Event` and `models.Derivation`. `digest` is the size, the checksum and its type.
pub record FileRow : Type 0 where
  pub uuid : String
  pub originallocation : String
  pub currentlocation : Option String
  pub enteredsystem : String
  pub filegrpuse : String
  pub transfer_id : Option String
  pub sip_id : Option String
  pub digest : Option (ℕ × (String × String))
  pub removedtime : Option String

pub record EventRow : Type 0 where
  pub event_id : String
  pub file_uuid : String
  pub event_type : String
  pub event_datetime : String
  pub event_detail : String
  pub event_outcome : String
  pub event_outcome_detail : String

pub record DerivationRow : Type 0 where
  pub source_file : String
  pub derived_file : String
  pub event : String

-- The tables, and how many UUIDs were made.
pub record Database : Type 0 where
  pub files : List FileRow
  pub events : List EventRow
  pub derivations : List DerivationRow
  pub made : ℕ

abbrev pub uuids : List FileRow → List String
uuids [] = []
uuids (row ∷ rows) = row.uuid ∷ uuids rows

-- `File.objects.create`
unfoldable pub create_file : FileRow → Database → Result Database
create_file row db =
    if mem row.uuid (uuids db.files)
    then raise other_error
    else ok (record db { files = db.files ++ row ∷ [] })

-- `File.objects.filter(uuid=...).update(...)`
unfoldable pub update_files : String → (FileRow → FileRow) → List FileRow → List FileRow
update_files uuid f [] = []
update_files uuid f (row ∷ rows) =
    let rest = update_files uuid f rows in if row.uuid == uuid then f row ∷ rest else row ∷ rest

-- Exactly one of the UUIDs of a transfer and of a SIP is given.
unfoldable pub unit_ids : (transfer_uuid sip_uuid : String) → Result (Option String × Option String)
unit_ids transfer_uuid sip_uuid =
    if not (transfer_uuid == "") && (sip_uuid == "")
    then ok (some transfer_uuid, none)
    else if (transfer_uuid == "") && not (sip_uuid == "")
    then ok (none, some sip_uuid)
    else raise other_error

-- `value or default` for a text.
abbrev pub or_text : String → String → String
or_text value default_ = if value == "" then default_ else value

-- `insertIntoFiles`
unfoldable pub insert_into_files :
    (file_uuid file_path date transfer_uuid sip_uuid use_ original_location : String)
    → Database
    → Result Database
unfolding create_file unit_ids
insert_into_files file_uuid file_path date transfer_uuid sip_uuid use_ original_location db = do
  ids ← unit_ids transfer_uuid sip_uuid
  create_file
      (record {
        uuid = file_uuid;
        originallocation = or_text original_location file_path;
        currentlocation = some file_path;
        enteredsystem = date;
        filegrpuse = use_;
        transfer_id = ids.0;
        sip_id = ids.1;
        digest = none;
        removedtime = none;
      })
      db

-- What the file operations take from outside.
pub record Storage : Type 0 where
  pub uuid4 : ℕ → String
  pub size_of : String → Result ℕ
  pub checksum_of : (file_path checksum_type : String) → Result String
  pub default_checksum_algorithm : String
  pub accession_id : (transfer_uuid : String) → Result String

module _ (storage : Storage) where
  -- A new UUID.
  unfoldable pub new_uuid : Database → String × Database
  new_uuid db = (storage.uuid4 db.made, record db { made = suc db.made })

  -- The UUID of an event, or a new one.
  unfoldable pub event_uuid : String → Database → String × Database
  unfolding new_uuid
  event_uuid event_identifier db =
      if event_identifier == "" then new_uuid db else (event_identifier, db)

  abbrev pub event_ids : List EventRow → List String
  event_ids [] = []
  event_ids (row ∷ rows) = row.event_id ∷ event_ids rows

  -- `Event.objects.create`
  unfoldable pub create_event : EventRow → Database → Result Database
  create_event row db =
      if mem row.event_id (event_ids db.events)
      then raise other_error
      else ok (record db { events = db.events ++ row ∷ [] })

  -- `insertIntoEvents`
  unfoldable pub insert_into_events :
      (file_uuid event_identifier event_type date detail outcome note : String)
      → Database
      → Result Database
  unfolding event_uuid create_event
  insert_into_events file_uuid event_identifier event_type date detail outcome note db =
      let (id, db') = event_uuid event_identifier db in
      create_event
        (record {
          event_id = id;
          file_uuid = file_uuid;
          event_type = event_type;
          event_datetime = date;
          event_detail = detail;
          event_outcome = outcome;
          event_outcome_detail = note;
        })
        db'

  -- `insertIntoDerivations`
  unfoldable pub insert_into_derivations :
      (source_uuid derived_uuid event_id : String) → Database → Result Database
  insert_into_derivations source_uuid derived_uuid event_id db =
      if source_uuid == ""
      then raise value_error
      else if derived_uuid == ""
      then raise value_error
      else ok (record db {
        derivations =
            db.derivations
            ++ (record { source_file = source_uuid; derived_file = derived_uuid; event = event_id })
              ∷ [];
      })

  unfoldable pub file_exists : String → Database → Result (Unit {0})
  file_exists file_uuid db = if mem file_uuid (uuids db.files) then ok tt else raise does_not_exist

  -- `fileWasRemoved`
  unfoldable pub file_was_removed :
      (file_uuid date detail note outcome : String) → Database → Result Database
  unfolding new_uuid
  file_was_removed file_uuid date detail note outcome db =
      let (event_identifier, db') = new_uuid db in
      do
        db'' ←
            insert_into_events file_uuid event_identifier "file removed" date detail outcome note
              db'
        found ← file_exists file_uuid db''
        ok (record db'' {
          files =
              update_files file_uuid
                (λ row. record row { removedtime = some date; currentlocation = none }) db''.files;
        })

  -- `get_size_and_checksum`: what is given, or computed where it is missing, 0 or empty.
  abbrev pub size_or : Option ℕ → String → Result ℕ
  size_or (some (suc n)) file_path = ok (suc n)
  size_or _ file_path = storage.size_of file_path

  abbrev pub checksum_or : String → String → String → Result String
  checksum_or checksum file_path checksum_type =
      if checksum == "" then storage.checksum_of file_path checksum_type else ok checksum

  unfoldable pub get_size_and_checksum :
      (file_path : String)
      → Option ℕ
      → (checksum checksum_type : String) → Result (ℕ × (String × String))
  get_size_and_checksum file_path file_size checksum checksum_type = do
    size ← size_or file_size file_path
    sum ← checksum_or checksum file_path (or_text checksum_type storage.default_checksum_algorithm)
    ok (size, (sum, or_text checksum_type storage.default_checksum_algorithm))

  abbrev pub digest_event :
      Bool → (file_uuid date checksum checksum_type : String) → Database → Result Database
  digest_event false file_uuid date checksum checksum_type db = ok db
  digest_event true file_uuid date checksum checksum_type db =
      insert_into_events file_uuid "" "message digest calculation" date
        ("program=\"python\"; module=\"hashlib." ⧺ checksum_type ⧺ "()\"") "" checksum db

  -- `updateSizeAndChecksum`; the event's identifier is not passed on.
  unfoldable pub update_size_and_checksum :
      (file_uuid file_path date event_identifier : String)
      → Option ℕ
      → (checksum checksum_type : String) → (add_event : Bool) → Database
      → Result Database
  update_size_and_checksum file_uuid file_path date event_identifier file_size checksum
        checksum_type add_event db =
      do
        digest ← get_size_and_checksum file_path file_size checksum checksum_type
        digest_event add_event file_uuid date digest.1.0 digest.1.1 (record db {
          files = update_files file_uuid (λ row. record row { digest = some digest }) db.files;
        })

  abbrev pub registration : String → (file_uuid date : String) → Database → Result Database
  registration accession file_uuid date db =
      if accession == ""
      then ok db
      else insert_into_events file_uuid "" "registration" date "" "" ("accession#" ⧺ accession) db

  -- `addAccessionEvent`
  unfoldable pub add_accession_event :
      (file_uuid transfer_uuid date : String) → Database → Result Database
  add_accession_event file_uuid transfer_uuid date db = do
    accession ← storage.accession_id transfer_uuid
    registration accession file_uuid date db

  -- `addFileToTransfer`
  unfoldable pub add_file_to_transfer :
      (path file_uuid transfer_uuid date source_type detail use_ original_location : String)
      → Database
      → Result Database
  unfolding insert_into_files insert_into_events add_accession_event
  add_file_to_transfer path file_uuid transfer_uuid date source_type detail use_ original_location
        db =
      do
        filed ←
            insert_into_files file_uuid path date transfer_uuid "" use_
              (or_text original_location path) db
        logged ← insert_into_events file_uuid "" source_type date detail "" "" filed
        add_accession_event file_uuid transfer_uuid date logged

  -- `addFileToSIP`
  unfoldable pub add_file_to_sip :
      (path file_uuid sip_uuid date source_type use_ : String) → Database → Result Database
  unfolding insert_into_files insert_into_events
  add_file_to_sip path file_uuid sip_uuid date source_type use_ db = do
    filed ← insert_into_files file_uuid path date "" sip_uuid use_ "" db
    insert_into_events file_uuid "" source_type date "" "" "" filed
