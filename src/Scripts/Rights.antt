-- ===== src/Scripts/Rights.antt =====
-- a3m/client/clientScripts/rights_from_csv.py: the rows of a rights.csv and the statements that they
-- give. A row is the dictionary that `csv.DictReader` makes; a value is `None` where the row is too
-- short. `str.strip`, `str.lower` and `str.capitalize`, and the row of `models.File` at a location, are
-- parameters. `object_basis_act_usage` is the list of its keys: a file, a basis and an act.
-- A row that raises after `generate_rights_statement` leaves the statement that this has saved: it is
-- noted in `unfinished`, without the infos that were saved with it before the exception.
-- The children: Store (what a row stores), Unique (theorems), Tests.
pub mod Store
pub mod Unique
mod Tests
use a3m.Common.{
  ℕ, suc, String, Bool, true, false, not, ◌&&◌, ◌||◌, ◌==◌, Option, none, some, List, [], ◌∷◌, ◌++◌,
  if◌then◌else◌, mem, ◌+◌, Exception, rights_row, attribute_error, other_error, Result, ok, raise,
  ◌>>=◌,
}
use a3m.Common.Dict.{Dict, lookup, keys}
use a3m.Common.Int.{show, pos}
use a3m.Client.{Job, print_output, print_error, set_status, job_context}
use a3m.Scripts.Rights.Store.{
  Strings, Row, Statement, column_value, normalize, generate_rights_statement, store_row,
}

-- `allowed_column_names` and `required_column_names`
abbrev pub required_column_names : List String
required_column_names = "file" ∷ "grant_act" ∷ []

abbrev pub allowed_column_names : List String
allowed_column_names =
    "basis" ∷ "status" ∷ "determination_date" ∷ "start_date" ∷ "end_date" ∷ "jurisdiction" ∷ "terms"
    ∷ "citation" ∷ "note" ∷ "grant_restriction" ∷ "grant_start_date" ∷ "grant_end_date"
    ∷ "grant_note" ∷ "doc_id_type" ∷ "doc_id_value" ∷ "doc_id_role" ∷ required_column_names

-- `all(name in allowed for name in names)`
abbrev pub all_in : List String → List String → Bool
all_in [] allowed = true
all_in (name ∷ names) allowed = mem name allowed && all_in names allowed

unfoldable pub validate_columns : Row → Result (Unit {0})
validate_columns row =
    if all_in (keys row) allowed_column_names
    then (if all_in required_column_names (keys row) then ok tt else raise rights_row)
    else raise rights_row

-- A file, a basis and an act.
abbrev pub Usage : Type 0
Usage = String × (String × String)

abbrev pub same_usage : Usage → Usage → Bool
same_usage a b = (a.0 == b.0) && ((a.1.0 == b.1.0) && (a.1.1 == b.1.1))

abbrev pub used : Usage → List Usage → Bool
used usage [] = false
used usage (other ∷ rest) = same_usage other usage || used usage rest

-- `RightCsvReader`: whether a row was validated, and the row numbers that are printed as duplicates.
pub record Reader : Type 0 where
  pub validated : Bool
  pub rows_processed : ℕ
  pub object_basis_act_usage : List Usage
  pub stored : List (Usage × Statement)
  pub skipped : List ℕ
  pub unfinished : List Usage

abbrev pub new_reader : Reader
new_reader = record {
  validated = false;
  rows_processed = 0;
  object_basis_act_usage = [];
  stored = [];
  skipped = [];
  unfinished = [];
}

abbrev pub required : Option String → Exception → Result String
required none e = raise e
required (some value) e = ok value

module _ (strings : Strings) (file_at : String → Result String) where
  abbrev pub check_restriction : Option String → Result (Unit {0})
  check_restriction none = ok tt
  check_restriction (some restriction) =
      if mem (strings.lower restriction) ("disallow" ∷ "conditional" ∷ "allow" ∷ [])
      then ok tt
      else raise rights_row

  -- `parse_row` up to the look at the usage: `None` has no method `lower`.
  unfoldable pub usage_of : Row → Result Usage
  usage_of row = do
    file ← column_value strings row "file"
    filepath ← required file rights_row
    restriction ← column_value strings row "grant_restriction"
    allowed ← check_restriction restriction
    basis ← column_value strings row "basis"
    basis_text ← required basis attribute_error
    act ← column_value strings row "grant_act"
    act_text ← required act rights_row
    ok (filepath, (normalize strings basis_text, normalize strings act_text))

  abbrev pub processed : Reader → Reader
  processed reader = record reader { rows_processed = reader.rows_processed + 1 }

  pub skip : Reader → Reader
  skip reader =
      processed (record reader { skipped = reader.skipped ++ (reader.rows_processed + 1) ∷ [] })

  pub store : Usage → Statement → Reader → Reader
  store usage statement reader = processed (record reader {
    stored = (usage, statement) ∷ reader.stored;
    object_basis_act_usage = usage ∷ reader.object_basis_act_usage;
  })

  -- The exception of a row comes before the statement is saved, or after it.
  abbrev pub leave : Usage → Result (String × String) → Reader → Reader
  leave usage (raise e) reader = reader
  leave usage (ok generated) reader = record reader { unfinished = usage ∷ reader.unfinished }

  pub store_if :
      Usage → Result (String × String) → Result Statement → Reader → Result (Unit {0}) × Reader
  unfolding store
  store_if usage generated (raise e) reader = (raise e, leave usage generated reader)
  store_if usage generated (ok statement) reader = (ok tt, store usage statement reader)

  pub import_row : Row → Result Usage → Reader → Result (Unit {0}) × Reader
  unfolding skip store_if
  import_row row (raise e) reader = (raise e, reader)
  import_row row (ok usage) reader =
      if used usage reader.object_basis_act_usage
      then (ok tt, skip reader)
      else store_if usage (generate_rights_statement strings file_at row)
          (store_row strings file_at row) reader

  -- Only the first row's columns are validated; `current_row` is set when they are.
  pub validate_first : Bool → Row → Result (Unit {0})
  validate_first true row = ok tt
  validate_first false row = validate_columns row

  pub parse_validated : Result (Unit {0}) → Row → Reader → Result (Unit {0}) × Reader
  unfolding import_row
  parse_validated (raise e) row reader = (raise e, reader)
  parse_validated (ok _) row reader =
      import_row row (usage_of row) (record reader { validated = true })

  unfoldable pub parse_row : Row → Reader → Result (Unit {0}) × Reader
  unfolding parse_validated validate_first
  parse_row row reader = parse_validated (validate_first reader.validated row) row reader

  -- `parse`
  unfoldable pub parse_rows : List Row → Reader → Result (Unit {0}) × Reader
  parse_rows [] reader = (ok tt, reader)
  parse_rows (row ∷ rows) reader =
      let parsed = parse_row row reader in
      elim parsed.0 [ raise e ↦ (raise e, parsed.1) | ok _ ↦ parse_rows rows parsed.1 ]

  -- `call`, of one job: the rows are those of the rights.csv, if the file is there. The texts of an error are
  -- a function of the exception and the number of rows processed.
  pub print_skipped : List ℕ → Job → Job
  print_skipped [] job = job
  print_skipped (number ∷ rest) job =
      print_skipped rest
        (print_output ("Skipping duplicate basis/act combination at row" ∷ show number ∷ []) job)

  pub imported : (Exception → ℕ → String × String) → Result (Unit {0}) → Reader → Job → Job
  imported texts (ok _) reader job =
      print_output ("Processed rows:" ∷ show reader.rows_processed ∷ []) job
  imported texts (raise rights_row) reader job =
      set_status (pos 1) "success"
        (print_error ((texts rights_row reader.rows_processed).0 ∷ []) job)
  imported texts (raise e) reader job = job_context (some (texts e reader.rows_processed)) job

  unfoldable pub import_rights :
      (Exception → ℕ → String × String) → String → Option (List Row) → Job → Job
  unfolding print_skipped imported
  import_rights texts rights_csv_filepath none job =
      print_output ("No rights.csv file found at" ∷ rights_csv_filepath ∷ []) job
  import_rights texts rights_csv_filepath (some rows) job =
      let parsed = parse_rows rows new_reader in
      imported texts parsed.0 parsed.1 (
        print_skipped parsed.1.skipped
          (print_output ("Attempting to import rights data..." ∷ []) job))
